-- ===== src/ServerMain/Arguments.antt =====
-- Which arguments the program accepts.
use cache_x.Base.{
  ℕ, ◌^◌, ◌≤◌, ◌≡◌, ◌↔◌, List, [], ◌∷◌, Option, none, some, Bytes, arith, Option-cases, inl, inr,
  length, get_elem?,
}
use cache_x.Decimal.{read_magnitude}
use cache_x.Decimal.Numeral.{IsNumeral, read_magnitude-eq_iff}
use cache_x.Socket.{parse_port}
use cache_x.Socket.Port.{parse_port-eq_iff}
use cache_x.ServerMain.{Settings, parse_count, argument, parse_arguments}

pub parse_count-eq_iff :
    (text : Bytes) (n : ℕ) → (parse_count text ≡ some n) ↔ IsNumeral (2 ^ 64) text n
unfolding parse_count
parse_count-eq_iff text n = (to, from)
  where
    to : parse_count text ≡ some n → IsNumeral (2 ^ 64) text n
    to h = elim (Option-cases (read_magnitude (2 ^ 64) text)) [
      | inl e ↦ absurd (ground (arith, h, e))
      | inr ((v, d ∷ ds), e) ↦ absurd (ground (arith, h, e))
      | inr ((v, []), e) ↦
          let same : v ≡ n = ground (arith, h, e) in
          rw same at ((read_magnitude-eq_iff (2 ^ 64) text v).0 e)
    ]

    from : IsNumeral (2 ^ 64) text n → parse_count text ≡ some n
    from h = let read = (read_magnitude-eq_iff (2 ^ 64) text n).1 h in ground (arith, read)

-- The argument at a position is a number, or is missing and has its default.
abbrev pub Says : List Bytes → ℕ → ℕ → ℕ → ℕ → Type 0
Says arguments i limit default n = elim (get_elem? arguments i) [
  | none ↦ default ≡ n
  | some text ↦ IsNumeral limit text n
]

abbrev pub path_of : Option Bytes → Bytes
path_of none = []
path_of (some path) = path

pub record Describes (arguments : List Bytes) (s : Settings) : Type 0 where
  pub few : length arguments ≤ 5
  pub port : Says arguments 0 65536 6379 s.port
  pub capacity : Says arguments 1 (2 ^ 64) 0 s.capacity
  pub shards : Says arguments 2 (2 ^ 64) 8 s.shards
  pub snapshot_path : path_of (get_elem? arguments 3) ≡ s.snapshot_path
  pub save_interval : Says arguments 4 (2 ^ 64) 0 s.save_interval

argument-Says :
    (arguments : List Bytes) (i limit default n : ℕ) (parse : Bytes → Option ℕ)
    → ((text : Bytes) (v : ℕ) → (parse text ≡ some v) ↔ IsNumeral limit text v)
    → (argument arguments i parse default ≡ some n) ↔ Says arguments i limit default n
unfolding argument
argument-Says arguments i limit default n parse iff = go (get_elem? arguments i)
  where
    go :
        (a : Option Bytes)
        → ((elim a [ none ↦ some default | some text ↦ parse text ]) ≡ some n)
          ↔ (elim a [ none ↦ default ≡ n | some text ↦ IsNumeral limit text n ])
    go none = (λ h. ground (arith, h), λ h. ground (arith, h))
    go (some text) = iff text n

argument-path :
    (arguments : List Bytes)
    → argument arguments 3 (λ path. some path) [] ≡ some (path_of (get_elem? arguments 3))
unfolding argument
argument-path arguments = ground arith

module _ (arguments : List Bytes) where
  port-Says :
      (n : ℕ) → (argument arguments 0 parse_port 6379 ≡ some n) ↔ Says arguments 0 65536 6379 n
  port-Says n = argument-Says arguments 0 65536 6379 n parse_port parse_port-eq_iff

  count-Says :
      (i default n : ℕ)
      → (argument arguments i parse_count default ≡ some n) ↔ Says arguments i (2 ^ 64) default n
  count-Says i default n =
      argument-Says arguments i (2 ^ 64) default n parse_count parse_count-eq_iff

  parse_arguments-Describes :
      (s : Settings) → parse_arguments arguments ≡ some s → Describes arguments s
  unfolding parse_arguments
  parse_arguments-Describes s h =
      let path = argument-path arguments in
      elim (Option-cases (argument arguments 0 parse_port 6379)) [
        | inl e ↦ absurd (ground (arith, h, e))
        | inr (port, e₀) ↦ elim (Option-cases (argument arguments 1 parse_count 0)) [
          | inl e ↦ absurd (ground (arith, h, e₀, e))
          | inr (capacity, e₁) ↦ elim (Option-cases (argument arguments 2 parse_count 8)) [
            | inl e ↦ absurd (ground (arith, h, e₀, e₁, e))
            | inr (shards, e₂) ↦ elim (Option-cases (argument arguments 4 parse_count 0)) [
              | inl e ↦ absurd (ground (arith, h, e₀, e₁, e₂, e))
              | inr (save_interval, e₄) ↦ record {
                few = ground (arith, h, e₀, e₁, e₂, e₄, path);
                port = (port-Says s.port).0 (ground (arith, h, e₀, e₁, e₂, e₄, path));
                capacity = (count-Says 1 0 s.capacity).0 (ground (arith, h, e₀, e₁, e₂, e₄, path));
                shards = (count-Says 2 8 s.shards).0 (ground (arith, h, e₀, e₁, e₂, e₄, path));
                snapshot_path = ground (arith, h, e₀, e₁, e₂, e₄, path);
                save_interval =
                    (count-Says 4 0 s.save_interval).0 (ground (arith, h, e₀, e₁, e₂, e₄, path));
              }
            ]
          ]
        ]
      ]

  parse_arguments_of : (s : Settings) → Describes arguments s → parse_arguments arguments ≡ some s
  unfolding parse_arguments
  parse_arguments_of s d = ground (
    arith,
    (port-Says s.port).1 d.port,
    (count-Says 1 0 s.capacity).1 d.capacity,
    (count-Says 2 8 s.shards).1 d.shards,
    (count-Says 4 0 s.save_interval).1 d.save_interval,
    argument-path arguments,
    d.few,
    d.snapshot_path,
  )

  -- The arguments are accepted, with given settings, if and only if there are at most five of them
  -- and each number is written in digits only and in range; a missing one has its default. The path
  -- of the snapshot may be any text.
  pub parse_arguments-eq_iff :
      (s : Settings) → (parse_arguments arguments ≡ some s) ↔ Describes arguments s
  parse_arguments-eq_iff s = (parse_arguments-Describes s, parse_arguments_of s)
