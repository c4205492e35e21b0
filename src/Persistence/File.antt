-- ===== src/Persistence/File.antt =====
-- The format of a snapshot: what `save` writes and what `load` reads.
use cache_x.Base.{
  ◌≡◌, refl, ◌⊎◌, inl, inr, ℕ, zero, suc, ◌+◌, ◌-◌, ◌/◌, ◌^◌, List, [], ◌∷◌, ◌++◌, Option, none,
  some, Bytes, codes, bytes_eq, Bool, true, false, ◌&&◌, ◌||◌, leb, ◌==◌, if◌then◌else◌, length, ℤ,
  pos, negsuc,
}
use cache_x.Decimal.{print_ℕ, print_ℤ, read_magnitude, negated}
use cache_x.Cache.{EntrySnapshot}

pub record Record : Type 0 where
  pub key : Bytes
  pub value : Bytes
  pub ttl_ms : ℤ

abbrev pub magic : Bytes
magic = codes "CACHEX-SNAPSHOT"

abbrev pub version : ℕ
version = 1

abbrev pub min_record_bytes : ℕ
min_record_bytes = 7

-- Writing. An entry that never expires has -1 for its time to live.
abbrev pub ttl_field : Option ℕ → ℤ
ttl_field none = negsuc 0
ttl_field (some ms) = pos ms

unfoldable pub render_entry : EntrySnapshot → Bytes
render_entry e =
    print_ℕ (length e.key)
    ++ (b' '
        ∷ (print_ℕ (length e.value)
            ++ (b' '
                ∷ (print_ℤ (ttl_field e.remaining_ttl) ++ (10 ∷ (e.key ++ (e.value ++ 10 ∷ [])))))))

unfoldable pub render_entries : List EntrySnapshot → Bytes
render_entries [] = []
render_entries (e ∷ es) = render_entry e ++ render_entries es

unfoldable pub render : ℕ → List EntrySnapshot → Bytes
render wall_clock entries =
    magic
    ++ (b' '
        ∷ (print_ℕ version
            ++ (b' '
                ∷ (print_ℕ wall_clock
                    ++ (10 ∷ (print_ℕ (length entries) ++ (10 ∷ render_entries entries)))))))

-- Reading.
unfoldable pub is_space : ℕ → Bool
is_space c = c == b' ' || (leb 9 c && leb c 13)

unfoldable pub skip_spaces : Bytes → Bytes
unfolding is_space
skip_spaces [] = []
skip_spaces (c ∷ cs) = if is_space c then skip_spaces cs else c ∷ cs

unfoldable pub split_word : Bytes → Bytes × Bytes
unfolding is_space
split_word [] = ([], [])
split_word (c ∷ cs) =
    let (word, rest) = split_word cs in if is_space c then ([], c ∷ cs) else (c ∷ word, rest)

-- `in >> text`
unfoldable pub read_word : Bytes → Option (Bytes × Bytes)
unfolding skip_spaces split_word
read_word input = elim (skip_spaces input) [ [] ↦ none | c ∷ cs ↦ some (split_word (c ∷ cs)) ]

-- `in >> number`, for a signed type with numbers below `limit`: an optional sign, and digits.
unfoldable pub read_signed : ℕ → Bytes → Option (ℤ × Bytes)
unfolding read_magnitude
read_signed limit [] = none
read_signed limit (c ∷ cs) =
    if c == b'-'
    then elim (read_magnitude (suc limit) cs) [
      | none ↦ none
      | some (n, rest) ↦ some (negated n, rest)
    ]
    else elim (read_magnitude limit (if c == b'+' then cs else c ∷ cs)) [
      | none ↦ none
      | some (n, rest) ↦ some (pos n, rest)
    ]

unfoldable pub read_integer : ℕ → Bytes → Option (ℤ × Bytes)
unfolding skip_spaces read_signed
read_integer limit input = read_signed limit (skip_spaces input)

abbrev pub int_limit : ℕ
int_limit = 2 ^ 31

abbrev pub long_limit : ℕ
long_limit = 2 ^ 63

-- `read_exact`
unfoldable pub read_exact : ℕ → Bytes → Option (Bytes × Bytes)
read_exact zero input = some ([], input)
read_exact (suc n) [] = none
read_exact (suc n) (c ∷ cs) = elim (read_exact n cs) [
  | none ↦ none
  | some (text, rest) ↦ some (c ∷ text, rest)
]

pub data LoadError : Type 0 where
  not_snapshot : LoadError
  unsupported_version : ℤ → LoadError
  invalid_count : LoadError
  count_exceeds_file : ℕ → LoadError
  truncated_header negative_length malformed_header length_exceeds_file : ℕ → LoadError
  truncated_payload length_mismatch : ℕ → LoadError

unfoldable pub message : LoadError → Bytes
message not_snapshot = codes "not a CacheX snapshot"
message (unsupported_version v) = codes "unsupported snapshot version " ++ print_ℤ v
message invalid_count = codes "missing or invalid entry count"
message (count_exceeds_file n) =
    codes "entry count " ++ print_ℕ n ++ codes " exceeds what the file can hold"
message (truncated_header i) = codes "truncated entry header at record " ++ print_ℕ i
message (negative_length i) = codes "negative length at record " ++ print_ℕ i
message (malformed_header i) = codes "malformed entry header at record " ++ print_ℕ i
message (length_exceeds_file i) = codes "length exceeds file size at record " ++ print_ℕ i
message (truncated_payload i) = codes "truncated payload at record " ++ print_ℕ i
message (length_mismatch i) = codes "payload length mismatch at record " ++ print_ℕ i

pub data Parsed {ℓ} (A : Type ℓ) : Type ℓ where
  parsed : A → Parsed A
  rejected : LoadError → Parsed A

pub Parsed-cases {ℓ} :
    {A : Type ℓ} (p : Parsed A) → ((a : A) × (p ≡ parsed a)) ⊎ ((e : LoadError) × (p ≡ rejected e))
Parsed-cases (parsed a) = inl (a, refl)
Parsed-cases (rejected e) = inr (e, refl)

infixl 5 ◌>>=◌ ◌>>◌
abbrev pub ◌>>=◌ {ℓ κ} : {A : Type ℓ} {B : Type κ} → Parsed A → (A → Parsed B) → Parsed B
parsed a >>= f = f a
rejected e >>= f = rejected e

abbrev pub ◌>>◌ {ℓ} : {B : Type ℓ} → Parsed (Unit {0}) → Parsed B → Parsed B
m >> k = m >>= λ _. k

-- What a failed read is reported as.
abbrev pub or_reject {ℓ} : {A : Type ℓ} → Option A → LoadError → Parsed A
or_reject none e = rejected e
or_reject (some a) e = parsed a

abbrev pub require : Bool → LoadError → Parsed (Unit {0})
require true e = parsed tt
require false e = rejected e

abbrev pub is_version : ℤ → Bool
is_version (pos v) = v == version
is_version (negsuc _) = false

abbrev pub nonnegative : ℤ → Option ℕ
nonnegative (pos n) = some n
nonnegative (negsuc _) = none

abbrev pub after_newline : Bytes → Option Bytes
after_newline [] = none
after_newline (c ∷ cs) = if c == 10 then some cs else none

unfoldable pub read_record : ℕ → ℕ → Bytes → Parsed (Record × Bytes)
read_record i file_bytes input = do
  (key_len, rest₁) ← or_reject (read_integer long_limit input) (truncated_header i)
  (value_len, rest₂) ← or_reject (read_integer long_limit rest₁) (truncated_header i)
  (ttl_ms, rest₃) ← or_reject (read_integer long_limit rest₂) (truncated_header i)
  k ← or_reject (nonnegative key_len) (negative_length i)
  v ← or_reject (nonnegative value_len) (negative_length i)
  rest₄ ← or_reject (after_newline rest₃) (malformed_header i)
  require (leb k file_bytes && leb v (file_bytes - k)) (length_exceeds_file i)
  (key, rest₅) ← or_reject (read_exact k rest₄) (truncated_payload i)
  (value, rest₆) ← or_reject (read_exact v rest₅) (truncated_payload i)
  rest₇ ← or_reject (after_newline rest₆) (length_mismatch i)
  parsed (record { key = key; value = value; ttl_ms = ttl_ms }, rest₇)

-- The loop over the records, from the one at `i` on.
unfoldable pub read_records : ℕ → ℕ → ℕ → Bytes → Parsed (List Record)
unfolding read_record
read_records zero i file_bytes input = parsed []
read_records (suc n) i file_bytes input = do
  (r, rest) ← read_record i file_bytes input
  rs ← read_records n (i + 1) file_bytes rest
  parsed (r ∷ rs)

unfoldable pub read_header : Bytes → Option (Bytes × ℤ × ℤ × Bytes)
read_header file = elim (read_word file) [
  | none ↦ none
  | some (word, rest₁) ↦ elim (read_integer int_limit rest₁) [
    | none ↦ none
    | some (v, rest₂) ↦ elim (read_integer long_limit rest₂) [
      | none ↦ none
      | some (saved_at, rest₃) ↦ some (word, v, saved_at, rest₃)
    ]
  ]
]

unfoldable pub read_count : Bytes → Option (ℕ × Bytes)
read_count input = elim (read_integer long_limit input) [
  | none ↦ none
  | some (pos n, rest) ↦ some (n, rest)
  | some (negsuc _, rest) ↦ none
]

-- Behind the count one byte is skipped, whatever it is. At the end of the file that `get` fails,
-- the position is then reported as -1, and `bytes_left` is one more than the size of the file.
abbrev pub bytes_left : ℕ → Bytes → ℕ
bytes_left file_bytes [] = file_bytes + 1
bytes_left file_bytes (_ ∷ rest) = length rest

abbrev pub skip_byte : Bytes → Bytes
skip_byte [] = []
skip_byte (_ ∷ rest) = rest

-- The first line, checked: the clock of the save, and what follows.
unfoldable pub parse_head : Bytes → Parsed (ℤ × Bytes)
unfolding bytes_eq
parse_head file = do
  (word, v, saved_at, rest) ← or_reject (read_header file) not_snapshot
  require (bytes_eq word magic) not_snapshot
  require (is_version v) (unsupported_version v)
  parsed (saved_at, rest)

unfoldable pub parse_body : ℕ → Bytes → Parsed (List Record)
parse_body file_bytes input = do
  (count, rest) ← or_reject (read_count input) invalid_count
  require (leb count (bytes_left file_bytes rest / min_record_bytes)) (count_exceeds_file count)
  read_records count 0 file_bytes (skip_byte rest)

-- Both of them: all that is read of a file.
unfoldable pub parse_file : Bytes → Parsed (ℤ × List Record)
unfolding parse_head parse_body
parse_file file = do
  (saved_at, rest) ← parse_head file
  records ← parse_body (length file) rest
  parsed (saved_at, records)
