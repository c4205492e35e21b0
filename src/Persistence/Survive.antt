-- ===== src/Persistence/Survive.antt =====
-- A replay of the entries of one cache into an empty one, seen as a list.
use mathlib.Core.List.{reverse-cons}
use mathlib.Core.Path.{subst}
use cache_x.Base.{
  ℕ, zero, suc, ◌+◌, ◌-◌, ◌*◌, ◌≤◌, ◌<◌, ◌≡◌, refl, ap, sym, ◌∙◌, List, [], ◌∷◌, ◌++◌, map, reverse,
  Option, none, some, Bytes, bytes_eq, false, if◌then◌else◌, ltb, leb, length, length-map, pos,
  arith, Option-cases, Bool-cases, inl, inr,
}
use cache_x.Recency.{Entry}
use cache_x.Recency.Order.{lookup}
use cache_x.Cache.{EntrySnapshot, export_list}
use cache_x.Cache.Op.{Op}
use cache_x.Cache.Model.{Lru, push, put, put_ttl, model_step, model_run}
use cache_x.Cache.Valid.{Within}
use cache_x.Cache.Entries.{EntriesDistinct}
use cache_x.Persistence.Load.{replay_ops}

-- What is left of a snapshot after a time: the entries that never expire, and those that live longer.
unfoldable pub surviving : ℕ → List EntrySnapshot → List EntrySnapshot
surviving elapsed [] = []
surviving elapsed (e ∷ es) =
    let rest = surviving elapsed es in
    elim e.remaining_ttl [ none ↦ e ∷ rest | some ttl ↦ if ltb elapsed ttl then e ∷ rest else rest ]

-- The keys with their values, in order.
abbrev pub bindings : List Entry → List (Bytes × Bytes)
bindings = map (λ e. (e.key, e.value))

abbrev pub bindings_of : List EntrySnapshot → List (Bytes × Bytes)
bindings_of = map (λ e. (e.key, e.value))

abbrev pub Absent : Bytes → List (Bytes × Bytes) → Type 0
Absent k [] = Unit {0}
Absent k (b ∷ bs) = (bytes_eq b.0 k ≡ false) × Absent k bs

abbrev pub Distinct : List EntrySnapshot → Type 0
Distinct [] = Unit {0}
Distinct (e ∷ es) = Absent e.key (bindings_of es) × Distinct es

lookup-Absent : (k : Bytes) (es : List Entry) → Absent k (bindings es) → lookup k es ≡ none
unfolding lookup
lookup-Absent k [] h = refl
lookup-Absent k (e ∷ es) h = rw h.0 (lookup-Absent k es h.1)

Absent-surviving :
    (k : Bytes) (elapsed : ℕ) (es : List EntrySnapshot)
    → Absent k (bindings_of es)
    → Absent k (bindings_of (surviving elapsed es))
unfolding surviving
Absent-surviving k elapsed [] h = tt
Absent-surviving k elapsed (e ∷ es) h = elim (Option-cases e.remaining_ttl) [
  | inl n ↦ rw n (h.0, Absent-surviving k elapsed es h.1)
  | inr (ttl, n) ↦ elim (Bool-cases (ltb elapsed ttl)) [
    | inl live ↦ rw (n, live) (h.0, Absent-surviving k elapsed es h.1)
    | inr dead ↦ rw (n, dead) (Absent-surviving k elapsed es h.1)
  ]
]

length-surviving :
    (elapsed : ℕ) (es : List EntrySnapshot) → length (surviving elapsed es) ≤ length es
unfolding surviving
length-surviving elapsed [] = omega arith
length-surviving elapsed (e ∷ es) = ground (arith, length-surviving elapsed es)

-- The entries that a save takes have distinct keys, and there are no more of them.
Absent-export_list :
    (k : Bytes) (now : ℕ) (es : List Entry)
    → lookup k es ≡ none
    → Absent k (bindings_of (export_list now es))
unfolding export_list lookup
Absent-export_list k now [] h = tt
Absent-export_list k now (e ∷ es) h = elim (Bool-cases (bytes_eq e.key k)) [
  | inl here ↦ absurd (ground (arith, here, h))
  | inr other ↦
      let rest = Absent-export_list k now es (ground (arith, other, h)) in
      elim (Option-cases e.expires_at) [
        | inl n ↦ rw n (other, rest)
        | inr (t, n) ↦ elim (Bool-cases (leb t now)) [
          | inl dead ↦ rw (n, dead) rest
          | inr live ↦ rw (n, live) (other, rest)
        ]
      ]
]

pub export_list-Distinct :
    (now : ℕ) (es : List Entry) → EntriesDistinct es → Distinct (export_list now es)
unfolding export_list
export_list-Distinct now [] d = tt
export_list-Distinct now (e ∷ es) d =
    let first = Absent-export_list e.key now es d.0 in
    let rest = export_list-Distinct now es d.1 in
    elim (Option-cases e.expires_at) [
      | inl n ↦ rw n (first, rest)
      | inr (t, n) ↦ elim (Bool-cases (leb t now)) [
        | inl dead ↦ rw (n, dead) rest
        | inr live ↦ rw (n, live) (first, rest)
      ]
    ]

pub length-export_list : (now : ℕ) (es : List Entry) → length (export_list now es) ≤ length es
unfolding export_list
length-export_list now [] = omega arith
length-export_list now (e ∷ es) = ground (arith, length-export_list now es)

pub replay_ops-append :
    (clock : ℕ → ℕ) (i elapsed : ℕ) (xs ys : List EntrySnapshot)
    → replay_ops clock i elapsed (xs ++ ys)
      ≡ replay_ops clock i elapsed xs ++ replay_ops clock (length xs + i) elapsed ys
unfolding replay_ops
replay_ops-append clock i elapsed [] ys = ap (λ j. replay_ops clock j elapsed ys) (omega arith)
replay_ops-append clock i elapsed (x ∷ xs) ys =
    let ih = replay_ops-append clock (i + 1) elapsed xs ys in
    let at : length xs + (i + 1) ≡ suc (length xs) + i = omega arith in ground (arith, ih, at)

model_run-append :
    (xs ys : List (ℕ × Op)) (s : Lru)
    → (model_run (xs ++ ys) s).0 ≡ (model_run ys (model_run xs s).0).0
unfolding model_run
model_run-append [] ys s = refl
model_run-append ((now, op) ∷ xs) ys s = model_run-append xs ys (model_step now op s).0

items-put_absent :
    (e : Entry) (s : Lru)
    → lookup e.key s.items ≡ none
    → Within s.capacity (suc (length s.items))
    → ((put e s).items ≡ e ∷ s.items) × ((put e s).capacity ≡ s.capacity)
unfolding put push
items-put_absent e s absent room = elim (Option-cases s.capacity) [
  | inl c ↦ (ground (arith, absent, c), ground (arith, absent, c))
  | inr (n, c) ↦
      let fits : suc (length s.items) ≤ n = rw c at room in
      (ground (arith, absent, c, fits), ground (arith, absent, c, fits))
]

put_ttl-put :
    (now : ℕ) (k v : Bytes) (t : ℕ) (s : Lru)
    → 0 < t
    → put_ttl now k v (pos t) s
      ≡ put (record { key = k; value = v; expires_at = some (now + t * 1000000) }) s
unfolding put_ttl
put_ttl-put now k v zero s h = absurd (omega arith)
put_ttl-put now k v (suc t) s h = refl

-- What a replay of one entry does to a list that does not have its key.
replay_one :
    (clock : ℕ → ℕ) (i elapsed : ℕ) (e : EntrySnapshot) (s : Lru)
    → Absent e.key (bindings s.items)
    → Within s.capacity (suc (length s.items))
    → (bindings (model_run (replay_ops clock i elapsed (e ∷ [])) s).0.items
        ≡ bindings_of (surviving elapsed (e ∷ [])) ++ bindings s.items)
      × ((model_run (replay_ops clock i elapsed (e ∷ [])) s).0.capacity ≡ s.capacity)
unfolding replay_ops model_run model_step surviving
replay_one clock i elapsed e s absent room =
    let none_there = lookup-Absent e.key s.items absent in
    elim (Option-cases e.remaining_ttl) [
      | inl n ↦
          let (items, capacity) =
            items-put_absent (record { key = e.key; value = e.value; expires_at = none }) s
              none_there room in
          (ground (arith, n, items), ground (arith, n, capacity))
      | inr (ttl, n) ↦ elim (Bool-cases (ltb elapsed ttl)) [
        | inr dead ↦ (ground (arith, n, dead), ground (arith, n, dead))
        | inl live ↦
            let (items, capacity) =
              items-put_absent
                (record {
                  key = e.key;
                  value = e.value;
                  expires_at = some (clock i + (ttl - elapsed) * 1000000);
                })
                s none_there room in
            let put =
              put_ttl-put (clock i) e.key e.value (ttl - elapsed) s (ground (arith, live)) in
            (ground (arith, n, live, put, items), ground (arith, n, live, put, capacity))
      ]
    ]

pub Within-le : (cap : Option ℕ) (m n : ℕ) → m ≤ n → Within cap n → Within cap m
Within-le none m n le w = tt
Within-le (some c) m n le w = omega arith

surviving-cons :
    (elapsed : ℕ) (e : EntrySnapshot) (es : List EntrySnapshot)
    → surviving elapsed (e ∷ es) ≡ surviving elapsed (e ∷ []) ++ surviving elapsed es
unfolding surviving
surviving-cons elapsed e es = ground arith

map-append-bindings :
    (xs ys : List EntrySnapshot) → bindings_of (xs ++ ys) ≡ bindings_of xs ++ bindings_of ys
map-append-bindings [] ys = refl
map-append-bindings (x ∷ xs) ys = ap (◌∷◌ (x.key, x.value)) (map-append-bindings xs ys)

length-bindings :
    (es : List Entry) (bs : List (Bytes × Bytes)) → bindings es ≡ bs → length es ≡ length bs
length-bindings es bs h = sym (length-map (λ (e : Entry). (e.key, e.value)) es) ∙ ap length h

-- A replay from the last entry to the first leaves what survives, in the order of the snapshot.
pub replay-surviving :
    (clock : ℕ → ℕ) (i elapsed : ℕ) (es : List EntrySnapshot) (s : Lru)
    → Distinct es
    → s.items ≡ []
    → Within s.capacity (length es)
    → (bindings (model_run (replay_ops clock i elapsed (reverse es)) s).0.items
        ≡ bindings_of (surviving elapsed es))
      × ((model_run (replay_ops clock i elapsed (reverse es)) s).0.capacity ≡ s.capacity)
unfolding replay_ops model_run surviving
replay-surviving clock i elapsed [] s d empty room = (ap bindings empty, refl)
replay-surviving clock i elapsed (e ∷ es) s d empty room =
    let before = replay_ops clock i elapsed (reverse es) in
    let at = length (reverse es) + i in
    let t = (model_run before s).0 in
    let (items, capacity) =
      replay-surviving clock i elapsed es s d.1 empty
        (Within-le s.capacity (length es) (suc (length es)) (omega arith) room) in
    let few : suc (length t.items) ≤ suc (length es) = omega (
      arith,
      length-bindings t.items (bindings_of (surviving elapsed es)) items,
      length-map {B = Bytes × Bytes} (λ (x : EntrySnapshot). (x.key, x.value))
          (surviving elapsed es),
      length-surviving elapsed es,
    ) in
    let room' : Within t.capacity (suc (length t.items)) =
      subst (λ cap. Within cap (suc (length t.items))) (sym capacity)
        (Within-le s.capacity (suc (length t.items)) (suc (length es)) few room) in
    let absent : Absent e.key (bindings t.items) =
      subst (Absent e.key) (sym items) (Absent-surviving e.key elapsed es d.0) in
    let (items', capacity') = replay_one clock at elapsed e t absent room' in
    let ran =
      ap (λ xs. (model_run (replay_ops clock i elapsed xs) s).0) (reverse-cons e es)
      ∙ ap (λ xs. (model_run xs s).0) (replay_ops-append clock i elapsed (reverse es) (e ∷ []))
      ∙ model_run-append before (replay_ops clock at elapsed (e ∷ [])) s in
    (
      ap (λ (l : Lru). bindings l.items) ran
          ∙ items'
          ∙ ap (λ bs. bindings_of (surviving elapsed (e ∷ [])) ++ bs) items
          ∙ sym (map-append-bindings (surviving elapsed (e ∷ [])) (surviving elapsed es))
          ∙ ap bindings_of (sym (surviving-cons elapsed e es)),
      ap (λ (l : Lru). l.capacity) ran ∙ capacity' ∙ capacity,
    )
