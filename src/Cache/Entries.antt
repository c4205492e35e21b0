-- ===== src/Cache/Entries.antt =====
-- Laws of lists of entries with distinct keys, and what a reader sees after `put`.
use mathlib.Core.Logic.{◌≢◌}
use cache_x.Base.{
  ℕ, zero, suc, ◌≡◌, refl, ap, List, [], ◌∷◌, map, Option, none, some, Bytes, bytes_eq,
  bytes_eq_iff, bytes_eq_refl, if◌then◌else◌, length, take, arith, take_self, Option-cases, inl,
  inr,
}
use cache_x.Recency.{Entry, Node, entries}
use cache_x.Recency.Laws.{KeysDistinct, lookup-locate-none}
use cache_x.Recency.Order.{lookup, without}
use cache_x.Cache.Model.{Lru, push, put}
use cache_x.Cache.Trim.{fit}
use cache_x.Cache.Valid.{Within}

abbrev pub EntriesDistinct : List Entry → Type 0
EntriesDistinct [] = Unit
EntriesDistinct (e ∷ es) = (lookup e.key es ≡ none) × EntriesDistinct es

pub entries-EntriesDistinct : (ns : List Node) → KeysDistinct ns → EntriesDistinct (entries ns)
unfolding entries
entries-EntriesDistinct [] u = tt
entries-EntriesDistinct (n ∷ ns) u =
    (lookup-locate-none n.entry.key ns u.0, entries-EntriesDistinct ns u.1)

abbrev pub keys_of : List Entry → List Bytes
keys_of = map (λ e. e.key)

-- A list of keys without the first `k`.
unfoldable pub remove_key : Bytes → List Bytes → List Bytes
remove_key k [] = []
remove_key k (j ∷ js) = let rest = remove_key k js in if bytes_eq j k then js else j ∷ rest

pub keys-without :
    (k : Bytes) (es : List Entry) → keys_of (without k es) ≡ remove_key k (keys_of es)
unfolding without remove_key
keys-without k [] = refl
keys-without k (e ∷ es) = ground (arith, keys-without k es)

pub without_absent : (k : Bytes) (es : List Entry) → lookup k es ≡ none → without k es ≡ es
unfolding without lookup
without_absent k [] h = refl
without_absent k (e ∷ es) h = ground (arith, without_absent k es)

pub lookup-without :
    (k j : Bytes) (es : List Entry)
    → EntriesDistinct es
    → lookup j (without k es) ≡ (if bytes_eq k j then none else lookup j es)
unfolding lookup without
lookup-without k j [] d = ground arith
lookup-without k j (e ∷ es) d =
    ground (
      arith,
      bytes_eq_iff e.key k,
      bytes_eq_iff e.key j,
      bytes_eq_iff k j,
      lookup-without k j es d.1,
    )

pub length-without :
    (k : Bytes) (e : Entry) (es : List Entry)
    → lookup k es ≡ some e
    → suc (length (without k es)) ≡ length es
unfolding lookup without
length-without k e [] h = ground arith
length-without k e (f ∷ es) h = ground (arith, length-without k e es)

pub key-lookup : (k : Bytes) (e : Entry) (es : List Entry) → lookup k es ≡ some e → e.key ≡ k
unfolding lookup
key-lookup k e [] h = ground arith
key-lookup k e (f ∷ es) h = ground (arith, bytes_eq_iff f.key k, key-lookup k e es)

pub keys-take : (n : ℕ) (es : List Entry) → keys_of (take n es) ≡ take n (keys_of es)
keys-take zero es = refl
keys-take (suc n) [] = refl
keys-take (suc n) (e ∷ es) = ap (◌∷◌ e.key) (keys-take n es)

pub length-keys : (es : List Entry) → length (keys_of es) ≡ length es
length-keys [] = refl
length-keys (e ∷ es) = ap suc (length-keys es)

-- A `put` moves its entry to the front, and the capacity cuts the list at the back.
pub items-put :
    (e : Entry) (s : Lru) (cap : Option ℕ)
    → s.capacity ≡ cap
    → Within cap (length s.items)
    → (put e s).items ≡ fit cap (e ∷ without e.key s.items)
unfolding put push
items-put e s none c w = ground (arith, without_absent e.key s.items)
items-put e s (some n) c w = elim (Option-cases (lookup e.key s.items)) [
  | inl new ↦ ground (arith, new, without_absent e.key s.items, take_self n (e ∷ s.items))
  | inr (f, old) ↦
      ground
        (arith, old, length-without e.key f s.items old, take_self n (e ∷ without e.key s.items))
]

pub keys-fit : (cap : Option ℕ) (es : List Entry) → keys_of (fit cap es) ≡ fit cap (keys_of es)
keys-fit none es = refl
keys-fit (some n) es = keys-take n es

lookup-take_self :
    (n : ℕ) (e : Entry) (es : List Entry) → lookup e.key (take (suc n) (e ∷ es)) ≡ some e
unfolding lookup
lookup-take_self n e es = ground (arith, bytes_eq_refl e.key)

-- Unless nothing can be stored, what was put is found.
pub lookup-put_self :
    (e : Entry) (s : Lru)
    → Within s.capacity (length s.items)
    → s.capacity ≢ some 0
    → lookup e.key (put e s).items ≡ some e
lookup-put_self e s w room = go s.capacity refl
  where
    go : (cap : Option ℕ) → s.capacity ≡ cap → lookup e.key (put e s).items ≡ some e
    go none c =
        rw (items-put e s none c (rw c at w)) (unfold lookup in ground (arith, bytes_eq_refl e.key))
    go (some zero) c = absurd (room c)
    go (some (suc n)) c =
        rw (items-put e s (some (suc n)) c (rw c at w))
          (lookup-take_self n e (without e.key s.items))
