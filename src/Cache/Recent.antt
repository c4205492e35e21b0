-- ===== src/Cache/Recent.antt =====
-- The recency order that `Cache::keys_by_recency` shows, after each operation.
use cache_x.Base.{
  ℕ, ◌≡◌, refl, ap, sym, ◌∷◌, List, Bool-cases, true, false, Option, none, some, Bytes, length,
  arith, Option-cases, inl, inr,
}
use mathlib.Core.Path.{◌≡⟨◌⟩◌, ◌∎, subst}
use cache_x.Recency.{Entry, entries}
use cache_x.Recency.Order.{lookup, without}
use cache_x.Cache.{Cache, set, get, keys_by_recency, is_expired}
use cache_x.Cache.Model.{Lru, put, read, expire, value_of}
use cache_x.Cache.Trim.{fit}
use cache_x.Cache.Valid.{Within, IsValid, view, Implements}
use cache_x.Cache.Refine.{store-Implements, length-entries}
use cache_x.Cache.Reads.{get-Implements}
use cache_x.Cache.Entries.{keys_of, remove_key, keys-without, items-put, keys-fit, key-lookup}

-- The result of a defined operation is the one that implements the list.
pub view_of :
    {R : Type 0} {done : Option (Cache × R)} {s : Lru × R} (i : Implements done s) (c' : Cache)
    (r : R)
    → done ≡ some (c', r)
    → (view c' ≡ s.0) × (r ≡ s.1) × IsValid c'
view_of i c' r h =
    let e : i.cache ≡ c' = ground (arith, i.defined) in
    (rw (← e) i.same, ground (arith, i.defined), rw (← e) i.valid)

-- `set` moves its key to the front, and drops from the back what no longer fits.
pub keys_by_recency-set :
    (key value : Bytes) (c c' : Cache)
    → IsValid c
    → set key value c ≡ some c'
    → keys_by_recency c' ≡ fit c.capacity (key ∷ remove_key key (keys_by_recency c))
unfolding keys_by_recency set
keys_by_recency-set key value c c' h done =
    let e : Entry = record { key = key; value = value; expires_at = none } in
    let (same, _, _) = view_of (store-Implements key value none c h) c' tt (ground arith) in
    let w : Within c.capacity (length (entries c.list.nodes)) =
      rw (length-entries c.list.nodes) h.within in
    keys_of (entries c'.list.nodes)
    ≡⟨ ap (λ (s : Lru). keys_of s.items) same ⟩ keys_of (put e (view c)).items
    ≡⟨ ap keys_of (items-put e (view c) c.capacity refl w) ⟩
      keys_of (fit c.capacity (e ∷ without key (entries c.list.nodes)))
    ≡⟨ keys-fit c.capacity (e ∷ without key (entries c.list.nodes)) ⟩
      fit c.capacity (key ∷ keys_of (without key (entries c.list.nodes)))
    ≡⟨ ap (λ ks. fit c.capacity (key ∷ ks)) (keys-without key (entries c.list.nodes)) ⟩
      fit c.capacity (key ∷ remove_key key (keys_of (entries c.list.nodes))) ∎

-- What `get` may find and leave: the key is absent and all is as it was; its entry has expired and
-- is dropped; or its entry is live, is returned, and moves to the front.
pub data Looked (now : ℕ) (key : Bytes) (es : List Entry) (keys : List Bytes) (found : Option Bytes)
    : Type 0 where
  absent : lookup key es ≡ none → found ≡ none → keys ≡ keys_of es → Looked now key es keys found
  expired :
      (e : Entry)
      → lookup key es ≡ some e
      → is_expired now e ≡ true
      → found ≡ none
      → keys ≡ remove_key key (keys_of es)
      → Looked now key es keys found
  live :
      (e : Entry)
      → lookup key es ≡ some e
      → is_expired now e ≡ false
      → found ≡ some e.value
      → keys ≡ key ∷ remove_key key (keys_of es)
      → Looked now key es keys found

read-Looked :
    (now : ℕ) (k : Bytes) (s : Lru)
    → Looked now k s.items (keys_of (read now k s).0.items) (value_of (read now k s).1)
unfolding read expire
read-Looked now k s = elim (Option-cases (lookup k s.items)) [
  | inl none_there ↦ absent none_there (ground (arith, none_there)) (ground (arith, none_there))
  | inr (e, found) ↦ elim (Bool-cases (is_expired now e)) [
    | inl old ↦
        expired e found old (ground (arith, found, old))
          (ground (arith, found, old, keys-without k s.items))
    | inr new ↦
        live e found new (ground (arith, found, new))
          (ground (arith, found, new, keys-without k s.items, key-lookup k e s.items found))
  ]
]

-- `get` finds a value exactly if the key has an entry that has not expired: then the value is that of
-- the entry, and the key moves to the front. A miss leaves the keys as they were if the key is
-- absent, and drops it if its entry has expired.
pub keys_by_recency-get :
    (now : ℕ) (key : Bytes) (c c' : Cache) (found : Option Bytes)
    → IsValid c
    → get now key c ≡ some (c', found)
    → Looked now key (entries c.list.nodes) (keys_by_recency c') found
unfolding keys_by_recency
keys_by_recency-get now key c c' found h done =
    let (same, result, _) = view_of (get-Implements now key c h) c' found done in
    subst (λ (l : Lru). Looked now key (entries c.list.nodes) (keys_of l.items) found) (sym same)
      (subst (Looked now key (entries c.list.nodes) (keys_of (read now key (view c)).0.items))
        (sym result) (read-Looked now key (view c)))
