-- ===== src/Cache/Keys.antt =====
-- What a call does to the entries and to the capacity of the cache, whatever the call.
use mathlib.Core.Path.{subst}
use cache_x.Base.{
  ℕ, zero, suc, ◌+◌, ◌*◌, ◌^◌, ◌≡◌, refl, sym, List, [], ◌∷◌, none, some, Bytes, pos, negsuc, arith,
  leb, ltb, length, take, Option-cases, Bool-cases, bytes_eq, inl, inr,
}
use cache_x.Recency.{Entry}
use cache_x.Recency.Order.{lookup, without}
use cache_x.Cache.{Cache, is_expired, set_ttl, deadline}
use cache_x.Cache.Op.{Op, Reply, step}
use cache_x.Cache.Model.{
  Lru, push, put, put_ttl, drop_key, expire, discard, read, query, wipe, model_step,
}
use cache_x.Cache.Valid.{IsValid, view}
use cache_x.Cache.Reads.{erase-Implements}
use cache_x.Cache.Recent.{view_of}
use cache_x.Cache.Run.{step-Implements}

-- Every key with its value has a property.
abbrev pub AllEntries : (Bytes → Bytes → Type 0) → List Entry → Type 0
AllEntries P [] = Unit {0}
AllEntries P (e ∷ es) = P e.key e.value × AllEntries P es

abbrev pub AllKeys : (Bytes → Type 0) → List Entry → Type 0
AllKeys P = AllEntries (λ k _. P k)

module _ (P : Bytes → Bytes → Type 0) where
  without-AllEntries : (k : Bytes) (es : List Entry) → AllEntries P es → AllEntries P (without k es)
  unfolding without
  without-AllEntries k [] h = tt
  without-AllEntries k (e ∷ es) h = elim (Bool-cases (bytes_eq e.key k)) [
    | inl here ↦ rw here h.1
    | inr there ↦ rw there (h.0, without-AllEntries k es h.1)
  ]

  take-AllEntries : (n : ℕ) (es : List Entry) → AllEntries P es → AllEntries P (take n es)
  take-AllEntries zero es h = tt
  take-AllEntries (suc n) [] h = tt
  take-AllEntries (suc n) (e ∷ es) h = (h.0, take-AllEntries n es h.1)

  pub lookup-AllEntries :
      (k : Bytes) (e : Entry) (es : List Entry)
      → AllEntries P es
      → lookup k es ≡ some e
      → P e.key e.value
  unfolding lookup
  lookup-AllEntries k e [] h found = absurd (ground arith)
  lookup-AllEntries k e (d ∷ es) h found = elim (Bool-cases (bytes_eq d.key k)) [
    | inl here ↦ let same : d ≡ e = ground (arith, here, found) in rw (← same) h.0
    | inr there ↦ lookup-AllEntries k e es h.1 (ground (arith, there, found))
  ]

  same-AllEntries : (xs ys : List Entry) → xs ≡ ys → AllEntries P ys → AllEntries P xs
  same-AllEntries xs ys e h = subst (AllEntries P) (sym e) h

  put-AllEntries :
      (e : Entry) (s : Lru) → P e.key e.value → AllEntries P s.items → AllEntries P (put e s).items
  unfolding put push
  put-AllEntries e s p h = elim (Option-cases (lookup e.key s.items)) [
    | inr (d, found) ↦
        same-AllEntries (put e s).items (e ∷ without e.key s.items) (ground (arith, found))
          (p, without-AllEntries e.key s.items h)
    | inl absent ↦ elim (Option-cases s.capacity) [
      | inl c ↦ same-AllEntries (put e s).items (e ∷ s.items) (ground (arith, absent, c)) (p, h)
      | inr (n, c) ↦ elim (Bool-cases (leb (suc (length s.items)) n)) [
        | inl room ↦
            same-AllEntries (put e s).items (e ∷ s.items) (ground (arith, absent, c, room)) (p, h)
        | inr full ↦
            same-AllEntries (put e s).items (take n (e ∷ s.items)) (ground (arith, absent, c, full))
              (take-AllEntries n (e ∷ s.items) (p, h))
      ]
    ]
  ]

  discard-AllEntries :
      (now : ℕ) (k : Bytes) (s : Lru)
      → AllEntries P s.items
      → AllEntries P (discard now k s).0.items
  unfolding discard drop_key expire
  discard-AllEntries now k s h = elim (Option-cases (lookup k s.items)) [
    | inl absent ↦ same-AllEntries (discard now k s).0.items (s.items) (ground (arith, absent)) h
    | inr (e, found) ↦ elim (Bool-cases (is_expired now e)) [
      | inl old ↦
          same-AllEntries (discard now k s).0.items (without k s.items) (ground (arith, found, old))
            (without-AllEntries k s.items h)
      | inr new ↦
          same-AllEntries (discard now k s).0.items (without k s.items) (ground (arith, found, new))
            (without-AllEntries k s.items h)
    ]
  ]

  read-AllEntries :
      (now : ℕ) (k : Bytes) (s : Lru) → AllEntries P s.items → AllEntries P (read now k s).0.items
  unfolding read expire
  read-AllEntries now k s h = elim (Option-cases (lookup k s.items)) [
    | inl absent ↦ same-AllEntries (read now k s).0.items (s.items) (ground (arith, absent)) h
    | inr (e, found) ↦ elim (Bool-cases (is_expired now e)) [
      | inl old ↦
          same-AllEntries (read now k s).0.items (without k s.items) (ground (arith, found, old))
            (without-AllEntries k s.items h)
      | inr new ↦
          same-AllEntries (read now k s).0.items (e ∷ without k s.items)
            (ground (arith, found, new))
            (lookup-AllEntries k e s.items h found, without-AllEntries k s.items h)
    ]
  ]

  query-AllEntries :
      (now : ℕ) (k : Bytes) (s : Lru) → AllEntries P s.items → AllEntries P (query now k s).0.items
  unfolding query expire
  query-AllEntries now k s h = elim (Option-cases (lookup k s.items)) [
    | inl absent ↦ same-AllEntries (query now k s).0.items (s.items) (ground (arith, absent)) h
    | inr (e, found) ↦ elim (Bool-cases (is_expired now e)) [
      | inl old ↦
          same-AllEntries (query now k s).0.items (without k s.items) (ground (arith, found, old))
            (without-AllEntries k s.items h)
      | inr new ↦ same-AllEntries (query now k s).0.items (s.items) (ground (arith, found, new)) h
    ]
  ]

  -- The key and the value that a call may add.
  abbrev pub Adds : Op → Type 0
  Adds (Op.set k v) = P k v
  Adds (Op.set_ttl k v t) = P k v
  Adds _ = Unit {0}

  pub model_step-AllEntries :
      (now : ℕ) (op : Op) (s : Lru)
      → Adds op
      → AllEntries P s.items
      → AllEntries P (model_step now op s).0.items
  unfolding model_step put_ttl wipe
  model_step-AllEntries now (Op.set k v) s p h =
      put-AllEntries (record { key = k; value = v; expires_at = none }) s p h
  model_step-AllEntries now (Op.set_ttl k v (pos zero)) s p h = discard-AllEntries now k s h
  model_step-AllEntries now (Op.set_ttl k v (negsuc _)) s p h = discard-AllEntries now k s h
  model_step-AllEntries now (Op.set_ttl k v (pos (suc n))) s p h =
      put-AllEntries (record { key = k; value = v; expires_at = some (now + suc n * 1000000) }) s p
        h
  model_step-AllEntries now (Op.get k) s p h = read-AllEntries now k s h
  model_step-AllEntries now (Op.get_into k out) s p h = read-AllEntries now k s h
  model_step-AllEntries now (Op.erase k) s p h = discard-AllEntries now k s h
  model_step-AllEntries now (Op.contains k) s p h = h
  model_step-AllEntries now (Op.ttl k) s p h = query-AllEntries now k s h
  model_step-AllEntries now Op.clear s p h = tt

pub model_step-capacity :
    (now : ℕ) (op : Op) (s : Lru) → (model_step now op s).0.capacity ≡ s.capacity
unfolding model_step put_ttl wipe put push discard drop_key expire read query
model_step-capacity now (Op.set k v) s = ground arith
model_step-capacity now (Op.set_ttl k v (pos zero)) s = ground arith
model_step-capacity now (Op.set_ttl k v (negsuc _)) s = ground arith
model_step-capacity now (Op.set_ttl k v (pos (suc n))) s = ground arith
model_step-capacity now (Op.get k) s = ground arith
model_step-capacity now (Op.get_into k out) s = ground arith
model_step-capacity now (Op.erase k) s = ground arith
model_step-capacity now (Op.contains k) s = refl
model_step-capacity now (Op.ttl k) s = ground arith
model_step-capacity now Op.clear s = refl

-- A call that has a result keeps the cache valid and does what the list does.
pub step-view :
    (now : ℕ) (op : Op) (c c' : Cache) (r : Reply)
    → IsValid c
    → step now op c ≡ some (c', r)
    → (view c' ≡ (model_step now op (view c)).0) × (r ≡ (model_step now op (view c)).1) × IsValid c'
unfolding model_step step set_ttl put_ttl deadline
step-view now (Op.set k v) c c' r h done =
    view_of (step-Implements now (Op.set k v) c tt h) c' r done
step-view now (Op.set_ttl k v (pos zero)) c c' r h done =
    let i = erase-Implements now k c h in
    let same : i.cache ≡ c' = ground (arith, i.defined, done) in
    (rw (← same) i.same, ground (arith, i.defined, done), rw (← same) i.valid)
step-view now (Op.set_ttl k v (negsuc n)) c c' r h done =
    let i = erase-Implements now k c h in
    let same : i.cache ≡ c' = ground (arith, i.defined, done) in
    (rw (← same) i.same, ground (arith, i.defined, done), rw (← same) i.valid)
step-view now (Op.set_ttl k v (pos (suc n))) c c' r h done =
    elim (Bool-cases (ltb (now + suc n * 1000000) (2 ^ 63))) [
      | inr over ↦ absurd (ground (arith, over, done))
      | inl fits ↦
          view_of (step-Implements now (Op.set_ttl k v (pos (suc n))) c (ground (arith, fits)) h) c'
            r done
    ]
step-view now (Op.get k) c c' r h done = view_of (step-Implements now (Op.get k) c tt h) c' r done
step-view now (Op.get_into k out) c c' r h done =
    view_of (step-Implements now (Op.get_into k out) c tt h) c' r done
step-view now (Op.erase k) c c' r h done =
    view_of (step-Implements now (Op.erase k) c tt h) c' r done
step-view now (Op.contains k) c c' r h done =
    view_of (step-Implements now (Op.contains k) c tt h) c' r done
step-view now (Op.ttl k) c c' r h done = view_of (step-Implements now (Op.ttl k) c tt h) c' r done
step-view now Op.clear c c' r h done = view_of (step-Implements now Op.clear c tt h) c' r done
