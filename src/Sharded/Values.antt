-- ===== src/Sharded/Values.antt =====
-- A property of all values that are stored, through the calls of the sharded cache.
use mathlib.Core.Path.{subst}
use cache_x.Base.{
  ℕ, zero, suc, ◌≡◌, sym, ◌∙◌, List, [], ◌∷◌, Option, none, some, Bytes, arith, Option-cases,
  Bool-cases, inl, inr, bind-some, get_elem?, set as write,
}
use cache_x.Recency.Order.{lookup}
use cache_x.Cache.{Cache, is_expired}
use cache_x.Cache.Model.{Lru, read, value_of, model_step}
use cache_x.Cache.Valid.{view}
use cache_x.Cache.Op
use cache_x.Cache.Op.{Op, Reply}
use cache_x.Cache.Keys.{AllEntries, Adds, lookup-AllEntries, model_step-AllEntries, step-view}
use cache_x.Sharded.{ShardedCache, shard_index_for}
use cache_x.Sharded.Op.{step, key_of}
use cache_x.Sharded.Shards.{AllValid, AllValid-get, AllValid-set, step-on_shard}

module _ (V : Bytes → Type 0) where
  abbrev pub Held : Bytes → Bytes → Type 0
  Held _ v = V v

  abbrev pub AllValues : List Cache → Type 0
  AllValues [] = Unit {0}
  AllValues (c ∷ cs) = AllEntries Held (view c).items × AllValues cs

  -- Valid shards that hold such values only.
  abbrev pub Holds : ShardedCache → Type 0
  Holds s = AllValid s.shards × AllValues s.shards

  abbrev pub Found : Option Bytes → Type 0
  Found none = Unit {0}
  Found (some v) = V v

  abbrev pub Replies : Reply → Type 0
  Replies (Reply.value found) = Found found
  Replies _ = Unit {0}

  AllValues-get :
      (cs : List Cache) (i : ℕ) (c : Cache)
      → AllValues cs
      → get_elem? cs i ≡ some c
      → AllEntries Held (view c).items
  AllValues-get [] i c h at = absurd (ground arith)
  AllValues-get (d ∷ cs) zero c h at = let same : d ≡ c = ground arith in rw (← same) h.0
  AllValues-get (d ∷ cs) (suc i) c h at = AllValues-get cs i c h.1 at

  AllValues-set :
      (cs : List Cache) (i : ℕ) (c : Cache)
      → AllValues cs
      → AllEntries Held (view c).items
      → AllValues (write cs i c)
  AllValues-set [] i c h v = h
  AllValues-set (d ∷ cs) zero c h v = (v, h.1)
  AllValues-set (d ∷ cs) (suc i) c h v = (h.0, AllValues-set cs i c h.1 v)

  Found-none : (found : Option Bytes) → found ≡ none → Found found
  Found-none found e = subst Found (sym e) tt

  model_step-Replies :
      (now : ℕ) (op : Op) (s : Lru) → AllEntries Held s.items → Replies (model_step now op s).1
  unfolding model_step read
  model_step-Replies now (Op.get k) s h = elim (Option-cases (lookup k s.items)) [
    | inl absent ↦ Found-none (value_of (read now k s).1) (ground (arith, absent))
    | inr (e, found) ↦ elim (Bool-cases (is_expired now e)) [
      | inl old ↦ Found-none (value_of (read now k s).1) (ground (arith, found, old))
      | inr new ↦
          let same : value_of (read now k s).1 ≡ some e.value = ground (arith, found, new) in
          subst Found (sym same) (lookup-AllEntries Held k e s.items h found)
    ]
  ]
  model_step-Replies now _ s h = tt

  pub step-Holds :
      (std_hash : Bytes → ℕ) (now : ℕ) (op : Op) (k : Bytes) (s s' : ShardedCache) (r : Reply)
      → key_of op ≡ some k
      → Adds Held op
      → Holds s
      → step std_hash now op s ≡ some (s', r)
      → Holds s' × Replies r
  step-Holds std_hash now op k s s' r e adds h done =
      let j = shard_index_for std_hash k s in
      let (c, at, chain) =
        bind-some (get_elem? s.shards j) _ (sym (step-on_shard std_hash now op k s e) ∙ done) in
      let ((c', r'), ran, rest) = bind-some (Op.step now op c) _ chain in
      let held = AllValues-get s.shards j c h.1 at in
      let (same, told, valid) = step-view now op c c' r' (AllValid-get s.shards j c h.0 at) ran in
      let shards : write s.shards j c' ≡ s'.shards = ground (arith, rest) in
      let reply : (model_step now op (view c)).1 ≡ r = ground (arith, rest, told) in
      let kept : AllEntries Held (view c').items =
        subst (λ (l : Lru). AllEntries Held l.items) (sym same)
          (model_step-AllEntries Held now op (view c) adds held) in
      (
        (
          rw (← shards) (AllValid-set s.shards j c' h.0 valid),
          rw (← shards) (AllValues-set s.shards j c' h.1 kept),
        ),
        subst Replies reply (model_step-Replies now op (view c) held),
      )
