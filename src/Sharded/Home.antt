-- ===== src/Sharded/Home.antt =====
-- A key lives only in the shard that its hash chooses, and no call changes the capacities.
use mathlib.Core.Path.{subst}
use cache_x.Base.{
  ℕ, zero, suc, ◌+◌, ◌%◌, ◌≡◌, refl, ap, sym, ◌∙◌, List, [], ◌∷◌, map, Option, some, Bytes, length,
  get_elem?, set as write, length-map, arith, Option-cases, inl, inr,
}
use cache_x.Cache
use cache_x.Cache.{Cache}
use cache_x.Recency
use cache_x.Recency.{entries}
use cache_x.Cache.Model.{Lru}
use cache_x.Cache.Valid.{view}
use cache_x.Cache.Op
use cache_x.Cache.Op.{Op, Reply, set, set_ttl, get, get_into, erase, contains, ttl, clear}
use cache_x.Cache.Keys.{AllKeys, Adds, model_step-AllEntries, model_step-capacity, step-view}
use cache_x.Sharded
use cache_x.Sharded.{ShardedCache, shard_hash, shard_index_for}
use cache_x.Sharded.Op.{step, run, key_of}
use cache_x.Sharded.Shards.{AllValid, AllValid-get, AllValid-set, AllValid-clear, step-on_shard}

abbrev pub capacities : List Cache → List (Option ℕ)
capacities = map (λ c. c.capacity)

capacities-set :
    (cs : List Cache) (i : ℕ) (c c' : Cache)
    → get_elem? cs i ≡ some c
    → c'.capacity ≡ c.capacity
    → capacities (write cs i c') ≡ capacities cs
capacities-set [] i c c' at e = refl
capacities-set (d ∷ cs) zero c c' at e = let same : d ≡ c = ground arith in ground (arith, e, same)
capacities-set (d ∷ cs) (suc i) c c' at e = ap (◌∷◌ d.capacity) (capacities-set cs i c c' at e)

capacities-clear : (cs : List Cache) → capacities (map Cache.clear cs) ≡ capacities cs
unfolding Cache.clear
capacities-clear [] = refl
capacities-clear (c ∷ cs) = ap (◌∷◌ c.capacity) (capacities-clear cs)

module _ (std_hash : Bytes → ℕ) where
  -- The keys that belong to the shard at `i` of `n`.
  abbrev pub IsHome : ℕ → ℕ → Bytes → Type 0
  IsHome n i k = shard_hash std_hash k % n ≡ i

  -- The shards, the first of which is at `i`, hold only keys that belong there.
  abbrev pub KeysHome : ℕ → ℕ → List Cache → Type 0
  KeysHome n i [] = Unit {0}
  KeysHome n i (c ∷ cs) = AllKeys (IsHome n i) (view c).items × KeysHome n (suc i) cs

  -- What holds between the calls of a sharded cache with given capacities.
  pub record IsSettled (caps : List (Option ℕ)) (s : ShardedCache) : Type 0 where
    pub valid : AllValid s.shards
    pub home : KeysHome (length caps) 0 s.shards
    pub shape : capacities s.shards ≡ caps

  at_index :
      (n i j : ℕ) (c : Cache)
      → i ≡ j
      → AllKeys (IsHome n i) (view c).items
      → AllKeys (IsHome n j) (view c).items
  at_index n i j c e h = subst (λ m. AllKeys (IsHome n m) (view c).items) e h

  KeysHome-get :
      (n i : ℕ) (cs : List Cache) (j : ℕ) (c : Cache)
      → KeysHome n i cs
      → get_elem? cs j ≡ some c
      → AllKeys (IsHome n (j + i)) (view c).items
  KeysHome-get n i [] j c h at = absurd (ground arith)
  KeysHome-get n i (d ∷ cs) zero c h at =
      let same : d ≡ c = ground arith in at_index n i (0 + i) c (omega arith) (rw (← same) h.0)
  KeysHome-get n i (d ∷ cs) (suc j) c h at =
      at_index n (j + suc i) (suc j + i) c (omega arith) (KeysHome-get n (suc i) cs j c h.1 at)

  KeysHome-set :
      (n i : ℕ) (cs : List Cache) (j : ℕ) (c : Cache)
      → KeysHome n i cs
      → AllKeys (IsHome n (j + i)) (view c).items
      → KeysHome n i (write cs j c)
  KeysHome-set n i [] j c h k = tt
  KeysHome-set n i (d ∷ cs) zero c h k = (at_index n (0 + i) i c (omega arith) k, h.1)
  KeysHome-set n i (d ∷ cs) (suc j) c h k = (
    h.0,
    KeysHome-set n (suc i) cs j c h.1 (at_index n (suc j + i) (j + suc i) c (omega arith) k),
  )

  KeysHome-clear : (n i : ℕ) (cs : List Cache) → KeysHome n i (map Cache.clear cs)
  unfolding Cache.clear Recency.clear entries
  KeysHome-clear n i [] = tt
  KeysHome-clear n i (c ∷ cs) = (tt, KeysHome-clear n (suc i) cs)

  -- A call with a key adds that key at most, in its own shard.
  Adds-IsHome :
      (op : Op) (k : Bytes) (s : ShardedCache)
      → key_of op ≡ some k
      → Adds (λ a _. IsHome (length s.shards) (shard_index_for std_hash k s) a) op
  unfolding shard_index_for
  Adds-IsHome (set j v) k s e = ground arith
  Adds-IsHome (set_ttl j v t) k s e = ground arith
  Adds-IsHome (get j) k s e = tt
  Adds-IsHome (get_into j out) k s e = tt
  Adds-IsHome (erase j) k s e = tt
  Adds-IsHome (contains j) k s e = tt
  Adds-IsHome (ttl j) k s e = tt
  Adds-IsHome clear k s e = tt

  step_keyed-IsSettled :
      (now : ℕ) (op : Op) (k : Bytes) (caps : List (Option ℕ)) (s s' : ShardedCache) (r : Reply)
      → key_of op ≡ some k
      → IsSettled caps s
      → step std_hash now op s ≡ some (s', r)
      → IsSettled caps s'
  step_keyed-IsSettled now op k caps s s' r e h done =
      let j = shard_index_for std_hash k s in
      let on = step-on_shard std_hash now op k s e in
      let count : length s.shards ≡ length caps =
        sym (length-map (λ (c : Cache). c.capacity) s.shards) ∙ ap length h.shape in
      elim (Option-cases (get_elem? s.shards j)) [
        | inl out ↦ absurd (ground (arith, on, out, done))
        | inr (c, at) ↦ elim (Option-cases (Op.step now op c)) [
          | inl undefined ↦ absurd (ground (arith, on, at, undefined, done))
          | inr ((c', r'), ran) ↦
              let (same, _, valid) =
                step-view now op c c' r' (AllValid-get s.shards j c h.valid at) ran in
              let shards : write s.shards j c' ≡ s'.shards = ground (arith, on, at, ran, done) in
              let keys : AllKeys (IsHome (length caps) (j + 0)) (view c').items =
                subst (λ (l : Lru). AllKeys (IsHome (length caps) (j + 0)) l.items) (sym same)
                  (model_step-AllEntries (λ a _. IsHome (length caps) (j + 0) a) now op (view c)
                    (subst (λ n. Adds (λ a _. IsHome n (j + 0) a) op) count
                      (subst (λ m. Adds (λ a _. IsHome (length s.shards) m a) op) (omega arith)
                        (Adds-IsHome op k s e)))
                    (KeysHome-get (length caps) 0 s.shards j c h.home at)) in
              let capacity : c'.capacity ≡ c.capacity =
                ap (λ (l : Lru). l.capacity) same ∙ model_step-capacity now op (view c) in
              record {
                valid = rw (← shards) (AllValid-set s.shards j c' h.valid valid);
                home = rw (← shards) (KeysHome-set (length caps) 0 s.shards j c' h.home keys);
                shape = rw (← shards) (capacities-set s.shards j c c' at capacity ∙ h.shape);
              }
        ]
      ]

  pub step-IsSettled :
      (now : ℕ) (op : Op) (caps : List (Option ℕ)) (s s' : ShardedCache) (r : Reply)
      → IsSettled caps s
      → step std_hash now op s ≡ some (s', r)
      → IsSettled caps s'
  unfolding step Sharded.clear
  step-IsSettled now clear caps s s' r h done =
      let shards : map Cache.clear s.shards ≡ s'.shards = ground (arith, done) in
      record {
        valid = rw (← shards) (AllValid-clear s.shards h.valid);
        home = rw (← shards) (KeysHome-clear (length caps) 0 s.shards);
        shape = rw (← shards) (capacities-clear s.shards ∙ h.shape);
      }
  step-IsSettled now (set k v) caps s s' r h done =
      step_keyed-IsSettled now (set k v) k caps s s' r refl h done
  step-IsSettled now (set_ttl k v t) caps s s' r h done =
      step_keyed-IsSettled now (set_ttl k v t) k caps s s' r refl h done
  step-IsSettled now (get k) caps s s' r h done =
      step_keyed-IsSettled now (get k) k caps s s' r refl h done
  step-IsSettled now (get_into k out) caps s s' r h done =
      step_keyed-IsSettled now (get_into k out) k caps s s' r refl h done
  step-IsSettled now (erase k) caps s s' r h done =
      step_keyed-IsSettled now (erase k) k caps s s' r refl h done
  step-IsSettled now (contains k) caps s s' r h done =
      step_keyed-IsSettled now (contains k) k caps s s' r refl h done
  step-IsSettled now (ttl k) caps s s' r h done =
      step_keyed-IsSettled now (ttl k) k caps s s' r refl h done

  -- Through any sequence of calls every key stays in the shard that its hash chooses and in no
  -- other, every shard stays valid, and the capacities stay as they were.
  pub run-IsSettled :
      (ops : List (ℕ × Op)) (caps : List (Option ℕ)) (s s' : ShardedCache) (rs : List Reply)
      → IsSettled caps s
      → run std_hash ops s ≡ some (s', rs)
      → IsSettled caps s'
  unfolding run
  run-IsSettled [] caps s s' rs h done = let same : s ≡ s' = ground arith in rw (← same) h
  run-IsSettled ((now, op) ∷ ops) caps s s' rs h done =
      elim (Option-cases (step std_hash now op s)) [
        | inl undefined ↦ absurd (ground (arith, undefined, done))
        | inr ((t, r), one) ↦ elim (Option-cases (run std_hash ops t)) [
          | inl undefined ↦ absurd (ground (arith, one, undefined, done))
          | inr ((u, rest), more) ↦
              let same : u ≡ s' = ground (arith, one, more, done) in
              rw (← same)
                (run-IsSettled ops caps t u rest (step-IsSettled now op caps s t r h one) more)
        ]
      ]
