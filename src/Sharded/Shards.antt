-- ===== src/Sharded/Shards.antt =====
-- Each shard of the sharded cache is a cache of its own: it sees the calls for its keys, in their
-- order, and nothing else.
use native.Mathlib.Nat.{mod-lt}
use cache_x.Base.{
  ℕ, zero, suc, ◌%◌, ◌<◌, ◌≡◌, refl, ap, ◌∙◌, List, [], ◌∷◌, map, none, some, Bytes, Bool, true,
  false, ◌>>=◌, if◌then◌else◌, ◌==◌, length, get_elem?, set as write, length-set, length-map, arith,
  Bool-cases, Option-cases, inl, inr, get_elem?-set_self, get_elem?-set_ne, get_elem?-lt,
}
use cache_x.Cache
use cache_x.Cache.{Cache}
use cache_x.Cache.Valid.{IsValid, view}
use cache_x.Cache.Model.{model_step}
use cache_x.Cache.Op
use cache_x.Cache.Op.{Op, Reply, set, set_ttl, get, get_into, erase, contains, ttl, clear}
use cache_x.Cache.Run.{InRange, AllInRange, step-Implements, clear-IsValid}
use cache_x.Sharded
use cache_x.Sharded.{ShardedCache, shard_hash, shard_index_for, on_shard, with_unit}
use cache_x.Sharded.Op.{step, run, key_of}

abbrev pub AllValid : List Cache → Type 0
AllValid [] = Unit
AllValid (c ∷ cs) = IsValid c × AllValid cs

pub AllValid-get :
    (cs : List Cache) (i : ℕ) (c : Cache) → AllValid cs → get_elem? cs i ≡ some c → IsValid c
AllValid-get [] i c h e = absurd (ground arith)
AllValid-get (d ∷ cs) zero c h e = let same : d ≡ c = ground arith in rw (← same) h.0
AllValid-get (d ∷ cs) (suc i) c h e = AllValid-get cs i c h.1 e

pub AllValid-set :
    (cs : List Cache) (i : ℕ) (c : Cache) → AllValid cs → IsValid c → AllValid (write cs i c)
AllValid-set [] i c h v = h
AllValid-set (d ∷ cs) zero c h v = (v, h.1)
AllValid-set (d ∷ cs) (suc i) c h v = (h.0, AllValid-set cs i c h.1 v)

pub AllValid-clear : (cs : List Cache) → AllValid cs → AllValid (map Cache.clear cs)
AllValid-clear [] h = tt
AllValid-clear (c ∷ cs) h = (clear-IsValid c h.0, AllValid-clear cs h.1)

pub get_elem?-map {ℓ κ} :
    {A : Type ℓ} {B : Type κ} (f : A → B) (xs : List A) (i : ℕ) (a : A)
    → get_elem? xs i ≡ some a
    → get_elem? (map f xs) i ≡ some (f a)
get_elem?-map f [] i a h = absurd (cc)
get_elem?-map f (x ∷ xs) zero a h = ground arith
get_elem?-map f (x ∷ xs) (suc i) a h = get_elem?-map f xs i a h

-- Writing back what a shard holds changes nothing.
set-get_elem? {ℓ} :
    {A : Type ℓ} (xs : List A) (i : ℕ) (a : A) → get_elem? xs i ≡ some a → write xs i a ≡ xs
set-get_elem? [] i a h = refl
set-get_elem? (x ∷ xs) zero a h = ground arith
set-get_elem? (x ∷ xs) (suc i) a h = ap (◌∷◌ x) (set-get_elem? xs i a h)

pub length-pos {ℓ} :
    {A : Type ℓ} (xs : List A) (i : ℕ) (a : A) → get_elem? xs i ≡ some a → 0 < length xs
length-pos [] i a h = absurd (ground arith)
length-pos (x ∷ xs) i a h = omega arith

module _ (std_hash : Bytes → ℕ) where
  pub shard_index_for-lt :
      (k : Bytes) (s : ShardedCache)
      → 0 < length s.shards
      → shard_index_for std_hash k s < length s.shards
  unfolding shard_index_for
  shard_index_for-lt k s h = mod-lt (shard_hash std_hash k) h

  -- Whether the calls of the shard at `i`, of `n`, include a call.
  unfoldable pub is_for : ℕ → ℕ → Op → Bool
  is_for n i op = elim (key_of op) [ none ↦ true | some k ↦ (shard_hash std_hash k % n) == i ]

  unfoldable pub calls_for : ℕ → ℕ → List (ℕ × Op) → List (ℕ × Op)
  unfolding is_for
  calls_for n i [] = []
  calls_for n i ((now, op) ∷ ops) =
      let rest = calls_for n i ops in if is_for n i op then (now, op) ∷ rest else rest

  unfoldable pub replies_for : ℕ → ℕ → List (ℕ × Op) → List Reply → List Reply
  unfolding is_for
  replies_for n i [] rs = []
  replies_for n i (_ ∷ ops) [] = []
  replies_for n i ((now, op) ∷ ops) (r ∷ rs) =
      let rest = replies_for n i ops rs in if is_for n i op then r ∷ rest else rest

  -- A call with a key is a call of the shard of that key.
  pub step-on_shard :
      (now : ℕ) (op : Op) (k : Bytes) (s : ShardedCache)
      → key_of op ≡ some k
      → step std_hash now op s ≡ (do
        c ← get_elem? s.shards (shard_index_for std_hash k s)
        (c', r) ← Op.step now op c
        some (record { shards = write s.shards (shard_index_for std_hash k s) c' }, r))
  unfolding step on_shard Sharded.set Sharded.set_ttl Sharded.get Sharded.get_into Sharded.erase
      Sharded.contains Sharded.ttl Op.step
  step-on_shard now (set j v) k s e = ground arith
  step-on_shard now (set_ttl j v t) k s e = ground arith
  step-on_shard now (get j) k s e = ground arith
  step-on_shard now (get_into j out) k s e = ground arith
  step-on_shard now (erase j) k s e = ground arith
  step-on_shard now (contains j) k s e =
      elim (Option-cases (get_elem? s.shards (shard_index_for std_hash k s))) [
        | inl out ↦ ground (arith, out)
        | inr (c, at) ↦
            ground (arith, at, set-get_elem? s.shards (shard_index_for std_hash k s) c at)
      ]
  step-on_shard now (ttl j) k s e = ground arith
  step-on_shard now clear k s e = absurd (ground arith)

  -- What one call does to the shard at `i`, which held `c`.
  pub record StepsShard (n i : ℕ) (now : ℕ) (op : Op) (c : Cache) (r : Reply) (s' : ShardedCache)
      : Type 0 where
    pub after : Cache
    pub held : get_elem? s'.shards i ≡ some after
    pub called : is_for n i op ≡ true → Op.step now op c ≡ some (after, r)
    pub untouched : is_for n i op ≡ false → after ≡ c

  is_for_key :
      (i : ℕ) (op : Op) (k : Bytes) (s : ShardedCache)
      → key_of op ≡ some k
      → is_for (length s.shards) i op ≡ (shard_index_for std_hash k s == i)
  unfolding is_for shard_index_for
  is_for_key i op k s e = ground (arith, e)

  -- A write to the shard of the key, seen from the shard at `i`.
  StepsShard-write :
      (now : ℕ) (op : Op) (k : Bytes) (s : ShardedCache) (d d' : Cache) (r : Reply)
      → key_of op ≡ some k
      → get_elem? s.shards (shard_index_for std_hash k s) ≡ some d
      → Op.step now op d ≡ some (d', r)
      → (i : ℕ) (c : Cache) → get_elem? s.shards i ≡ some c
      → StepsShard
          (length s.shards)
          i
          now
          op
          c
          r
          (record { shards = write s.shards (shard_index_for std_hash k s) d' })
  StepsShard-write now op k s d d' r e at done i c held =
      let j = shard_index_for std_hash k s in
      elim (Bool-cases (j == i)) [
        | inl same ↦
            let eq : j ≡ i = ground arith in
            let d≡c : d ≡ c = ground (arith, eq) in
            record {
              after = d';
              held = rw (← eq) (get_elem?-set_self s.shards j d' d at);
              called = λ _. rw (← d≡c) done;
              untouched = λ no_call. absurd (ground (arith, is_for_key i op k s e));
            }
        | inr other ↦ record {
          after = c;
          held = get_elem?-set_ne s.shards j i d' (λ eq. ground arith) ∙ held;
          called = λ call. absurd (ground (arith, is_for_key i op k s e));
          untouched = λ _. refl;
        }
      ]

  step_keyed :
      (now : ℕ) (op : Op) (k : Bytes) (s : ShardedCache)
      → key_of op ≡ some k
      → InRange now op
      → AllValid s.shards
      → 0 < length s.shards
      → (s' : ShardedCache) × (r : Reply) × (step std_hash now op s ≡ some (s', r))
        × AllValid s'.shards
        × (length s'.shards ≡ length s.shards)
        × ((i : ℕ) (c : Cache)
            → get_elem? s.shards i ≡ some c
            → StepsShard (length s.shards) i now op c r s')
  step_keyed now op k s e f h some_shard =
      let j = shard_index_for std_hash k s in
      let (d, at) = get_elem?-lt s.shards j (shard_index_for-lt k s some_shard) in
      let m = step-Implements now op d f (AllValid-get s.shards j d h at) in
      let r = (model_step now op (view d)).1 in
      (
        record { shards = write s.shards j m.cache },
        r,
        ground (arith, step-on_shard now op k s e, at, m.defined),
        AllValid-set s.shards j m.cache h m.valid,
        length-set s.shards j m.cache,
        StepsShard-write now op k s d m.cache r e at m.defined,
      )

  pub step_shards :
      (now : ℕ) (op : Op) (s : ShardedCache)
      → InRange now op
      → AllValid s.shards
      → 0 < length s.shards
      → (s' : ShardedCache) × (r : Reply) × (step std_hash now op s ≡ some (s', r))
        × AllValid s'.shards
        × (length s'.shards ≡ length s.shards)
        × ((i : ℕ) (c : Cache)
            → get_elem? s.shards i ≡ some c
            → StepsShard (length s.shards) i now op c r s')
  unfolding step is_for Op.step Sharded.clear
  step_shards now clear s f h some_shard = (
    Sharded.clear s,
    Op.done,
    refl,
    AllValid-clear s.shards h,
    length-map Cache.clear s.shards,
    λ i c held. record {
      after = Cache.clear c;
      held = get_elem?-map Cache.clear s.shards i c held;
      called = λ _. refl;
      untouched = λ e. absurd (ground arith);
    },
  )
  step_shards now (set k v) s f h some_shard = step_keyed now (set k v) k s refl f h some_shard
  step_shards now (set_ttl k v t) s f h some_shard =
      step_keyed now (set_ttl k v t) k s refl f h some_shard
  step_shards now (get k) s f h some_shard = step_keyed now (get k) k s refl f h some_shard
  step_shards now (get_into k out) s f h some_shard =
      step_keyed now (get_into k out) k s refl f h some_shard
  step_shards now (erase k) s f h some_shard = step_keyed now (erase k) k s refl f h some_shard
  step_shards now (contains k) s f h some_shard =
      step_keyed now (contains k) k s refl f h some_shard
  step_shards now (ttl k) s f h some_shard = step_keyed now (ttl k) k s refl f h some_shard

  -- In any sequence of calls each shard goes through the calls for its own keys (and every
  -- `clear`) just as a cache on its own would, with the same replies: no other call reaches it.
  pub run-shards :
      (ops : List (ℕ × Op)) (s : ShardedCache)
      → AllInRange ops
      → AllValid s.shards
      → (i : ℕ) (c : Cache) → get_elem? s.shards i ≡ some c
      → (s' : ShardedCache) × (rs : List Reply) × (c' : Cache) × (run std_hash ops s
          ≡ some (s', rs))
        × (get_elem? s'.shards i ≡ some c')
        × (Op.run (calls_for (length s.shards) i ops) c
            ≡ some (c', replies_for (length s.shards) i ops rs))
  unfolding run Op.run calls_for replies_for
  run-shards [] s f h i c held = (s, [], c, refl, held, refl)
  run-shards ((now, op) ∷ ops) s f h i c held =
      let (s₁, r, done, h₁, len, each) =
        step_shards now op s f.0 h (length-pos s.shards i c held) in
      let st = each i c held in
      let (s', rs, c', rest, held', own) = run-shards ops s₁ f.1 h₁ i st.after st.held in
      (
        s',
        r ∷ rs,
        c',
        ground (arith, done, rest),
        held',
        elim (Bool-cases (is_for (length s.shards) i op)) [
          | inl call ↦ ground (arith, call, st.called call, own, len)
          | inr no_call ↦ ground (arith, no_call, st.untouched no_call, own, len)
        ],
      )
