-- ===== src/Sharded/Bound.antt =====
-- No more entries than the capacity that was asked for, in all shards together.
use mathlib.Core.Path.{subst}
use cache_x.Base.{
  ℕ, zero, suc, ◌+◌, ◌/◌, ◌%◌, ◌^◌, ◌≤◌, ◌<◌, ◌≡◌, refl, ◌∙◌, List, [], ◌∷◌, Option, none, some,
  Bytes, length, arith, inl, inr, Option-cases,
}
use cache_x.Cache
use cache_x.Cache.{Cache}
use cache_x.Cache.Valid.{IsValid, Within}
use cache_x.Sharded
use cache_x.Sharded.{ShardedCache, usable_count, bounded_shards, create_bounded, total}
use cache_x.Sharded.Shards.{AllValid}
use cache_x.Sharded.Split.{sum_of-create_bounded}
use cache_x.Sharded.Sum.{sum_of, total-sum_of, cap_of}
use cache_x.Sharded.Home.{IsSettled, capacities}

-- The entries in all shards.
abbrev pub held : ShardedCache → ℕ
held s = sum_of Cache.size s.shards

abbrev sum_caps : List (Option ℕ) → ℕ
sum_caps [] = 0
sum_caps (none ∷ caps) = sum_caps caps
sum_caps (some n ∷ caps) = n + sum_caps caps

abbrev AllBounded : List (Option ℕ) → Type 0
AllBounded [] = Unit {0}
AllBounded (none ∷ caps) = ⊥
AllBounded (some _ ∷ caps) = AllBounded caps

-- A shard that is within its capacity.
size-le : (c : Cache) (n : ℕ) → IsValid c → c.capacity ≡ some n → Cache.size c ≤ n
unfolding Cache.size
size-le c n v e =
    let within = subst (λ cap. Within cap (length c.list.nodes)) e v.within in
    omega (arith, within, v.consistent.sizes)

sum_of-le :
    (cs : List Cache) (caps : List (Option ℕ))
    → AllValid cs
    → AllBounded caps
    → capacities cs ≡ caps
    → sum_of Cache.size cs ≤ sum_caps caps
sum_of-le [] [] v b e = omega arith
sum_of-le [] (_ ∷ _) v b e = absurd (ground (arith, e))
sum_of-le (_ ∷ _) [] v b e = absurd (ground (arith, e))
sum_of-le (c ∷ cs) (none ∷ caps) v b e = absurd b
sum_of-le (c ∷ cs) (some n ∷ caps) v b e =
    let here = size-le c n v.0 (ground (arith, e)) in
    let rest = sum_of-le cs caps v.1 b (ground (arith, e)) in omega (arith, here, rest)

bounded_shards-AllBounded :
    (left i base rem : ℕ) → AllBounded (capacities (bounded_shards left i base rem))
unfolding bounded_shards
bounded_shards-AllBounded zero i base rem = tt
bounded_shards-AllBounded (suc left) i base rem = bounded_shards-AllBounded left (i + 1) base rem

sum_caps-capacities : (cs : List Cache) → sum_caps (capacities cs) ≡ sum_of cap_of cs
sum_caps-capacities [] = refl
sum_caps-capacities (c ∷ cs) = elim (Option-cases c.capacity) [
  | inl e ↦ ground (arith, e, sum_caps-capacities cs)
  | inr (n, e) ↦ ground (arith, e, sum_caps-capacities cs)
]

-- Whatever a cache that was made with a capacity has been through, it holds no more entries, and
-- `size` counts them without a wrap.
pub size-create_bounded :
    (std_hash : Bytes → ℕ) (count t : ℕ) (s : ShardedCache)
    → t < 2 ^ 64
    → IsSettled std_hash (capacities (create_bounded count t).shards) s
    → (held s ≤ t) × (Sharded.size s ≡ held s)
unfolding Sharded.size create_bounded
size-create_bounded std_hash count t s small h =
    let n = usable_count count t in
    let within =
      sum_of-le s.shards (capacities (create_bounded count t).shards) h.valid
        (bounded_shards-AllBounded n 0 (t / n) (t % n)) h.shape in
    let most : held s ≤ t = omega (
      arith,
      within,
      sum_caps-capacities (create_bounded count t).shards,
      sum_of-create_bounded count t,
    ) in
    (most, total-sum_of Cache.size s.shards 0 (omega (arith, most)) ∙ omega arith)
