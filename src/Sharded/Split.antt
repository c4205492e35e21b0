-- ===== src/Sharded/Split.antt =====
-- How the bounded constructor shares a capacity among the shards.
use Prim.Native.Nat.{max}
use native.Mathlib.Nat.{div-add-mod, mod-lt, le-div_iff_mul-le}
use cache_x.Base.{
  ap, ℕ, zero, suc, ◌+◌, ◌-◌, ◌*◌, ◌/◌, ◌%◌, ◌^◌, ◌≤◌, ◌<◌, ◌≡◌, refl, some, ◌∙◌, ltb,
  if◌then◌else◌, length, get_elem?, arith,
}
use cache_x.Cache.{Cache}
use cache_x.Sharded.Sum.{sum_of, total-sum_of, cap_of}
use cache_x.Sharded.{usable_count, bounded_shards, create_bounded, total, capacity, shard_count}

pub usable_count_bounds :
    (count t : ℕ)
    → (1 ≤ usable_count count t)
      × (usable_count count t ≤ max 1 count)
      × (1 ≤ t → usable_count count t ≤ t)
unfolding usable_count
usable_count_bounds count t = (ground arith, ground arith, λ h. ground arith)

length-bounded_shards :
    (left i base remainder : ℕ) → length (bounded_shards left i base remainder) ≡ left
unfolding bounded_shards
length-bounded_shards zero i b r = refl
length-bounded_shards (suc left) i b r = omega (arith, length-bounded_shards left (i + 1) b r)

-- The shares from an index on, when the remainder ends before the last of them.
sum_of-bounded_shards :
    (left i base remainder : ℕ)
    → remainder ≤ i + left
    → sum_of cap_of (bounded_shards left i base remainder) ≡ left * base + (remainder - i)
unfolding bounded_shards
sum_of-bounded_shards zero i b r small = omega arith
sum_of-bounded_shards (suc left) i b r small =
    let rest = sum_of-bounded_shards left (i + 1) b r (omega arith) in
    let one : (if ltb i r then 1 else 0) + (r - (i + 1)) ≡ r - i = ground arith in
    let split : suc left * b ≡ b + left * b = grind arith in omega (arith, rest, one, split)

-- The shares add up to the capacity that was asked for.
pub sum_of-create_bounded : (count t : ℕ) → sum_of cap_of (create_bounded count t).shards ≡ t
unfolding create_bounded
sum_of-create_bounded count t = go (usable_count count t) (usable_count_bounds count t).0
  where
    go : (n : ℕ) → 1 ≤ n → sum_of cap_of (bounded_shards n 0 (t / n) (t % n)) ≡ t
    go zero h = absurd (omega arith)
    go (suc n) h =
        let less : t % suc n < suc n = mod-lt t (omega arith) in
        let sum = sum_of-bounded_shards (suc n) 0 (t / suc n) (t % suc n) (omega arith) in
        let whole = div-add-mod t (suc n) in omega (arith, sum, whole)

-- A cache made with a capacity has a first shard, which is bounded.
capacity-bounded_shards :
    (n base remainder : ℕ)
    → 1 ≤ n
    → capacity (record { shards = bounded_shards n 0 base remainder })
      ≡ some (some (total cap_of (bounded_shards n 0 base remainder) 0))
unfolding capacity bounded_shards
capacity-bounded_shards zero base remainder h = absurd (omega arith)
capacity-bounded_shards (suc n) base remainder h = refl

-- The shards' capacities add up to the capacity that was asked for, for any number of shards.
pub capacity-create_bounded :
    (count t : ℕ) → t < 2 ^ 64 → capacity (create_bounded count t) ≡ some (some t)
unfolding create_bounded
capacity-create_bounded count t fits =
    let n = usable_count count t in
    let sum : sum_of cap_of (bounded_shards n 0 (t / n) (t % n)) ≡ t =
      unfold create_bounded in sum_of-create_bounded count t in
    let exact = total-sum_of cap_of (bounded_shards n 0 (t / n) (t % n)) 0 (omega (arith, sum)) in
    capacity-bounded_shards n (t / n) (t % n) (usable_count_bounds count t).0
    ∙ ap (λ k. some (some k)) (exact ∙ omega (arith, sum))

bounded_shards_share :
    (left i base remainder k : ℕ) (c : Cache)
    → get_elem? (bounded_shards left i base remainder) k ≡ some c
    → (n : ℕ) × (c.capacity ≡ some n) × (base ≤ n) × (n ≤ base + 1)
unfolding bounded_shards
bounded_shards_share zero i b r k c e = absurd (ground arith)
bounded_shards_share (suc left) i b r zero c e =
    (b + (if ltb i r then 1 else 0), ground arith, ground arith, ground arith)
bounded_shards_share (suc left) i b r (suc k) c e = bounded_shards_share left (i + 1) b r k c e

-- A cache with a capacity of at least one has no more shards than that; each of them can hold an
-- entry, and has the same share as any other or one more.
pub create_bounded_shares :
    (count t i : ℕ) (c : Cache)
    → 1 ≤ t
    → get_elem? (create_bounded count t).shards i ≡ some c
    → (shard_count (create_bounded count t) ≤ t)
      × ((n : ℕ) × (c.capacity ≡ some n)
          × (1 ≤ n)
          × (t / shard_count (create_bounded count t) ≤ n)
          × (n ≤ t / shard_count (create_bounded count t) + 1))
unfolding create_bounded shard_count
create_bounded_shares count t i c h e =
    let k = usable_count count t in
    let (low, _, few) = usable_count_bounds count t in
    let len = length-bounded_shards k 0 (t / k) (t % k) in
    let (n, cap, least, most) = bounded_shards_share k 0 (t / k) (t % k) i c e in
    let one : 1 ≤ t / k = (le-div_iff_mul-le low).1 (omega (arith, few h)) in
    (omega (arith, few h), (n, cap, omega arith, rw len least, rw len most))

pub create_bounded-some_shard : (count t : ℕ) → 0 < length (create_bounded count t).shards
unfolding create_bounded
create_bounded-some_shard count t =
    let k = usable_count count t in
    omega (arith, (usable_count_bounds count t).0, length-bounded_shards k 0 (t / k) (t % k))
