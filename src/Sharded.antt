-- ===== src/Sharded.antt =====
-- src/sharded_cache.cpp, include/cachex/sharded_cache.hpp and include/cachex/sync_cache.hpp.
-- A `SyncCache` is a cache behind a mutex that every method holds for its whole duration, so a call
-- of it is one step on the cache inside. The hash of the standard library is a parameter.
pub mod Op
pub mod Sum
pub mod Split
pub mod Shards
pub mod Home
pub mod Settled
pub mod Values
pub mod Bound
mod Tests
use Prim.Native.Nat.{bit_xor, max}
use cache_x.Base.{
  ℕ, zero, suc, ◌+◌, ◌*◌, ◌/◌, ◌%◌, ◌^◌, List, [], ◌∷◌, ◌++◌, Option, none, some, Bytes, Bool, true,
  false, ◌>>=◌, if◌then◌else◌, ltb, ◌==◌, length, get_elem?, set as write, map, ℤ,
}
use cache_x.Cache
use cache_x.Cache.{Cache, TtlInfo, EntrySnapshot, unbounded, bounded}

pub record ShardedCache : Type 0 where
  pub shards : List Cache

unfoldable pub sane_shard_count : ℕ → ℕ
sane_shard_count requested = if requested == 0 then 1 else requested

-- The loop of the unbounded constructor.
unfoldable pub unbounded_shards : ℕ → List Cache
unbounded_shards zero = []
unbounded_shards (suc n) = unbounded ∷ unbounded_shards n

unfoldable pub create : ℕ → ShardedCache
unfolding sane_shard_count unbounded_shards
create shard_count = record { shards = unbounded_shards (sane_shard_count shard_count) }

-- The loop of the bounded constructor, with `left` shards to make from the index `i` on.
unfoldable pub bounded_shards : ℕ → ℕ → ℕ → ℕ → List Cache
bounded_shards zero i base remainder = []
bounded_shards (suc left) i base remainder =
    bounded (base + (if ltb i remainder then 1 else 0)) ∷ bounded_shards left (i + 1) base remainder

-- Never more shards than entries to hold.
unfoldable pub usable_count : ℕ → ℕ → ℕ
unfolding sane_shard_count
usable_count shard_count total_capacity =
    let count = sane_shard_count shard_count in
    if ltb total_capacity count then max 1 total_capacity else count

unfoldable pub create_bounded : ℕ → ℕ → ShardedCache
unfolding usable_count bounded_shards
create_bounded shard_count total_capacity =
    let count = usable_count shard_count total_capacity in
    record { shards = bounded_shards count 0 (total_capacity / count) (total_capacity % count) }

unfoldable pub shard_count : ShardedCache → ℕ
shard_count s = length s.shards

-- The finalizer of splitmix64, over 64-bit words.
unfoldable pub mix : ℕ → ℕ
mix h₀ =
    let h₁ = bit_xor h₀ (h₀ / 2 ^ 30) in
    let h₂ = (h₁ * 0xbf58476d1ce4e5b9) % 2 ^ 64 in
    let h₃ = bit_xor h₂ (h₂ / 2 ^ 27) in
    let h₄ = (h₃ * 0x94d049bb133111eb) % 2 ^ 64 in bit_xor h₄ (h₄ / 2 ^ 31)

-- The loops that add up a number of every shard, in `std::size_t`.
unfoldable pub total : (Cache → ℕ) → List Cache → ℕ → ℕ
total f [] sum = sum
total f (c ∷ cs) sum = total f cs ((sum + f c) % 2 ^ 64)

unfoldable pub size : ShardedCache → ℕ
unfolding total
size s = total Cache.size s.shards 0

unfoldable pub empty : ShardedCache → Bool
unfolding size
empty s = size s == 0

abbrev pub capacity_or_zero : Option ℕ → ℕ
capacity_or_zero none = 0
capacity_or_zero (some n) = n

abbrev pub sum_capacity : List Cache → Option ℕ → Option ℕ
sum_capacity cs none = none
sum_capacity cs (some _) = some (total (λ c. capacity_or_zero c.capacity) cs 0)

-- The first shard says whether the cache is bounded; `front` of no shards is undefined.
unfoldable pub capacity : ShardedCache → Option (Option ℕ)
unfolding total
capacity s = elim s.shards [ [] ↦ none | c ∷ cs ↦ some (sum_capacity (c ∷ cs) c.capacity) ]

unfoldable pub evictions : ShardedCache → ℕ
unfolding total
evictions s = total (λ c. c.evictions) s.shards 0

unfoldable pub expired_removals : ShardedCache → ℕ
unfolding total
expired_removals s = total (λ c. c.expired_removals) s.shards 0

unfoldable pub clear : ShardedCache → ShardedCache
clear s = record { shards = map Cache.clear s.shards }

-- The shards are read one after another, the one at `i` at the instant `clock i`.
unfoldable pub export_from : (ℕ → ℕ) → ℕ → List Cache → List EntrySnapshot
export_from clock i [] = []
export_from clock i (c ∷ cs) = Cache.export_entries (clock i) c ++ export_from clock (i + 1) cs

unfoldable pub export_entries : (ℕ → ℕ) → ShardedCache → List EntrySnapshot
unfolding export_from
export_entries clock s = export_from clock 0 s.shards

-- A call of a method of the shard at `i`.
unfoldable pub on_shard :
    {R : Type 0} → ℕ → (Cache → Option (Cache × R)) → ShardedCache → Option (ShardedCache × R)
on_shard i f s = do
  c ← get_elem? s.shards i
  (c', r) ← f c
  some (record { shards = write s.shards i c' }, r)

abbrev pub with_unit : Option Cache → Option (Cache × Unit {0})
with_unit o = do c ← o; some (c, tt)

module _ (std_hash : Bytes → ℕ) where
  unfoldable pub shard_hash : Bytes → ℕ
  unfolding mix
  shard_hash key = mix (std_hash key % 2 ^ 64)

  unfoldable pub shard_index_for : Bytes → ShardedCache → ℕ
  unfolding shard_hash
  shard_index_for key s = shard_hash key % length s.shards

  unfoldable pub set : Bytes → Bytes → ShardedCache → Option (ShardedCache × Unit {0})
  unfolding on_shard
  set key value s = on_shard (shard_index_for key s) (λ c. with_unit (Cache.set key value c)) s

  unfoldable pub set_ttl : ℕ → Bytes → Bytes → ℤ → ShardedCache → Option (ShardedCache × Unit {0})
  unfolding on_shard
  set_ttl now key value ttl s =
      on_shard (shard_index_for key s) (λ c. with_unit (Cache.set_ttl now key value ttl c)) s

  unfoldable pub get : ℕ → Bytes → ShardedCache → Option (ShardedCache × Option Bytes)
  unfolding on_shard
  get now key s = on_shard (shard_index_for key s) (Cache.get now key) s

  unfoldable pub get_into :
      ℕ → Bytes → Bytes → ShardedCache → Option (ShardedCache × (Bool × Bytes))
  unfolding on_shard
  get_into now key out s = on_shard (shard_index_for key s) (Cache.get_into now key out) s

  unfoldable pub erase : ℕ → Bytes → ShardedCache → Option (ShardedCache × Bool)
  unfolding on_shard
  erase now key s = on_shard (shard_index_for key s) (Cache.erase now key) s

  unfoldable pub contains : ℕ → Bytes → ShardedCache → Option Bool
  contains now key s = do c ← get_elem? s.shards (shard_index_for key s); Cache.contains now key c

  unfoldable pub ttl : ℕ → Bytes → ShardedCache → Option (ShardedCache × TtlInfo)
  unfolding on_shard
  ttl now key s = on_shard (shard_index_for key s) (Cache.ttl now key) s
