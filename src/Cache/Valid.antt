-- ===== src/Cache/Valid.antt =====
-- The invariant of the cache: the index and the list hold the same keys, every iterator leads to
-- the node of its key, and the capacity is kept.
use cache_x.Base.{ℕ, ◌≤◌, ◌≡◌, Option, none, some, Bytes, length}
use cache_x.Index
use cache_x.Recency.{entries}
use cache_x.Recency.Laws.{IsWellFormed, locate}
use cache_x.Cache.{Cache}
use cache_x.Cache.Model.{Lru}

-- The index and the list agree. This holds also between an insertion and its eviction.
pub record IsConsistent (c : Cache) : Type 0 where
  pub list : IsWellFormed c.list.nodes c.list.fresh
  pub distinct : Index.Distinct c.index
  pub agree : (k : Bytes) → Index.find k c.index ≡ locate k c.list.nodes
  pub sizes : length c.index ≡ length c.list.nodes

abbrev pub Within : Option ℕ → ℕ → Type 0
Within none n = Unit {0}
Within (some capacity) n = n ≤ capacity

pub record IsValid (c : Cache) : Type 0 where
  pub consistent : IsConsistent c
  pub within : Within c.capacity (length c.list.nodes)

abbrev pub view : Cache → Lru
view c = record {
  items = entries c.list.nodes;
  capacity = c.capacity;
  evictions = c.evictions;
  expired_removals = c.expired_removals;
}

-- The operation is defined, keeps the invariant, and does what the list does.
pub record Implements {R : Type 0} (done : Option (Cache × R)) (s : Lru × R) : Type 0 where
  pub cache : Cache
  pub defined : done ≡ some (cache, s.1)
  pub valid : IsValid cache
  pub same : view cache ≡ s.0
