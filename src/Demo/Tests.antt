-- ===== src/Demo/Tests.antt =====
-- What the demonstration prints.
use cache_x.Base.{ℕ, ◌≡◌, refl, ◌++◌, ◌∷◌, [], some, codes, bytes_eq}
use cache_x.Index
use cache_x.Recency
use cache_x.Cache
use cache_x.Cache.{keys_by_recency}
use cache_x.Decimal.{print_ℕ}
use cache_x.Demo.{lru_eviction}

lru_eviction_prints :
    (clock : ℕ → ℕ)
    → lru_eviction clock
      ≡ some (
          10 ∷ codes "[2] LRU eviction (capacity 3)"
          ++ 10 ∷ codes "  order (newest first): c b a "
          ++ 10 ∷ codes "  get(\"a\") -- reading it makes it the newest"
          ++ 10 ∷ codes "  order (newest first): a c b "
          ++ 10 ∷ codes "  set(\"d\") -- at capacity, so the oldest (\"b\") is evicted"
          ++ 10 ∷ codes "  order (newest first): d a c "
          ++ 10 ∷ codes "  contains b -> false, contains a -> true, evictions -> 1"
          ++ 10 ∷ [])
unfolding lru_eviction Cache.set Cache.store Cache.get Cache.contains Cache.trim keys_by_recency
    Index.find Index.emplace Index.erase bytes_eq Recency.deref Recency.insert_newest
    Recency.mark_used Recency.oldest Recency.pop_oldest Recency.entries print_ℕ Cache.increment
lru_eviction_prints clock = refl
