-- ===== src/Sharded/Tests.antt =====
-- The theorems about the sharded cache at small inputs.
use cache_x.Base.{ℕ, ◌≡◌, refl, List, [], ◌∷◌, some, codes, length, get_elem?, arith, pos}
use cache_x.Cache.{Cache, unbounded}
use cache_x.Cache.Op
use cache_x.Cache.Op.{Op, Reply}
use cache_x.Cache.Run.{unbounded-IsValid}
use cache_x.Sharded.{ShardedCache, create_bounded, capacity}
use cache_x.Sharded.Op.{run}
use cache_x.Sharded.Split.{capacity-create_bounded}
use cache_x.Sharded.Shards.{run-shards, calls_for, replies_for}

capacity-create_bounded_example : capacity (create_bounded 4 10) ≡ some (some 10)
capacity-create_bounded_example = capacity-create_bounded 4 10 (omega arith)

abbrev two_shards : ShardedCache
two_shards = record { shards = unbounded ∷ unbounded ∷ [] }

abbrev calls : List (ℕ × Op)
calls =
    (1, Op.set (codes "a") (codes "1"))
    ∷ (2, Op.set_ttl (codes "bb") (codes "2") (pos 5))
    ∷ (3, Op.get (codes "a"))
    ∷ (4, Op.get (codes "bb"))
    ∷ []

run-shards_example :
    (s' : ShardedCache) × (rs : List Reply) × (c' : Cache) × (run (λ k. length k) calls two_shards
      ≡ some (s', rs))
    × (get_elem? s'.shards 1 ≡ some c')
    × (Op.run (calls_for (λ k. length k) 2 1 calls) unbounded
        ≡ some (c', replies_for (λ k. length k) 2 1 calls rs))
run-shards_example =
    run-shards (λ k. length k) calls two_shards (tt, (omega arith, (tt, (tt, tt))))
      (unbounded-IsValid, (unbounded-IsValid, tt)) 1 unbounded refl
