-- ===== src/Sharded/Sum.antt =====
-- The sums over the shards, without a wrap.
use cache_x.Base.{ℕ, ◌+◌, ◌%◌, ◌^◌, ◌<◌, ◌≡◌, ap, ◌∙◌, List, [], ◌∷◌, arith}
use cache_x.Cache.{Cache}
use cache_x.Sharded.{total, capacity_or_zero}

abbrev pub cap_of : Cache → ℕ
cap_of c = capacity_or_zero c.capacity

-- The sum of a number of every shard, without a wrap.
abbrev pub sum_of : (Cache → ℕ) → List Cache → ℕ
sum_of f [] = 0
sum_of f (c ∷ cs) = f c + sum_of f cs

pub total-sum_of :
    (f : Cache → ℕ) (cs : List Cache) (sum : ℕ)
    → sum + sum_of f cs < 2 ^ 64
    → total f cs sum ≡ sum + sum_of f cs
unfolding total
total-sum_of f [] sum fits = omega arith
total-sum_of f (c ∷ cs) sum fits =
    let exact : (sum + f c) % 2 ^ 64 ≡ sum + f c = omega arith in
    ap (total f cs) exact ∙ total-sum_of f cs (sum + f c) (omega arith) ∙ omega arith
