-- ===== src/Sharded/Settled.antt =====
-- Each call of a settled sharded cache, with the result it gives.
use cache_x.Base.{ℕ, ◌≡◌, List, Option, some, Bytes, Bool, ℤ, arith}
use cache_x.Cache.{TtlInfo}
use cache_x.Cache.Op
use cache_x.Cache.Op.{Op}
use cache_x.Sharded
use cache_x.Sharded.{ShardedCache}
use cache_x.Sharded.Op.{step}
use cache_x.Sharded.Home.{IsSettled, step-IsSettled}

module _ (std_hash : Bytes → ℕ) (caps : List (Option ℕ)) (s s' : ShardedCache)
    (h : IsSettled std_hash caps s) where
  pub set-IsSettled :
      (k v : Bytes) → Sharded.set std_hash k v s ≡ some (s', tt) → IsSettled std_hash caps s'
  unfolding step
  set-IsSettled k v done =
      step-IsSettled std_hash 0 (Op.set k v) caps s s' Op.done h (ground (arith, done))

  pub set_ttl-IsSettled :
      (now : ℕ) (k v : Bytes) (t : ℤ)
      → Sharded.set_ttl std_hash now k v t s ≡ some (s', tt)
      → IsSettled std_hash caps s'
  unfolding step
  set_ttl-IsSettled now k v t done =
      step-IsSettled std_hash now (Op.set_ttl k v t) caps s s' Op.done h (ground (arith, done))

  pub get-IsSettled :
      (now : ℕ) (k : Bytes) (found : Option Bytes)
      → Sharded.get std_hash now k s ≡ some (s', found)
      → IsSettled std_hash caps s'
  unfolding step
  get-IsSettled now k found done =
      step-IsSettled std_hash now (Op.get k) caps s s' (Op.value found) h (ground (arith, done))

  pub erase-IsSettled :
      (now : ℕ) (k : Bytes) (erased : Bool)
      → Sharded.erase std_hash now k s ≡ some (s', erased)
      → IsSettled std_hash caps s'
  unfolding step
  erase-IsSettled now k erased done =
      step-IsSettled std_hash now (Op.erase k) caps s s' (Op.flag erased) h (ground (arith, done))

  pub ttl-IsSettled :
      (now : ℕ) (k : Bytes) (info : TtlInfo)
      → Sharded.ttl std_hash now k s ≡ some (s', info)
      → IsSettled std_hash caps s'
  unfolding step
  ttl-IsSettled now k info done =
      step-IsSettled std_hash now (Op.ttl k) caps s s' (Op.info info) h (ground (arith, done))
