-- ===== src/Cache/Op.antt =====
-- The calls that a client of the cache makes, and what they return.
use cache_x.Base.{ℕ, List, [], ◌∷◌, Option, some, Bytes, Bool, ◌>>=◌, ℤ}
use cache_x.Cache
use cache_x.Cache.{Cache, TtlInfo}

pub data Op : Type 0 where
  set : Bytes → Bytes → Op
  set_ttl : Bytes → Bytes → ℤ → Op
  get : Bytes → Op
  get_into : Bytes → Bytes → Op
  erase : Bytes → Op
  contains : Bytes → Op
  ttl : Bytes → Op
  clear : Op

pub data Reply : Type 0 where
  done : Reply
  value : Option Bytes → Reply
  buffer : Bool × Bytes → Reply
  flag : Bool → Reply
  info : TtlInfo → Reply

unfoldable pub step : ℕ → Op → Cache → Option (Cache × Reply)
step now (set k v) c = do c' ← Cache.set k v c; some (c', done)
step now (set_ttl k v t) c = do c' ← Cache.set_ttl now k v t c; some (c', done)
step now (get k) c = do (c', v) ← Cache.get now k c; some (c', value v)
step now (get_into k out) c = do (c', b) ← Cache.get_into now k out c; some (c', buffer b)
step now (erase k) c = do (c', b) ← Cache.erase now k c; some (c', flag b)
step now (contains k) c = do b ← Cache.contains now k c; some (c, flag b)
step now (ttl k) c = do (c', i) ← Cache.ttl now k c; some (c', info i)
step now clear c = some (Cache.clear c, done)

-- A sequence of calls, each with the instant at which it reads the clock.
unfoldable pub run : List (ℕ × Op) → Cache → Option (Cache × List Reply)
unfolding step
run [] c = some (c, [])
run ((now, op) ∷ ops) c = do (c', r) ← step now op c; (c'', rs) ← run ops c'; some (c'', r ∷ rs)
