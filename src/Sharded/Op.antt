-- ===== src/Sharded/Op.antt =====
-- Calls of the sharded cache, in sequence.
use cache_x.Base.{ℕ, List, [], ◌∷◌, Option, none, some, Bytes, ◌>>=◌}
use cache_x.Cache.Op.{
  Op, Reply, set, set_ttl, get, get_into, erase, contains, ttl, clear, done, value, buffer, flag,
  info,
}
use cache_x.Sharded
use cache_x.Sharded.{ShardedCache, shard_index_for, on_shard}

module _ (std_hash : Bytes → ℕ) where
  unfoldable pub step : ℕ → Op → ShardedCache → Option (ShardedCache × Reply)
  step now (set k v) s = do (s', _) ← Sharded.set std_hash k v s; some (s', done)
  step now (set_ttl k v t) s = do (s', _) ← Sharded.set_ttl std_hash now k v t s; some (s', done)
  step now (get k) s = do (s', v) ← Sharded.get std_hash now k s; some (s', value v)
  step now (get_into k out) s = do
    (s', b) ← Sharded.get_into std_hash now k out s
    some (s', buffer b)
  step now (erase k) s = do (s', b) ← Sharded.erase std_hash now k s; some (s', flag b)
  step now (contains k) s = do b ← Sharded.contains std_hash now k s; some (s, flag b)
  step now (ttl k) s = do (s', i) ← Sharded.ttl std_hash now k s; some (s', info i)
  step now clear s = some (Sharded.clear s, done)

  unfoldable pub run : List (ℕ × Op) → ShardedCache → Option (ShardedCache × List Reply)
  unfolding step
  run [] s = some (s, [])
  run ((now, op) ∷ ops) s = do (s', r) ← step now op s; (s'', rs) ← run ops s'; some (s'', r ∷ rs)

-- The key that chooses the shard; `clear` goes to all of them.
abbrev pub key_of : Op → Option Bytes
key_of (set k _) = some k
key_of (set_ttl k _ _) = some k
key_of (get k) = some k
key_of (get_into k _) = some k
key_of (erase k) = some k
key_of (contains k) = some k
key_of (ttl k) = some k
key_of clear = none
