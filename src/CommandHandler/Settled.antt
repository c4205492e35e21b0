-- ===== src/CommandHandler/Settled.antt =====
-- What no command can break: keys stay in their shards, and the shards stay valid.
use cache_x.Base.{ℕ, ◌≡◌, List, Option, none, some, Bytes, ℤ, arith, bind-some}
use cache_x.Sharded
use cache_x.Sharded.{ShardedCache}
use cache_x.Sharded.Home.{IsSettled}
use cache_x.Sharded.Settled.{
  set-IsSettled, set_ttl-IsSettled, get-IsSettled, erase-IsSettled, ttl-IsSettled,
}
use cache_x.Protocol.{Command, CommandType, set, get, delete, exists, ttl, ping, save, load, quit}
use cache_x.Persistence
use cache_x.Persistence.Settled.{load-IsSettled}
use cache_x.CommandHandler.Runs.{execute_save-cache}
use cache_x.CommandHandler.{
  Moment, World, milliseconds, reply_ttl_state, execute_set, execute_load, execute_as, execute,
}

module _ (std_hash : Bytes → ℕ) (caps : List (Option ℕ)) where
  abbrev Settled : ShardedCache → Type 0
  Settled = IsSettled std_hash caps

  execute_set-IsSettled :
      (now : ℕ) (k v : Bytes) (t : Option ℤ) (s s' : ShardedCache)
      → Settled s
      → execute_set std_hash now k v t s ≡ some s'
      → Settled s'
  unfolding execute_set
  execute_set-IsSettled now k v none s s' h done =
      let ((t, _), ran, rest) = bind-some (Sharded.set std_hash k v s) _ done in
      let same : t ≡ s' = ground (arith, rest) in
      rw (← same) (set-IsSettled std_hash caps s t h k v ran)
  execute_set-IsSettled now k v (some seconds) s s' h done =
      let (ms, _, chain) = bind-some (milliseconds seconds) _ done in
      let ((t, _), ran, rest) = bind-some (Sharded.set_ttl std_hash now k v ms s) _ chain in
      let same : t ≡ s' = ground (arith, rest) in
      rw (← same) (set_ttl-IsSettled std_hash caps s t h now k v ms ran)

  execute_load-IsSettled :
      (m : Moment) (path : Option Bytes) (w w' : World) (reply : Bytes)
      → Settled w.cache
      → execute_load std_hash m path w ≡ some (w', reply)
      → Settled w'.cache
  unfolding execute_load
  execute_load-IsSettled m none w w' reply h done =
      let same : w.cache ≡ w'.cache = ground (arith, done) in rw (← same) h
  execute_load-IsSettled m (some path) w w' reply h done =
      let file = w.disk path in
      let ((result, c), ran, rest) =
        bind-some (Persistence.load std_hash m.wall_clock m.clock file w.cache) _ done in
      let same : c ≡ w'.cache = ground (arith, rest) in
      rw (← same) (load-IsSettled std_hash caps m.wall_clock m.clock file w.cache c result h ran)

  execute_as-IsSettled :
      (type : CommandType) (m : Moment) (path : Option Bytes) (command : Command) (w w' : World)
      (reply : Bytes)
      → Settled w.cache
      → execute_as std_hash type m path command w ≡ some (w', reply)
      → Settled w'.cache
  unfolding execute_as
  execute_as-IsSettled set m path c w w' reply h done =
      let (t, ran, rest) =
        bind-some (execute_set std_hash m.now c.key c.value c.ttl w.cache) _ done in
      let same : t ≡ w'.cache = ground (arith, rest) in
      rw (← same) (execute_set-IsSettled m.now c.key c.value c.ttl w.cache t h ran)
  execute_as-IsSettled get m path c w w' reply h done =
      let ((t, found), ran, rest) = bind-some (Sharded.get std_hash m.now c.key w.cache) _ done in
      let same : t ≡ w'.cache = ground (arith, rest) in
      rw (← same) (get-IsSettled std_hash caps w.cache t h m.now c.key found ran)
  execute_as-IsSettled delete m path c w w' reply h done =
      let ((t, erased), ran, rest) =
        bind-some (Sharded.erase std_hash m.now c.key w.cache) _ done in
      let same : t ≡ w'.cache = ground (arith, rest) in
      rw (← same) (erase-IsSettled std_hash caps w.cache t h m.now c.key erased ran)
  execute_as-IsSettled exists m path c w w' reply h done =
      let (held, _, rest) = bind-some (Sharded.contains std_hash m.now c.key w.cache) _ done in
      let same : w.cache ≡ w'.cache = ground (arith, rest) in rw (← same) h
  execute_as-IsSettled ttl m path c w w' reply h done =
      let ((t, info), ran, chain) = bind-some (Sharded.ttl std_hash m.now c.key w.cache) _ done in
      let (text, _, rest) = bind-some (reply_ttl_state info.state info.remaining) _ chain in
      let same : t ≡ w'.cache = ground (arith, rest) in
      rw (← same) (ttl-IsSettled std_hash caps w.cache t h m.now c.key info ran)
  execute_as-IsSettled ping m path c w w' reply h done =
      let same : w.cache ≡ w'.cache = ground (arith, done) in rw (← same) h
  execute_as-IsSettled save m path c w w' reply h done =
      let same : w.cache ≡ w'.cache = ground (arith, execute_save-cache m path w, done) in
      rw (← same) h
  execute_as-IsSettled load m path c w w' reply h done =
      execute_load-IsSettled m path w w' reply h done
  execute_as-IsSettled quit m path c w w' reply h done =
      let same : w.cache ≡ w'.cache = ground (arith, done) in rw (← same) h

  -- No command, and no file that LOAD reads, brings a key into a shard where its hash does not lead,
  -- breaks the invariant of a shard or changes a capacity: a command that has a reply keeps the
  -- cache settled.
  pub execute-IsSettled :
      (m : Moment) (path : Option Bytes) (command : Command) (w w' : World) (reply : Bytes)
      → Settled w.cache
      → execute std_hash m path command w ≡ some (w', reply)
      → Settled w'.cache
  unfolding execute
  execute-IsSettled m path command w w' reply h done =
      execute_as-IsSettled command.type m path command w w' reply h done
