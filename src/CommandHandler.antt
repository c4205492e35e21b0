-- ===== src/CommandHandler.antt =====
-- src/net/command_handler.cpp and include/cachex/command_handler.hpp: a command applied to the cache.
-- `none` is undefined behaviour, as in the cache.
pub mod Deadlines
pub mod Runs
pub mod Defined
pub mod Readback
pub mod Settled
pub mod Framed
mod Tests
use cache_x.Base.{
  ℕ, zero, suc, ◌+◌, ◌-◌, ◌*◌, ◌/◌, ◌%◌, ◌^◌, List, ◌++◌, Option, none, some, Bytes, codes, Bool,
  true, false, if◌then◌else◌, ltb, leb, ℤ, pos, negsuc, ◌>>=◌,
}
use cache_x.Cache.{TtlInfo, TtlState, missing, persistent, expiring}
use cache_x.Sharded
use cache_x.Sharded.{ShardedCache}
use cache_x.Protocol.{
  Command, CommandType, set, get, delete, exists, ttl, ping, save, load, quit, reply_ok, reply_pong,
  reply_bye, reply_no_expiry, reply_value, reply_nil, reply_integer, reply_error,
}
use cache_x.Persistence
use cache_x.Persistence.{LoadResult}
use cache_x.Persistence.Disk
use cache_x.Persistence.Disk.{Disk, Answers, SaveResult, perform_all}

-- What a command reads of its surroundings: the steady clock, now and during the steps of a save or
-- of a load, the wall clock, and the answers of the operating system.
pub record Moment : Type 0 where
  pub now : ℕ
  pub clock : ℕ → ℕ
  pub wall_clock : ℕ
  pub answers : Answers

pub record World : Type 0 where
  pub cache : ShardedCache
  pub disk : Disk

-- `static_cast<long long>` of a `std::size_t`
unfoldable pub as_long_long : ℕ → ℤ
as_long_long n = let m = n % 2 ^ 64 in if ltb m (2 ^ 63) then pos m else negsuc (2 ^ 64 - 1 - m)

-- The conversion of `std::chrono::seconds` to milliseconds.
unfoldable pub milliseconds : ℤ → Option ℤ
milliseconds (pos s) = if ltb (s * 1000) (2 ^ 63) then some (pos (s * 1000)) else none
milliseconds (negsuc s) =
    if leb ((s + 1) * 1000) (2 ^ 63) then some (negsuc (s * 1000 + 999)) else none

unfoldable pub reply_flag : Bool → Bytes
reply_flag b = reply_integer (pos (if b then 1 else 0))

unfoldable pub reply_found : Option Bytes → Bytes
reply_found none = reply_nil
reply_found (some value) = reply_value value

-- The milliseconds in whole seconds, rounded up.
unfoldable pub reply_ttl_state : TtlState → ℕ → Option Bytes
reply_ttl_state missing remaining = some reply_nil
reply_ttl_state persistent remaining = some reply_no_expiry
reply_ttl_state expiring remaining =
    if ltb (remaining + 999) (2 ^ 63)
    then some (reply_integer (pos ((remaining + 999) / 1000)))
    else none

unfoldable pub reply_saved : SaveResult → Bytes
unfolding as_long_long
reply_saved saved =
    if saved.ok
    then reply_integer (as_long_long saved.entries)
    else reply_error (codes "save failed: " ++ saved.error)

unfoldable pub reply_loaded : LoadResult → Bytes
unfolding as_long_long
reply_loaded loaded =
    if loaded.ok
    then reply_integer (as_long_long loaded.loaded)
    else reply_error (codes "load failed: " ++ loaded.error)

unfoldable pub not_enabled : Bytes
not_enabled = reply_error (codes "persistence is not enabled on this server")

unfoldable pub execute_save : Moment → Option Bytes → World → World × Bytes
unfolding reply_saved
execute_save m none w = (w, not_enabled)
execute_save m (some path) w =
    let (saved, calls) = Disk.save m.answers m.wall_clock m.clock path w.cache in
    (record w { disk = perform_all calls w.disk }, reply_saved saved)

module _ (std_hash : Bytes → ℕ) where
  unfoldable pub execute_set : ℕ → Bytes → Bytes → Option ℤ → ShardedCache → Option ShardedCache
  unfolding milliseconds
  execute_set now key value none c = do (c', _) ← Sharded.set std_hash key value c; some c'
  execute_set now key value (some seconds) c = do
    ms ← milliseconds seconds
    (c', _) ← Sharded.set_ttl std_hash now key value ms c
    some c'

  unfoldable pub execute_load : Moment → Option Bytes → World → Option (World × Bytes)
  unfolding reply_loaded
  execute_load m none w = some (w, not_enabled)
  execute_load m (some path) w = do
    (loaded, c) ← Persistence.load std_hash m.wall_clock m.clock (w.disk path) w.cache
    some (record w { cache = c }, reply_loaded loaded)

  -- The branches of the `switch`. `persistence` is the path of the snapshot, or `none` where the
  -- server has no persistence.
  unfoldable pub execute_as :
      CommandType → Moment → Option Bytes → Command → World → Option (World × Bytes)
  unfolding execute_set execute_save execute_load reply_flag reply_found reply_ttl_state
  execute_as set m persistence command w = do
    c ← execute_set m.now command.key command.value command.ttl w.cache
    some (record w { cache = c }, reply_ok)
  execute_as get m persistence command w = do
    (c, found) ← Sharded.get std_hash m.now command.key w.cache
    some (record w { cache = c }, reply_found found)
  execute_as delete m persistence command w = do
    (c, erased) ← Sharded.erase std_hash m.now command.key w.cache
    some (record w { cache = c }, reply_flag erased)
  execute_as exists m persistence command w = do
    held ← Sharded.contains std_hash m.now command.key w.cache
    some (w, reply_flag held)
  execute_as ttl m persistence command w = do
    (c, info) ← Sharded.ttl std_hash m.now command.key w.cache
    reply ← reply_ttl_state info.state info.remaining
    some (record w { cache = c }, reply)
  execute_as ping m persistence command w = some (w, reply_pong)
  execute_as save m persistence command w = some (execute_save m persistence w)
  execute_as load m persistence command w = execute_load m persistence w
  execute_as quit m persistence command w = some (w, reply_bye)

  unfoldable pub execute : Moment → Option Bytes → Command → World → Option (World × Bytes)
  unfolding execute_as
  execute m persistence command w = execute_as command.type m persistence command w
