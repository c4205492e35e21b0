-- ===== src/ServerMain/Capacity.antt =====
-- The capacity that the server program is started with is never exceeded.
use mathlib.Core.Path.{subst}
use cache_x.Base.{ℕ, ◌≤◌, ◌<◌, ◌^◌, ◌≡◌, List, some, Bytes, arith}
use cache_x.Sharded
use cache_x.Sharded.{ShardedCache, create_bounded}
use cache_x.Sharded.Home.{IsSettled, capacities}
use cache_x.Sharded.Bound.{held, size-create_bounded}
use cache_x.Persistence.Disk.{Disk}
use cache_x.CommandHandler.{Moment, World}
use cache_x.ServerMain.{Settings, Output, create_cache}
use cache_x.ServerMain.Run.{Event, restore, run_events}
use cache_x.ServerMain.Settled.{
  caps_for, create_cache-IsSettled, restore-IsSettled, run_events-IsSettled,
}

create_cache-bounded :
    (s : Settings) → 0 < s.capacity → create_cache s ≡ create_bounded s.shards s.capacity
unfolding create_cache
create_cache-bounded s h = ground arith

-- A server that is started with a capacity never holds more entries, in all of its shards together:
-- not after the snapshot is restored, however large it is, and not after any commands of clients,
-- LOAD among them, and any saves. `size` gives their number. The capacity is one of `size_t`.
pub run_events-size :
    (std_hash : Bytes → ℕ) (s : Settings) (m : Moment) (disk : Disk) (report : List Output)
    (begins : World) (events : List Event) (w : World)
    → 0 < s.capacity
    → s.capacity < 2 ^ 64
    → restore std_hash m s (record { cache = create_cache s; disk = disk }) ≡ some (report, begins)
    → run_events std_hash s events begins ≡ some w
    → (held w.cache ≤ s.capacity) × (Sharded.size w.cache ≡ held w.cache)
run_events-size std_hash s m disk report begins events w bounded small restored ran =
    let settled : IsSettled std_hash (caps_for s) w.cache =
      run_events-IsSettled std_hash (caps_for s) s events begins w
        (restore-IsSettled std_hash (caps_for s) m s
          (record { cache = create_cache s; disk = disk }) begins report
          (create_cache-IsSettled std_hash s) restored)
        ran in
    size-create_bounded std_hash s.shards s.capacity w.cache small (
      subst (λ (c : ShardedCache). IsSettled std_hash (capacities c.shards) w.cache)
        (create_cache-bounded s bounded) settled)
