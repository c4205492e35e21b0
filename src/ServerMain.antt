-- ===== src/ServerMain.antt =====
-- src/server_main.cpp: the server program, from its arguments to its exit code.
-- The arguments are those behind the name of the program. `none` of the whole program is undefined
-- behaviour, as in the cache.
pub mod Run
pub mod Settled
pub mod Defined
pub mod Arguments
pub mod Exit
pub mod Restart
pub mod Capacity
mod Tests
use cache_x.Base.{
  ℕ, suc, ◌+◌, ◌*◌, ◌^◌, List, [], ◌∷◌, ◌++◌, Option, none, some, Bytes, codes, ltb, leb, ℤ, pos,
  negsuc, if◌then◌else◌, length, get_elem?, ◌>>=◌,
}
use cache_x.Decimal.{print_ℕ, read_magnitude}
use cache_x.Sharded
use cache_x.Sharded.{ShardedCache, create, create_bounded}
use cache_x.Socket.{parse_port}
use cache_x.CommandHandler.{as_long_long}
use cache_x.Persistence
use cache_x.Persistence.{LoadResult}
use cache_x.Persistence.Disk.{SaveResult, Disk}

-- The variables that the arguments set.
pub record Settings : Type 0 where
  pub port : ℕ
  pub capacity : ℕ
  pub shards : ℕ
  pub snapshot_path : Bytes
  pub save_interval : ℕ

-- `std::from_chars` for a `std::size_t` takes digits only.
unfoldable pub parse_count : Bytes → Option ℕ
parse_count text = elim (read_magnitude (2 ^ 64) text) [
  | none ↦ none
  | some (value, []) ↦ some value
  | some (value, _ ∷ _) ↦ none
]

-- The argument at a position, if it is there, and what the variable starts with if not.
unfoldable pub argument {ℓ} : {A : Type ℓ} → List Bytes → ℕ → (Bytes → Option A) → A → Option A
argument arguments i parse default = elim (get_elem? arguments i) [
  | none ↦ some default
  | some text ↦ parse text
]

-- The path is taken as it is. `none` where the program prints its usage.
unfoldable pub parse_arguments : List Bytes → Option Settings
unfolding argument
parse_arguments arguments =
    let settings = (do
      port ← argument arguments 0 parse_port 6379
      capacity ← argument arguments 1 parse_count 0
      shards ← argument arguments 2 parse_count 8
      save_interval ← argument arguments 4 parse_count 0
      snapshot_path ← argument arguments 3 (λ path. some path) []
      some (record {
        port = port;
        capacity = capacity;
        shards = shards;
        snapshot_path = snapshot_path;
        save_interval = save_interval;
      })) in
    if ltb 5 (length arguments) then none else settings

unfoldable pub create_cache : Settings → ShardedCache
create_cache s = if ltb 0 s.capacity then create_bounded s.shards s.capacity else create s.shards

-- The path of the snapshot, if the server has persistence.
unfoldable pub persistence : Settings → Option Bytes
persistence s = elim s.snapshot_path [ [] ↦ none | c ∷ cs ↦ some (c ∷ cs) ]

-- The interval of the `PeriodicSaver`, in seconds, if there is one: a count that is cast to a
-- `long long`.
unfoldable pub saver_interval : Settings → Option ℤ
unfolding persistence
saver_interval s = elim (persistence s) [
  | none ↦ none
  | some _ ↦ if ltb 0 s.save_interval then some (as_long_long s.save_interval) else none
]

-- The instant up to which `wait_for` waits: the seconds are turned into nanoseconds and added to the
-- clock, in 64 bits.
unfoldable pub wait_deadline : ℕ → ℤ → Option ℤ
wait_deadline now (pos seconds) =
    if ltb (now + seconds * 1000000000) (2 ^ 63)
    then some (pos (now + seconds * 1000000000))
    else none
wait_deadline now (negsuc n) =
    if leb (suc n * 1000000000) (2 ^ 63)
    then Persistence.subtract (pos now) (pos (suc n * 1000000000))
    else none

-- Each round of the saver's thread begins with a wait, also the one in which it finds that it is to
-- stop.
unfoldable pub begin_wait : Settings → ℕ → Option (Unit {0})
begin_wait s now = elim (saver_interval s) [
  | none ↦ some tt
  | some seconds ↦ do _ ← wait_deadline now seconds; some tt
]

-- What the program prints, on `std::cout` or on `std::cerr`.
pub data Output : Type 0 where
  out err : Bytes → Output

unfoldable pub usage : Bytes → List Output
usage program =
    err (
      codes "usage: "
      ++ program
      ++ codes " [port] [capacity] [shards] [snapshot] [save-secs]"
      ++ 10 ∷ codes "  port       TCP port to listen on (default 6379)"
      ++ 10 ∷ codes "  capacity   maximum entries total, 0 for unbounded (default 0)"
      ++ 10 ∷ codes "  shards     independently locked shards (default 8)"
      ++ 10 ∷ codes "  snapshot   snapshot file path; enables SAVE/LOAD (default off)"
      ++ 10 ∷ codes "  save-secs  auto-save interval in seconds, 0 to disable"
      ++ 10 ∷ [])
    ∷ []

unfoldable pub restored_report : Bytes → LoadResult → List Output
restored_report path restored =
    if restored.ok
    then (if ltb 0 restored.loaded then told else (if ltb 0 restored.expired then told else []))
    else err (codes "cachex-server: ignoring snapshot: " ++ restored.error ++ 10 ∷ []) ∷ []
  where
    told : List Output
    told =
        out (
          codes "restored "
          ++ print_ℕ restored.loaded
          ++ codes " entries from "
          ++ path
          ++ codes " ("
          ++ print_ℕ restored.expired
          ++ codes " already expired)"
          ++ 10 ∷ [])
        ∷ []

-- The line about the capacity, and the one about the snapshot.
unfoldable pub capacity_text : ℕ → Bytes
capacity_text capacity =
    if ltb 0 capacity then print_ℕ capacity ++ codes " entries" else codes "unbounded"

unfoldable pub snapshot_text : Settings → Bytes
snapshot_text s = elim s.snapshot_path [
  | [] ↦ codes "disabled"
  | c ∷ cs ↦
      (c ∷ cs)
      ++ (if ltb 0 s.save_interval
          then codes " (auto-save every " ++ print_ℕ s.save_interval ++ codes "s)"
          else codes " (SAVE/LOAD only)")
]

unfoldable pub banner : Bytes → Bytes → ℕ → ℕ → Settings → ShardedCache → List Output
unfolding capacity_text snapshot_text
banner version host bound_port max_connections s cache =
    out (
      codes "CacheX "
      ++ version
      ++ codes " listening on "
      ++ host
      ++ codes ":"
      ++ print_ℕ bound_port
      ++ 10 ∷ codes "capacity: "
      ++ capacity_text s.capacity
      ++ 10 ∷ codes "shards: "
      ++ print_ℕ (Sharded.shard_count cache)
      ++ 10 ∷ codes "snapshot: "
      ++ snapshot_text s
      ++ 10 ∷ codes "thread-per-connection, max "
      ++ print_ℕ max_connections
      ++ codes " concurrent clients"
      ++ 10 ∷ codes "press Ctrl-C to stop"
      ++ 10 ∷ [])
    ∷ []

unfoldable pub shutdown_report : ℕ → ShardedCache → List Output
shutdown_report connections_served cache =
    out (
      10 ∷ codes "[cachex] shutting down after "
      ++ print_ℕ connections_served
      ++ codes " connection(s); "
      ++ print_ℕ (Sharded.size cache)
      ++ codes " entries in cache"
      ++ 10 ∷ [])
    ∷ []

-- The last save: its report, and the exit code.
unfoldable pub final_report : Bytes → SaveResult → List Output × ℕ
final_report path saved =
    if saved.ok
    then (
      out (
            codes "[cachex] saved "
            ++ print_ℕ saved.entries
            ++ codes " entries to "
            ++ path
            ++ codes " ("
            ++ print_ℕ saved.bytes
            ++ codes " bytes)"
            ++ 10 ∷ [])
          ∷ [],
      0,
    )
    else (err (codes "[cachex] final save failed: " ++ saved.error ++ 10 ∷ []) ∷ [], 1)
