-- ===== src/ServerMain/Tests.antt =====
-- The theorems about the server program at a small input.
use cache_x.Base.{
  ℕ, ◌≡◌, ◌≢◌, ◌↔◌, ◌-◌, ◌≤◌, refl, List, [], ◌∷◌, Option, none, some, Bytes, codes, true, length,
  get_elem?, arith,
}
use cache_x.Cache.{Cache, bounded}
use cache_x.Protocol.{parse_command}
use cache_x.Cache
use cache_x.Index
use cache_x.Sharded
use cache_x.Sharded.{create_bounded, shard_index_for}
use cache_x.Persistence
use cache_x.Recency.{entries, insert_newest, oldest, pop_oldest}
use cache_x.Persistence.File.{render, render_entries, render_entry}
use cache_x.Persistence.Load.{replay_ops}
use cache_x.Persistence.Disk
use cache_x.Persistence.Disk.{Disk}
use cache_x.Persistence.Restore.{IsRestored}
use cache_x.CommandHandler.{Moment, World, as_long_long, execute}
use cache_x.Socket.{parse_port}
use cache_x.Decimal.{read_magnitude, print_ℤ}
use cache_x.Server.Start.{start}
use cache_x.ServerMain.{
  Settings, Output, parse_count, final_report, parse_arguments, create_cache, persistence,
  saver_interval, wait_deadline, begin_wait,
}
use cache_x.Sharded.Bound.{held}
use cache_x.ServerMain.Capacity.{run_events-size}
use cache_x.ServerMain.Run.{
  Event, command, autosave, autosave_to, Outside, Exit, restore, run_events, shut_down, main,
}
use cache_x.ServerMain.Arguments.{Describes, parse_arguments-eq_iff}
use cache_x.CommandHandler.Defined.{is_load}
use cache_x.ServerMain.Defined.{main-defined}
use cache_x.ServerMain.Exit.{Ended, main-Ended}
use cache_x.ServerMain.Restart.{InRange, main-restore}

abbrev moment : Moment
moment = record {
  now = 1000;
  clock = λ i. 1000;
  wall_clock = 5;
  answers = record {
    temp_path = codes "t";
    opens = true;
    pieces =
        codes "CACHEX-SNAPSHOT 1 5"
        ∷ (10 ∷ codes "1")
        ∷ (10 ∷ codes "1 1 -1")
        ∷ (10 ∷ codes "a1")
        ∷ (10 ∷ [])
        ∷ [];
    renames = true;
    reason = [];
  };
}

abbrev outside : Outside
outside = record {
  program = codes "cachex-server";
  version = codes "1.0";
  at_start = moment;
  network = record {
    socket = none;
    parses = true;
    bind = none;
    listen = none;
    getsockname = some 4000;
  };
  events = command moment (parse_command (codes "SET a 1")).command ∷ autosave moment ∷ [];
  connections_served = 1;
  at_end = moment;
}

abbrev arguments : List Bytes
arguments = codes "0" ∷ codes "2" ∷ codes "1" ∷ codes "s" ∷ codes "60" ∷ []

abbrev files : Disk
files = λ _. none

abbrev hash : Bytes → ℕ
hash = λ k. length k

abbrev given : Settings
given = record { port = 0; capacity = 2; shards = 1; snapshot_path = codes "s"; save_interval = 60 }

accepted : parse_arguments arguments ≡ some given
unfolding parse_arguments parse_port read_magnitude parse_count
accepted = refl

abbrev or_nothing : Option Exit → Exit
or_nothing none = record {
  code = 3;
  console = [];
  world = record { cache = record { shards = [] }; disk = files };
}
or_nothing (some e) = e

abbrev final : Exit
final = or_nothing (main hash outside arguments files)

-- A minute later, with the clock started anew.
abbrev later : Moment
later = record moment { wall_clock = 60005 }

abbrev one_shard : Cache
one_shard = elim (get_elem? final.world.cache.shards 0) [ none ↦ bounded 0 | some c ↦ c ]

main_runs :
    (main hash outside arguments files ≡ some final)
    × (final.code ≡ 0)
    × InRange moment later final.world.cache
    × (get_elem? final.world.cache.shards 0 ≡ some one_shard)
unfolding main parse_arguments parse_port read_magnitude parse_count restore persistence
    saver_interval wait_deadline begin_wait autosave_to as_long_long Persistence.load start
    run_events execute parse_command Sharded.set create_cache create_bounded shard_index_for
    Cache.set Cache.store Index.find Cache.trim Index.emplace shut_down final_report Disk.save
    render Sharded.export_entries Cache.export_entries entries insert_newest render_entries
    render_entry print_ℤ replay_ops
main_runs = (
  refl,
  refl,
  record { clock = omega arith; lifetimes = (tt, tt); size = omega arith; deadlines = (tt, tt) },
  refl,
)

apart : codes "t" ≢ codes "s"
apart = λ e. absurd (ground (arith, e))

apart_given : (s : Settings) → parse_arguments arguments ≡ some s → codes "t" ≢ s.snapshot_path
apart_given s e = let same : given ≡ s = ground (arith, accepted, e) in rw (← same) apart

main-Ended_example : Ended hash outside arguments files final
main-Ended_example = main-Ended hash outside arguments files final apart_given main_runs.0

path_given : persistence given ≡ some (codes "s")
unfolding persistence
path_given = refl

main-restore_example :
    (report : List Output) × (w' : World) × (c' : Cache) × (restore hash later given
        (record { cache = create_cache given; disk = final.world.disk })
      ≡ some (report, w'))
    × (get_elem? w'.cache.shards 0 ≡ some c')
    × IsRestored 1000 (60005 - 5) one_shard c'
main-restore_example =
    main-restore hash outside arguments files given (codes "s") final later accepted path_given
      apart main_runs.0 main_runs.1 main_runs.2 0 one_shard main_runs.3

line-ok : (parse_command (codes "SET a 1")).ok ≡ true
unfolding parse_command
line-ok = refl

no_load : is_load (parse_command (codes "SET a 1")).command.type ≡ true → persistence given ≡ none
unfolding parse_command
no_load = λ e. absurd (ground (arith, e))

main-defined_example : (e : Exit) × (main hash outside arguments files ≡ some e)
main-defined_example =
    main-defined hash outside arguments files given accepted (λ path on. refl)
      (λ seconds on. omega arith)
      ((codes "SET a 1", line-ok, refl, no_load, omega arith), ((λ seconds on. omega arith), tt))

parse_arguments-eq_iff_example :
    (parse_arguments arguments ≡ some given) ↔ Describes arguments given
parse_arguments-eq_iff_example = parse_arguments-eq_iff arguments given

-- Three keys in a cache for two.
abbrev three : List Event
three =
    command moment (parse_command (codes "SET a 1")).command
    ∷ command moment (parse_command (codes "SET b 2")).command
    ∷ command moment (parse_command (codes "SET c 3")).command
    ∷ []

abbrev empty_world : World
empty_world = record { cache = record { shards = [] }; disk = files }

abbrev started : List Output × World
started = elim (restore hash moment given (record { cache = create_cache given; disk = files })) [
  | none ↦ ([], empty_world)
  | some r ↦ r
]

abbrev filled : World
filled = elim (run_events hash given three started.1) [ none ↦ empty_world | some w ↦ w ]

three_run :
    (restore hash moment given (record { cache = create_cache given; disk = files }) ≡ some started)
    × (run_events hash given three started.1 ≡ some filled)
unfolding restore persistence Persistence.load run_events execute parse_command Sharded.set
    create_cache create_bounded shard_index_for Cache.set Cache.store Index.find Cache.trim
    Index.emplace insert_newest oldest pop_oldest Index.erase
three_run = (refl, refl)

run_events-size_example : (held filled.cache ≤ 2) × (Sharded.size filled.cache ≡ held filled.cache)
run_events-size_example =
    run_events-size hash given moment files started.0 started.1 three filled (omega arith)
      (omega arith) three_run.0 three_run.1
