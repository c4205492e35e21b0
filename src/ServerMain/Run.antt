-- ===== src/ServerMain/Run.antt =====
-- `main` of src/server_main.cpp. What happens between the start of the server and its stop is a
-- sequence: the commands of the clients, in the order in which they take effect, and the saves of
-- the `PeriodicSaver`. `now` of a save and of the start is the instant at which the saver begins its
-- next wait.
use cache_x.Base.{ℕ, List, [], ◌∷◌, ◌++◌, Option, none, some, Bytes, ℤ, ◌>>=◌}
use cache_x.Protocol.{Command}
use cache_x.Persistence
use cache_x.Persistence.Disk
use cache_x.Persistence.Disk.{Disk, perform_all}
use cache_x.CommandHandler.{Moment, World, execute}
use cache_x.Server.Start.{Options, default_options, Network, listening, refused, start}
use cache_x.ServerMain.{
  Settings, parse_arguments, create_cache, persistence, saver_interval, begin_wait, Output, err,
  usage, restored_report, banner, shutdown_report, final_report,
}
use cache_x.Base.{codes}

pub data Event : Type 0 where
  command : Moment → Command → Event
  autosave : Moment → Event

-- What the program meets: its name and the version, the clocks when it starts and when it ends, the
-- answers of the network, and what happens while it runs.
pub record Outside : Type 0 where
  pub program : Bytes
  pub version : Bytes
  pub at_start : Moment
  pub network : Network
  pub events : List Event
  pub connections_served : ℕ
  pub at_end : Moment

pub record Exit : Type 0 where
  pub code : ℕ
  pub console : List Output
  pub world : World

abbrev pub options_for : Settings → Options
options_for s = record default_options { port = s.port }

-- A save to a path: its result, and the files behind it.
unfoldable pub save_to : Bytes → Moment → World → Disk.SaveResult × World
save_to path m w =
    let (saved, calls) = Disk.save m.answers m.wall_clock m.clock path w.cache in
    (saved, record w { disk = perform_all calls w.disk })

unfoldable pub autosave_to : Option Bytes → Option ℤ → Moment → World → World
unfolding save_to
autosave_to none interval m w = w
autosave_to (some path) none m w = w
autosave_to (some path) (some _) m w = (save_to path m w).1

-- From the end of `run` on.
unfoldable pub shut_down : Outside → Settings → World → Exit
unfolding save_to
shut_down o s w = elim (persistence s) [
  | none ↦ record { code = 0; console = shutdown_report o.connections_served w.cache; world = w }
  | some path ↦
      let (saved, w') = save_to path o.at_end w in
      let (report, code) = final_report path saved in
      record {
        code = code;
        console = shutdown_report o.connections_served w.cache ++ report;
        world = w';
      }
]

module _ (std_hash : Bytes → ℕ) where
  -- A failed load has left the cache as it was, and the program goes on.
  unfoldable pub restore : Moment → Settings → World → Option (List Output × World)
  restore m s w = elim (persistence s) [
    | none ↦ some ([], w)
    | some path ↦ do
      (restored, c) ← Persistence.load std_hash m.wall_clock m.clock (w.disk path) w.cache
      some (restored_report path restored, record w { cache = c })
  ]

  unfoldable pub run_event : Settings → Event → World → Option World
  run_event s (command m c) w = do (w', _) ← execute std_hash m (persistence s) c w; some w'
  run_event s (autosave m) w = do
    _ ← begin_wait s m.now
    some (autosave_to (persistence s) (saver_interval s) m w)

  unfoldable pub run_events : Settings → List Event → World → Option World
  unfolding run_event
  run_events s [] w = some w
  run_events s (e ∷ es) w = do w' ← run_event s e w; run_events s es w'

  -- The server has been started, or could not be.
  unfoldable pub serve_from : Outside → Settings → World → Option Exit
  serve_from o s w = elim (start (options_for s) o.network) [
    | refused error ↦ some (record {
      code = 1;
      console = err (codes "cachex-server: " ++ error ++ 10 ∷ []) ∷ [];
      world = w;
    })
    | listening bound_port ↦ do
      _ ← begin_wait s o.at_start.now
      w' ← run_events s o.events w
      let exit = shut_down o s w'
      some (record exit {
        console =
            banner o.version default_options.host bound_port default_options.max_connections s
              w.cache
            ++ exit.console;
      })
  ]

  unfoldable pub run_with : Outside → Settings → Disk → Option Exit
  unfolding serve_from
  run_with o s disk = do
    (report, w) ← restore o.at_start s (record { cache = create_cache s; disk = disk })
    exit ← serve_from o s w
    some (record exit { console = report ++ exit.console })

  -- Without its arguments in order the program has no cache yet.
  unfoldable pub main : Outside → List Bytes → Disk → Option Exit
  unfolding run_with
  main o arguments disk = elim (parse_arguments arguments) [
    | none ↦ some (record {
      code = 2;
      console = usage o.program;
      world = record { cache = record { shards = [] }; disk = disk };
    })
    | some s ↦ run_with o s disk
  ]
