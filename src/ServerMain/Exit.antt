-- ===== src/ServerMain/Exit.antt =====
-- How the program ends.
use cache_x.Base.{
  ℕ, ◌≡◌, ◌≢◌, refl, List, none, some, Bytes, arith, Option-cases, Bool-cases, inl, inr, length,
  if◌then◌else◌, ◌∙◌, ap,
}
use cache_x.Sharded
use cache_x.Sharded.{ShardedCache}
use cache_x.Persistence
use cache_x.Persistence.File.{render}
use cache_x.Persistence.Disk
use cache_x.Persistence.Disk.{Disk, save_text, perform_all}
use cache_x.Persistence.Atomic.{save_text-replaces}
use cache_x.CommandHandler.{Moment, World}
use cache_x.Server.Start.{Started-cases, listening, refused, start}
use cache_x.ServerMain.{
  Settings, Output, parse_arguments, create_cache, persistence, begin_wait, final_report,
}
use cache_x.ServerMain.Run.{
  Outside, Exit, options_for, save_to, shut_down, restore, run_events, serve_from, run_with, main,
}

-- The text of a save: the entries of the shards, each read at its instant.
abbrev pub saved_text : Moment → ShardedCache → Bytes
saved_text m c = render m.wall_clock (Sharded.export_entries m.clock c)

-- From the arguments to the end of `server.run()`.
pub record Served (std_hash : Bytes → ℕ) (o : Outside) (arguments : List Bytes) (disk : Disk)
    (s : Settings) (w : World) : Type 0 where
  pub accepted : parse_arguments arguments ≡ some s
  pub port : ℕ
  pub listens : start (options_for s) o.network ≡ listening port
  pub report : List Output
  pub begins : World
  pub restored :
      restore std_hash o.at_start s (record { cache = create_cache s; disk = disk })
      ≡ some (report, begins)
  pub waits : begin_wait s o.at_start.now ≡ some tt
  pub ran : run_events std_hash s o.events begins ≡ some w

-- The ways the program ends; `w` is what the program has when the server stops.
pub data Ended (std_hash : Bytes → ℕ) (o : Outside) (arguments : List Bytes) (disk : Disk)
    (e : Exit) : Type 0 where
  misused :
      parse_arguments arguments ≡ none
      → e.code ≡ 2
      → e.world.disk ≡ disk
      → Ended std_hash o arguments disk e
  not_started :
      (s : Settings) (error : Bytes)
      → parse_arguments arguments ≡ some s
      → start (options_for s) o.network ≡ refused error
      → e.code ≡ 1
      → e.world.disk ≡ disk
      → Ended std_hash o arguments disk e
  stopped :
      (s : Settings) (w : World)
      → Served std_hash o arguments disk s w
      → persistence s ≡ none
      → e.code ≡ 0
      → e.world ≡ w
      → Ended std_hash o arguments disk e
  saved :
      (s : Settings) (w : World) (path : Bytes)
      → Served std_hash o arguments disk s w
      → persistence s ≡ some path
      → e.code ≡ 0
      → e.world.cache ≡ w.cache
      → e.world.disk path ≡ some (saved_text o.at_end w.cache)
      → Ended std_hash o arguments disk e
  not_saved :
      (s : Settings) (w : World) (path : Bytes)
      → Served std_hash o arguments disk s w
      → persistence s ≡ some path
      → e.code ≡ 1
      → e.world.cache ≡ w.cache
      → e.world.disk path ≡ w.disk path
      → Ended std_hash o arguments disk e

persistence-path :
    (s : Settings) (path : Bytes) → persistence s ≡ some path → s.snapshot_path ≡ path
unfolding persistence
persistence-path s path h = ground (arith, h)

-- The last save, with or without success.
save_to-ok :
    (path : Bytes) (m : Moment) (w : World)
    → m.answers.temp_path ≢ path
    → ((save_to path m w).1.cache ≡ w.cache)
      × ((save_to path m w).1.disk path
          ≡ (if (save_to path m w).0.ok then some (saved_text m w.cache) else w.disk path))
unfolding save_to Disk.save
save_to-ok path m w apart =
    let es = Sharded.export_entries m.clock w.cache in
    (refl, (save_text-replaces m.answers path (length es) (render m.wall_clock es) w.disk apart).0)

module _ (std_hash : Bytes → ℕ) (o : Outside) (arguments : List Bytes) (disk : Disk) where
  shut_down-Ended :
      (s : Settings) (w : World) (e : Exit)
      → o.at_end.answers.temp_path ≢ s.snapshot_path
      → Served std_hash o arguments disk s w
      → e.code ≡ (shut_down o s w).code
      → e.world ≡ (shut_down o s w).world
      → Ended std_hash o arguments disk e
  unfolding shut_down final_report
  shut_down-Ended s w e apart served code world = elim (Option-cases (persistence s)) [
    | inl off ↦ stopped s w served off (ground (arith, off, code)) (ground (arith, off, world))
    | inr (path, on) ↦
        let (cache, file) = save_to-ok path o.at_end w (rw (persistence-path s path on) at apart) in
        let same : e.world ≡ (save_to path o.at_end w).1 = ground (arith, on, world) in
        let cache' : e.world.cache ≡ w.cache = ap (λ (x : World). x.cache) same ∙ cache in
        let file' = ap (λ (x : World). x.disk path) same ∙ file in
        elim (Bool-cases (save_to path o.at_end w).0.ok) [
          | inl ok ↦
              saved s w path served on (ground (arith, on, ok, code)) cache'
                (ground (arith, ok, file'))
          | inr failed ↦
              not_saved s w path served on (ground (arith, on, failed, code)) cache'
                (ground (arith, failed, file'))
        ]
  ]

  restore-disk :
      (s : Settings) (w w' : World) (report : List Output)
      → restore std_hash o.at_start s w ≡ some (report, w')
      → w'.disk ≡ w.disk
  unfolding restore
  restore-disk s w w' report done = elim (Option-cases (persistence s)) [
    | inl off ↦ ground (arith, off, done)
    | inr (path, on) ↦
        elim (Option-cases (
          Persistence.load std_hash o.at_start.wall_clock o.at_start.clock (w.disk path) w.cache)) [
            | inl undefined ↦ absurd (ground (arith, on, undefined, done))
            | inr ((result, c), ran) ↦ ground (arith, on, ran, done)
          ]
  ]

  run_with-Ended :
      (s : Settings) (e : Exit)
      → parse_arguments arguments ≡ some s
      → o.at_end.answers.temp_path ≢ s.snapshot_path
      → run_with std_hash o s disk ≡ some e
      → Ended std_hash o arguments disk e
  unfolding run_with serve_from
  run_with-Ended s e accepted apart done =
      let w₀ : World = record { cache = create_cache s; disk = disk } in
      elim (Option-cases (restore std_hash o.at_start s w₀)) [
        | inl undefined ↦ absurd (ground (arith, undefined, done))
        | inr ((report, w), restored) ↦
            let same = restore-disk s w₀ w report restored in
            elim (Started-cases (start (options_for s) o.network)) [
              | inr (error, refuses) ↦
                  not_started s error accepted refuses (ground (arith, restored, refuses, done))
                    (ground (arith, restored, refuses, done, same))
              | inl (port, listens) ↦ elim (Option-cases (begin_wait s o.at_start.now)) [
                | inl overflows ↦ absurd (ground (arith, restored, listens, overflows, done))
                | inr (_, waits) ↦ elim (Option-cases (run_events std_hash s o.events w)) [
                  | inl undefined ↦
                      absurd (ground (arith, restored, listens, waits, undefined, done))
                  | inr (w', ran) ↦
                      shut_down-Ended s w' e apart
                        (record {
                          accepted = accepted;
                          port = port;
                          listens = listens;
                          report = report;
                          begins = w;
                          restored = restored;
                          waits = waits;
                          ran = ran;
                        })
                        (ground (arith, restored, listens, waits, ran, done))
                        (ground (arith, restored, listens, waits, ran, done))
                ]
              ]
            ]
      ]

  -- The exit code says how the program went. It is 2 for arguments that are not accepted and 1 for a
  -- port that cannot be listened on, and then no file is touched; 0 if the server has run and either
  -- has no snapshot or has its whole content in it; 1 if the last save failed, and then the snapshot
  -- is the one before that save. The temporary path must not be the path of the snapshot.
  pub main-Ended :
      (e : Exit)
      → ((s : Settings)
          → parse_arguments arguments ≡ some s
          → o.at_end.answers.temp_path ≢ s.snapshot_path)
      → main std_hash o arguments disk ≡ some e
      → Ended std_hash o arguments disk e
  unfolding main
  main-Ended e apart done = elim (Option-cases (parse_arguments arguments)) [
    | inl bad ↦ misused bad (ground (arith, bad, done)) (ground (arith, bad, done))
    | inr (s, good) ↦ run_with-Ended s e good (apart s good) (ground (arith, good, done))
  ]
