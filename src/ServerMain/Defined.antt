-- ===== src/ServerMain/Defined.antt =====
-- The program runs without undefined behaviour.
use mathlib.Core.Path.{subst}
use cache_x.Base.{
  ℕ, ◌+◌, ◌*◌, ◌^◌, ◌<◌, ◌≡◌, refl, sym, ap, ◌∙◌, List, [], ◌∷◌, Option, none, some, Bytes, true,
  arith, Option-cases, Bool-cases, inl, inr, ltb, ℤ, pos,
}
use cache_x.Cache.{Cache}
use cache_x.Sharded.Shards.{AllValid}
use cache_x.Protocol.{Command, parse_command, max_ttl_seconds}
use cache_x.Persistence
use cache_x.Persistence.{LoadResult}
use cache_x.Persistence.Disk.{Disk}
use cache_x.Persistence.Restore.{AllEmpty}
use cache_x.CommandHandler.{Moment, World, as_long_long}
use cache_x.CommandHandler.Deadlines.{DeadlinesFit, AllSound}
use cache_x.CommandHandler.Defined.{is_load, execute-parse_command}
use cache_x.Connection.Defined.{IsSoundWorld}
use cache_x.Server.Start.{Started-cases, start}
use cache_x.ServerMain.{
  Settings, Output, parse_arguments, create_cache, persistence, saver_interval, wait_deadline,
  begin_wait, restored_report,
}
use cache_x.ServerMain.Settled.{
  create_cache-AllEmpty, create_cache-AllValid, create_cache-some_shard,
}
use cache_x.ServerMain.Run.{
  Event, command, autosave, Outside, Exit, options_for, autosave_to, restore, run_event, run_events,
  serve_from, run_with, main,
}

-- The interval of the saver, if there is one, ends within the range of the clock.
abbrev pub WaitFits : Settings → ℕ → Type 0
WaitFits s now =
    (seconds : ℤ) → saver_interval s ≡ some seconds → now + s.save_interval * 1000000000 < 2 ^ 63

-- What the clients may send: any line that the parser accepts, at a time that is far enough from the
-- end of the clock, but LOAD only to a server without persistence. After a save the saver waits
-- again.
abbrev pub AllAccepted : Settings → List Event → Type 0
AllAccepted s [] = Unit {0}
AllAccepted s (autosave m ∷ es) = WaitFits s m.now × AllAccepted s es
AllAccepted s (command m c ∷ es) =
    ((line : Bytes) × ((parse_command line).ok ≡ true)
      × ((parse_command line).command ≡ c)
      × (is_load c.type ≡ true → persistence s ≡ none)
      × (m.now + max_ttl_seconds * 1000000000 < 2 ^ 63))
    × AllAccepted s es

as_long_long-pos : (n : ℕ) → n < 2 ^ 63 → as_long_long n ≡ pos n
unfolding as_long_long
as_long_long-pos n h = ground (arith, h)

begin_wait-defined : (s : Settings) (now : ℕ) → WaitFits s now → begin_wait s now ≡ some tt
unfolding begin_wait wait_deadline saver_interval
begin_wait-defined s now fits = elim (Option-cases (persistence s)) [
  | inl off ↦ ground (arith, off)
  | inr (path, on) ↦ elim (Bool-cases (ltb 0 s.save_interval)) [
    | inr never ↦ ground (arith, on, never)
    | inl saves ↦
        let time = fits (as_long_long s.save_interval) (ground (arith, on, saves)) in
        let cast = as_long_long-pos s.save_interval (omega (arith, time)) in
        ground (arith, on, saves, cast, time)
  ]
]

AllEmpty-AllSound : (cs : List Cache) → AllValid cs → AllEmpty cs → AllSound cs
AllEmpty-AllSound [] v h = tt
AllEmpty-AllSound (c ∷ cs) v h =
    ((v.0, subst DeadlinesFit (sym h.0) tt), AllEmpty-AllSound cs v.1 h.1)

create_cache-IsSoundWorld :
    (s : Settings) (disk : Disk) → IsSoundWorld (record { cache = create_cache s; disk = disk })
create_cache-IsSoundWorld s disk = (
  AllEmpty-AllSound (create_cache s).shards (create_cache-AllValid s) (create_cache-AllEmpty s),
  create_cache-some_shard s,
)

module _ (std_hash : Bytes → ℕ) where
  run_event-defined :
      (s : Settings) (m : Moment) (line : Bytes) (w : World)
      → (parse_command line).ok ≡ true
      → (is_load (parse_command line).command.type ≡ true → persistence s ≡ none)
      → m.now + max_ttl_seconds * 1000000000 < 2 ^ 63
      → IsSoundWorld w
      → (w' : World) × (run_event std_hash s (command m (parse_command line).command) w ≡ some w')
        × IsSoundWorld w'
  unfolding run_event
  run_event-defined s m line w ok l time h =
      let (w', reply, ran, sound, count) =
        execute-parse_command std_hash m (persistence s) line w ok l time h.0 h.1 in
      (w', ground (arith, ran), (sound, omega (arith, count, h.1)))

  autosave_to-IsSoundWorld :
      (path : Option Bytes) (interval : Option ℤ) (m : Moment) (w : World)
      → IsSoundWorld w
      → IsSoundWorld (autosave_to path interval m w)
  unfolding autosave_to
  autosave_to-IsSoundWorld none interval m w h = h
  autosave_to-IsSoundWorld (some path) none m w h = h
  autosave_to-IsSoundWorld (some path) (some _) m w h = h

  run_events-defined :
      (s : Settings) (es : List Event) (w : World)
      → AllAccepted s es
      → IsSoundWorld w
      → (w' : World) × (run_events std_hash s es w ≡ some w')
  unfolding run_events run_event
  run_events-defined s [] w a h = (w, refl)
  run_events-defined s (autosave m ∷ es) w (fits, a) h =
      let (w', rest) =
        run_events-defined s es (autosave_to (persistence s) (saver_interval s) m w) a
          (autosave_to-IsSoundWorld (persistence s) (saver_interval s) m w h) in
      (w', ground (arith, begin_wait-defined s m.now fits, rest))
  run_events-defined s (command m c ∷ es) w ((line, ok, same, l, time), a) h =
      let (t, one, sound) =
        run_event-defined s m line w ok
          (λ e. l (ap (λ (x : Command). is_load x.type) (sym same) ∙ e)) time h in
      let one' : run_event std_hash s (command m c) w ≡ some t =
        ap (λ x. run_event std_hash s (command m x) w) (sym same) ∙ one in
      let (w', rest) = run_events-defined s es t a sound in (w', ground (arith, one', rest))

  restore-cold :
      (m : Moment) (s : Settings) (w : World)
      → ((path : Bytes) → persistence s ≡ some path → w.disk path ≡ none)
      → (report : List Output) × (restore std_hash m s w ≡ some (report, w))
  unfolding restore Persistence.load
  restore-cold m s w cold = elim (Option-cases (persistence s)) [
    | inl off ↦ ([], ground (arith, off))
    | inr (path, on) ↦ (restored_report path nothing, ground (arith, on, cold path on))
  ]
    where
      nothing : LoadResult
      nothing = record { ok = true; loaded = 0; expired = 0; error = [] }

  -- A server that starts without a snapshot runs to its end, whatever accepted commands its clients
  -- send and however the calls of the operating system go: nothing that it does is undefined. At
  -- every command the clock must be a longest time to live from the end of its range, and an interval
  -- of the saver from it whenever the saver begins to wait. Left out is a LOAD on a server with
  -- persistence, whose file may hold numbers that overflow.
  pub main-defined :
      (o : Outside) (arguments : List Bytes) (disk : Disk) (s : Settings)
      → parse_arguments arguments ≡ some s
      → ((path : Bytes) → persistence s ≡ some path → disk path ≡ none)
      → WaitFits s o.at_start.now
      → AllAccepted s o.events
      → (e : Exit) × (main std_hash o arguments disk ≡ some e)
  unfolding main run_with serve_from
  main-defined o arguments disk s accepted cold fits a =
      let w : World = record { cache = create_cache s; disk = disk } in
      let (report, restored) = restore-cold o.at_start s w cold in
      let waits = begin_wait-defined s o.at_start.now fits in
      let (w', ran) = run_events-defined s o.events w a (create_cache-IsSoundWorld s disk) in
      elim (Option-cases (main std_hash o arguments disk)) [
        | inr (e, done) ↦ (e, done)
        | inl undefined ↦ elim (Started-cases (start (options_for s) o.network)) [
          | inr (error, refuses) ↦ absurd (ground (arith, accepted, restored, refuses, undefined))
          | inl (port, listens) ↦
              absurd (ground (arith, accepted, restored, listens, waits, ran, undefined))
        ]
      ]
