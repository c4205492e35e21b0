-- ===== src/ServerMain/Restart.antt =====
-- A server that has ended well, and the next one with the same arguments.
use mathlib.Core.Path.{subst}
use cache_x.Base.{
  ℕ, ◌-◌, ◌^◌, ◌<◌, ◌≡◌, ◌≢◌, sym, ap, ◌∙◌, List, some, Bytes, reverse, length, get_elem?, arith,
}
use cache_x.Cache.{Cache}
use cache_x.Cache.Run.{AllInRange}
use cache_x.Sharded
use cache_x.Sharded.{ShardedCache}
use cache_x.Sharded.Home.{IsSettled}
use cache_x.Persistence
use cache_x.Persistence.Disk.{Disk}
use cache_x.Persistence.Roundtrip.{AllTtlFit}
use cache_x.Persistence.Load.{replay_ops}
use cache_x.Persistence.Restore.{IsRestored, load-restores}
use cache_x.CommandHandler.{Moment, World}
use cache_x.ServerMain.{
  Settings, Output, parse_arguments, create_cache, persistence, restored_report,
}
use cache_x.ServerMain.Run.{Outside, Exit, restore, main}
use cache_x.ServerMain.Settled.{
  caps_for, create_cache-AllEmpty, create_cache-IsSettled, restore-IsSettled, run_events-IsSettled,
}
use cache_x.ServerMain.Exit.{
  saved_text, Served, misused, not_started, stopped, saved, not_saved, main-Ended,
}

-- The numbers of the last save fit what the next load reads them into.
pub record InRange (saved_at : Moment) (next : Moment) (c : ShardedCache) : Type 0 where
  pub clock : saved_at.wall_clock < 2 ^ 63
  pub lifetimes : AllTtlFit (Sharded.export_entries saved_at.clock c)
  pub size : length (saved_text saved_at c) < 2 ^ 63
  pub deadlines : AllInRange (
      replay_ops next.clock 0
        (next.wall_clock - saved_at.wall_clock)
        (reverse (Sharded.export_entries saved_at.clock c)))

module _ (std_hash : Bytes → ℕ) (o : Outside) (arguments : List Bytes) (disk : Disk) where
  Served-IsSettled :
      (s : Settings) (w : World)
      → Served std_hash o arguments disk s w
      → IsSettled std_hash (caps_for s) w.cache
  Served-IsSettled s w v =
      run_events-IsSettled std_hash (caps_for s) s o.events v.begins w
        (restore-IsSettled std_hash (caps_for s) o.at_start s
          (record { cache = create_cache s; disk = disk }) v.begins v.report
          (create_cache-IsSettled std_hash s) v.restored)
        v.ran

  restore-saved :
      (s : Settings) (w : World) (path : Bytes) (files : Disk) (next : Moment)
      → IsSettled std_hash (caps_for s) w.cache
      → persistence s ≡ some path
      → files path ≡ some (saved_text o.at_end w.cache)
      → InRange o.at_end next w.cache
      → (i : ℕ) (c : Cache) → get_elem? w.cache.shards i ≡ some c
      → (report : List Output) × (w' : World) × (c' : Cache) × (restore std_hash next s
            (record { cache = create_cache s; disk = files })
          ≡ some (report, w'))
        × (get_elem? w'.cache.shards i ≡ some c')
        × IsRestored (o.at_end.clock i) (next.wall_clock - o.at_end.wall_clock) c c'
  unfolding restore
  restore-saved s w path files next settled on file range i c held =
      let (result, t, c', loaded, _, held', same) =
        load-restores std_hash o.at_end.wall_clock next.wall_clock o.at_end.clock next.clock
          (caps_for s) w.cache (create_cache s) range.clock range.lifetimes range.size
          range.deadlines settled (create_cache-IsSettled std_hash s) (create_cache-AllEmpty s) i c
          held in
      let loaded' : Persistence.load std_hash next.wall_clock next.clock (files path)
            (create_cache s)
          ≡ some (result, t) =
        ap (λ f. Persistence.load std_hash next.wall_clock next.clock f (create_cache s)) file
        ∙ loaded in
      (
        restored_report path result,
        record { cache = t; disk = files },
        c',
        ground (arith, on, loaded'),
        held',
        same,
      )

  -- A server that ends with the exit code 0 loses nothing: the next one with the same arguments
  -- starts, shard by shard, with the keys and values that the first one had, in their order of
  -- recency, but for those whose time had run out. This holds whatever the clients have done, and
  -- whatever snapshot the first one began with. The server has persistence, its temporary path is
  -- not the path of the snapshot, and the numbers of the save are in range.
  pub main-restore :
      (s : Settings) (path : Bytes) (e : Exit) (next : Moment)
      → parse_arguments arguments ≡ some s
      → persistence s ≡ some path
      → o.at_end.answers.temp_path ≢ s.snapshot_path
      → main std_hash o arguments disk ≡ some e
      → e.code ≡ 0
      → InRange o.at_end next e.world.cache
      → (i : ℕ) (c : Cache) → get_elem? e.world.cache.shards i ≡ some c
      → (report : List Output) × (w' : World) × (c' : Cache) × (restore std_hash next s
            (record { cache = create_cache s; disk = e.world.disk })
          ≡ some (report, w'))
        × (get_elem? w'.cache.shards i ≡ some c')
        × IsRestored (o.at_end.clock i) (next.wall_clock - o.at_end.wall_clock) c c'
  main-restore s path e next accepted on apart done ok range i c held =
      elim (main-Ended std_hash o arguments disk e (λ t good. same_path t good) done) [
        | misused bad _ _ ↦ absurd (ground (arith, accepted, bad))
        | not_started _ _ _ _ one _ ↦ absurd (ground (arith, ok, one))
        | stopped t _ v off _ _ ↦ absurd (ground (arith, same t v.accepted, on, off))
        | not_saved _ _ _ _ _ one _ _ ↦ absurd (ground (arith, ok, one))
        | saved t w p v on' _ cache file ↦
            let settled = Served-IsSettled t w v in
            restore-saved s (record e.world { disk = disk }) path e.world.disk next
              (subst (IsSettled std_hash (caps_for s)) (sym cache) (
                subst (λ x. IsSettled std_hash (caps_for x) w.cache) (sym (same t v.accepted))
                  settled))
              on
              (ap e.world.disk (ground (arith, same t v.accepted, on, on'))
                ∙ file
                ∙ ap (λ x. some (saved_text o.at_end x)) (sym cache))
              range i c held
      ]
    where
      same : (t : Settings) → parse_arguments arguments ≡ some t → s ≡ t
      same t good = ground (arith, accepted, good)

      same_path :
          (t : Settings)
          → parse_arguments arguments ≡ some t
          → o.at_end.answers.temp_path ≢ t.snapshot_path
      same_path t good = rw (same t good) at apart
