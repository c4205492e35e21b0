-- ===== src/Persistence/Restore.antt =====
-- A save, and then a load into an empty cache of the same shape: shard by shard.
use mathlib.Core.Path.{subst}
use cache_x.Base.{
  ℕ, zero, suc, ◌+◌, ◌-◌, ◌^◌, ◌≤◌, ◌<◌, ◌≡◌, refl, ap, sym, ◌∙◌, List, [], ◌∷◌, reverse, Option,
  some, Bytes, true, length, length-map, get_elem?, arith, Bool-cases, inl, inr,
}
use cache_x.Recency.{entries}
use cache_x.Cache
use cache_x.Cache.{Cache, EntrySnapshot, export_list}
use cache_x.Cache.Op
use cache_x.Cache.Op.{Op}
use cache_x.Cache.Model.{Lru}
use cache_x.Cache.Run.{AllInRange, run-Implements}
use cache_x.Cache.Recent.{view_of}
use cache_x.Cache.Valid.{IsValid, Within, view}
use cache_x.Cache.Visible.{Within-view, distinct-view}
use cache_x.Sharded
use cache_x.Sharded.{ShardedCache, shard_hash, export_from}
use cache_x.Sharded.Shards.{AllValid-get, is_for, calls_for, replies_for, run-shards}
use cache_x.Sharded.Home.{capacities, IsSettled}
use cache_x.Persistence.{LoadResult, load}
use cache_x.Persistence.File.{render}
use cache_x.Persistence.Roundtrip.{AllTtlFit}
use cache_x.Persistence.Load.{replay_ops, load-render}
use cache_x.Persistence.Shares.{calls_for_own}
use cache_x.Persistence.Survive.{
  surviving, bindings, bindings_of, export_list-Distinct, length-export_list, replay-surviving,
  Within-le,
}

-- Shards with the same capacities, one by one.
capacities-get :
    (cs ds : List Cache) (m : ℕ) (c : Cache)
    → capacities ds ≡ capacities cs
    → get_elem? cs m ≡ some c
    → (d : Cache) × (get_elem? ds m ≡ some d) × (d.capacity ≡ c.capacity)
capacities-get [] ds m c e at = absurd (ground (arith, at))
capacities-get (c' ∷ cs) [] m c e at = absurd (ground (arith, e))
capacities-get (c' ∷ cs) (d ∷ ds) zero c e at =
    let same : c' ≡ c = ground (arith, at) in (d, refl, ground (arith, e, same))
capacities-get (c' ∷ cs) (d ∷ ds) (suc m) c e at = capacities-get cs ds m c (ground (arith, e)) at

abbrev pub AllEmpty : List Cache → Type 0
AllEmpty [] = Unit {0}
AllEmpty (c ∷ cs) = ((view c).items ≡ []) × AllEmpty cs

AllEmpty-get :
    (cs : List Cache) (m : ℕ) (c : Cache)
    → AllEmpty cs
    → get_elem? cs m ≡ some c
    → (view c).items ≡ []
AllEmpty-get [] m c h at = absurd (ground (arith, at))
AllEmpty-get (d ∷ cs) zero c h at = let same : d ≡ c = ground (arith, at) in rw (← same) h.0
AllEmpty-get (d ∷ cs) (suc m) c h at = AllEmpty-get cs m c h.1 at

-- The shard `c'` has what survived of the snapshot of `c`.
abbrev pub IsRestored : ℕ → ℕ → Cache → Cache → Type 0
IsRestored taken_at elapsed c c' =
    bindings (view c').items ≡ bindings_of (surviving elapsed (Cache.export_entries taken_at c))

-- One shard that goes through the replay of its own entries.
shard-IsRestored :
    (clock : ℕ → ℕ) (at elapsed taken_at : ℕ) (c f c' : Cache) (rs : List Op.Reply)
    → IsValid c
    → IsValid f
    → f.capacity ≡ c.capacity
    → (view f).items ≡ []
    → AllInRange (replay_ops clock at elapsed (reverse (Cache.export_entries taken_at c)))
    → Op.run (replay_ops clock at elapsed (reverse (Cache.export_entries taken_at c))) f
      ≡ some (c', rs)
    → IsRestored taken_at elapsed c c'
unfolding Cache.export_entries
shard-IsRestored clock at elapsed taken_at c f c' rs h hf same empty range ran =
    let es = Cache.export_entries taken_at c in
    let (seen, _, _) =
      view_of (run-Implements (replay_ops clock at elapsed (reverse es)) f range hf) c' rs ran in
    let few : length es ≤ length (entries c.list.nodes) =
      length-export_list taken_at (entries c.list.nodes) in
    let room : Within f.capacity (length es) =
      subst (λ cap. Within cap (length es)) (sym same)
        (Within-le c.capacity (length es) (length (entries c.list.nodes)) few (Within-view c h)) in
    ap (λ (l : Lru). bindings l.items) seen
    ∙ (replay-surviving clock at elapsed es (view f)
        (export_list-Distinct taken_at (entries c.list.nodes) (distinct-view c h)) empty room).0

module _ (std_hash : Bytes → ℕ) where
  AllInRange-calls_for :
      (n i : ℕ) (ops : List (ℕ × Op)) → AllInRange ops → AllInRange (calls_for std_hash n i ops)
  unfolding calls_for
  AllInRange-calls_for n i [] h = tt
  AllInRange-calls_for n i ((now, op) ∷ ops) h = elim (Bool-cases (is_for std_hash n i op)) [
    | inl call ↦ rw call (h.0, AllInRange-calls_for n i ops h.1)
    | inr no_call ↦ rw no_call (AllInRange-calls_for n i ops h.1)
  ]

  -- A save and then a load into an empty cache with the same capacities gives every shard its keys
  -- and values back, in their order of recency: all that had not expired when the shard was read,
  -- but what has run out in the time between the save and the load. The load succeeds. The clocks,
  -- the times to live, the new deadlines and the size of the file must be in range.
  pub load-restores :
      (saved_at wall_clock : ℕ) (clk clock : ℕ → ℕ) (caps : List (Option ℕ))
      (s fresh : ShardedCache)
      → saved_at < 2 ^ 63
      → AllTtlFit (Sharded.export_entries clk s)
      → length (render saved_at (Sharded.export_entries clk s)) < 2 ^ 63
      → AllInRange
          (replay_ops clock 0 (wall_clock - saved_at) (reverse (Sharded.export_entries clk s)))
      → IsSettled std_hash caps s
      → IsSettled std_hash caps fresh
      → AllEmpty fresh.shards
      → (m : ℕ) (c : Cache) → get_elem? s.shards m ≡ some c
      → (result : LoadResult) × (s' : ShardedCache) × (c' : Cache) × (load std_hash wall_clock clock
            (some (render saved_at (Sharded.export_entries clk s)))
            fresh
          ≡ some (result, s'))
        × (result.ok ≡ true)
        × (get_elem? s'.shards m ≡ some c')
        × IsRestored (clk m) (wall_clock - saved_at) c c'
  unfolding Sharded.export_entries
  load-restores saved_at wall_clock clk clock caps s fresh h t fits range hs hf empty m c held =
      let elapsed = wall_clock - saved_at in
      let es = export_from clk 0 s.shards in
      let ops = replay_ops clock 0 elapsed (reverse es) in
      let (f, at_f, same_cap) =
        capacities-get s.shards fresh.shards m c (hf.shape ∙ sym hs.shape) held in
      let (s', rs, c', ran, held', own) = run-shards std_hash ops fresh range hf.valid m f at_f in
      let count : length fresh.shards ≡ length caps =
        sym (length-map (λ (d : Cache). d.capacity) fresh.shards) ∙ ap length hf.shape in
      let here : m + 0 ≡ m = omega arith in
      let (at, mine) =
        calls_for_own std_hash (length caps) m clk clock 0 0 elapsed s.shards c hs.home held in
      let calls : calls_for std_hash (length fresh.shards) m ops
          ≡ replay_ops clock at elapsed (reverse (Cache.export_entries (clk m) c)) =
        ap (λ n. calls_for std_hash n m ops) count
        ∙ ap (λ a. calls_for std_hash (length caps) a ops) (sym here)
        ∙ mine
        ∙ ap (λ a. replay_ops clock at elapsed (reverse (Cache.export_entries (clk a) c))) here in
      (
        record {
          ok = true;
          loaded = length ops;
          expired = length (reverse es) - length ops;
          error = [];
        },
        s',
        c',
        ground (arith, load-render std_hash saved_at wall_clock clock es fresh h t fits, ran),
        refl,
        held',
        shard-IsRestored clock at elapsed (clk m) c f c'
            (replies_for std_hash (length fresh.shards) m ops rs)
            (AllValid-get s.shards m c hs.valid held) (AllValid-get fresh.shards m f hf.valid at_f)
            same_cap (AllEmpty-get fresh.shards m f empty at_f)
            (subst AllInRange calls (AllInRange-calls_for (length fresh.shards) m ops range))
            (ap (λ xs. Op.run xs f) (sym calls) ∙ own),
      )
