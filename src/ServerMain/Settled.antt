-- ===== src/ServerMain/Settled.antt =====
-- The cache that the program makes and runs.
use cache_x.Base.{
  ℕ, zero, suc, ◌+◌, ◌/◌, ◌%◌, ◌≡◌, refl, List, [], ◌∷◌, Option, none, some, Bytes, arith,
  Option-cases, Bool-cases, inl, inr, ltb, ◌==◌, ◌<◌, if◌then◌else◌, sym, length, ℤ,
}
use mathlib.Core.Path.{subst}
use cache_x.Cache.Keys.{AllKeys}
use cache_x.Recency.{entries}
use cache_x.Cache.Run.{unbounded-IsValid, bounded-IsValid}
use cache_x.Sharded.{
  create, create_bounded, unbounded_shards, bounded_shards, sane_shard_count, usable_count,
}
use cache_x.Sharded.Split.{create_bounded-some_shard}
use cache_x.Sharded.Shards.{AllValid}
use cache_x.Sharded.Home.{IsHome, capacities, KeysHome, IsSettled}
use cache_x.Persistence
use cache_x.Persistence.Restore.{AllEmpty}
use cache_x.CommandHandler.{Moment, World, execute}
use cache_x.CommandHandler.Settled.{execute-IsSettled}
use cache_x.Persistence.Settled.{load-IsSettled}
use cache_x.ServerMain.{Output, Settings, create_cache, persistence, saver_interval, begin_wait}
use cache_x.ServerMain.Run.{Event, command, autosave, run_event, run_events, restore, autosave_to}
use cache_x.Cache.{Cache}

-- The capacities of the shards that the settings ask for.
abbrev pub caps_for : Settings → List (Option ℕ)
caps_for s = capacities (create_cache s).shards

unbounded_shards-AllValid : (n : ℕ) → AllValid (unbounded_shards n)
unfolding unbounded_shards
unbounded_shards-AllValid zero = tt
unbounded_shards-AllValid (suc n) = (unbounded-IsValid, unbounded_shards-AllValid n)

bounded_shards-AllValid : (left i base rem : ℕ) → AllValid (bounded_shards left i base rem)
unfolding bounded_shards
bounded_shards-AllValid zero i base rem = tt
bounded_shards-AllValid (suc left) i base rem = (
  bounded-IsValid (base + (if ltb i rem then 1 else 0)),
  bounded_shards-AllValid left (i + 1) base rem,
)

unbounded_shards-AllEmpty : (n : ℕ) → AllEmpty (unbounded_shards n)
unfolding unbounded_shards entries
unbounded_shards-AllEmpty zero = tt
unbounded_shards-AllEmpty (suc n) = (refl, unbounded_shards-AllEmpty n)

bounded_shards-AllEmpty : (left i base rem : ℕ) → AllEmpty (bounded_shards left i base rem)
unfolding bounded_shards entries
bounded_shards-AllEmpty zero i base rem = tt
bounded_shards-AllEmpty (suc left) i base rem =
    (refl, bounded_shards-AllEmpty left (i + 1) base rem)

pub create_cache-AllValid : (s : Settings) → AllValid (create_cache s).shards
unfolding create_cache create create_bounded
create_cache-AllValid s = elim (Bool-cases (ltb 0 s.capacity)) [
  | inl some_capacity ↦
      let count = usable_count s.shards s.capacity in
      rw some_capacity (bounded_shards-AllValid count 0 (s.capacity / count) (s.capacity % count))
  | inr no_capacity ↦ rw no_capacity (unbounded_shards-AllValid (sane_shard_count s.shards))
]

pub create_cache-AllEmpty : (s : Settings) → AllEmpty (create_cache s).shards
unfolding create_cache create create_bounded
create_cache-AllEmpty s = elim (Bool-cases (ltb 0 s.capacity)) [
  | inl some_capacity ↦
      let count = usable_count s.shards s.capacity in
      rw some_capacity (bounded_shards-AllEmpty count 0 (s.capacity / count) (s.capacity % count))
  | inr no_capacity ↦ rw no_capacity (unbounded_shards-AllEmpty (sane_shard_count s.shards))
]

unbounded_shards-length : (n : ℕ) → length (unbounded_shards n) ≡ n
unfolding unbounded_shards
unbounded_shards-length zero = refl
unbounded_shards-length (suc n) = omega (arith, unbounded_shards-length n)

pub create_cache-some_shard : (s : Settings) → 0 < length (create_cache s).shards
unfolding create_cache create sane_shard_count
create_cache-some_shard s = elim (Bool-cases (ltb 0 s.capacity)) [
  | inl some_capacity ↦ ground (arith, some_capacity, create_bounded-some_shard s.shards s.capacity)
  | inr no_capacity ↦
      ground (arith, no_capacity, unbounded_shards-length (if s.shards == 0 then 1 else s.shards))
]

module _ (std_hash : Bytes → ℕ) where
  AllEmpty-KeysHome : (n i : ℕ) (cs : List Cache) → AllEmpty cs → KeysHome std_hash n i cs
  AllEmpty-KeysHome n i [] h = tt
  AllEmpty-KeysHome n i (c ∷ cs) h =
      (subst (AllKeys (IsHome std_hash n i)) (sym h.0) tt, AllEmpty-KeysHome n (suc i) cs h.1)

  pub create_cache-IsSettled : (s : Settings) → IsSettled std_hash (caps_for s) (create_cache s)
  create_cache-IsSettled s = record {
    valid = create_cache-AllValid s;
    home =
        AllEmpty-KeysHome (length (caps_for s)) 0 (create_cache s).shards (create_cache-AllEmpty s);
    shape = refl;
  }

  pub restore-IsSettled :
      (caps : List (Option ℕ)) (m : Moment) (s : Settings) (w w' : World) (report : List Output)
      → IsSettled std_hash caps w.cache
      → restore std_hash m s w ≡ some (report, w')
      → IsSettled std_hash caps w'.cache
  unfolding restore
  restore-IsSettled caps m s w w' report h done = elim (Option-cases (persistence s)) [
    | inl off ↦ let same : w.cache ≡ w'.cache = ground (arith, off, done) in rw (← same) h
    | inr (path, on) ↦
        elim (Option-cases (Persistence.load std_hash m.wall_clock m.clock (w.disk path) w.cache)) [
          | inl undefined ↦ absurd (ground (arith, on, undefined, done))
          | inr ((result, c), ran) ↦
              let same : c ≡ w'.cache = ground (arith, on, ran, done) in
              rw (← same) (
                load-IsSettled std_hash caps m.wall_clock m.clock (w.disk path) w.cache c result h
                  ran)
        ]
  ]

  autosave_to-cache :
      (path : Option Bytes) (interval : Option ℤ) (m : Moment) (w : World)
      → (autosave_to path interval m w).cache ≡ w.cache
  unfolding autosave_to
  autosave_to-cache none interval m w = refl
  autosave_to-cache (some path) none m w = refl
  autosave_to-cache (some path) (some _) m w = ground arith

  run_event-IsSettled :
      (caps : List (Option ℕ)) (s : Settings) (e : Event) (w w' : World)
      → IsSettled std_hash caps w.cache
      → run_event std_hash s e w ≡ some w'
      → IsSettled std_hash caps w'.cache
  unfolding run_event
  run_event-IsSettled caps s (command m c) w w' h done =
      elim (Option-cases (execute std_hash m (persistence s) c w)) [
        | inl undefined ↦ absurd (ground (arith, undefined, done))
        | inr ((t, reply), ran) ↦
            let same : t.cache ≡ w'.cache = ground (arith, ran, done) in
            rw (← same) (execute-IsSettled std_hash caps m (persistence s) c w t reply h ran)
      ]
  run_event-IsSettled caps s (autosave m) w w' h done = elim (Option-cases (begin_wait s m.now)) [
    | inl overflows ↦ absurd (ground (arith, overflows, done))
    | inr (_, waits) ↦
        let same : w.cache ≡ w'.cache =
          ground (arith, autosave_to-cache (persistence s) (saver_interval s) m w, waits, done) in
        rw (← same) h
  ]

  pub run_events-IsSettled :
      (caps : List (Option ℕ)) (s : Settings) (es : List Event) (w w' : World)
      → IsSettled std_hash caps w.cache
      → run_events std_hash s es w ≡ some w'
      → IsSettled std_hash caps w'.cache
  unfolding run_events
  run_events-IsSettled caps s [] w w' h done =
      let same : w.cache ≡ w'.cache = ground (arith, done) in rw (← same) h
  run_events-IsSettled caps s (e ∷ es) w w' h done =
      elim (Option-cases (run_event std_hash s e w)) [
        | inl undefined ↦ absurd (ground (arith, undefined, done))
        | inr (t, one) ↦
            run_events-IsSettled caps s es t w' (run_event-IsSettled caps s e w t h one)
              (ground (arith, one, done))
      ]
