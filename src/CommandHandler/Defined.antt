-- ===== src/CommandHandler/Defined.antt =====
-- Commands from the parser run without undefined behaviour.
use mathlib.Core.Path.{subst}
use cache_x.Base.{
  get_elem?-lt, ℕ, ◌+◌, ◌*◌, ◌/◌, ◌^◌, ◌<◌, ◌≡◌, refl, ap, Option, none, some, Bytes, Bool, true,
  false, ℤ, pos, negsuc, arith, length, Option-cases, inl, inr,
}
use cache_x.Recency.{Entry}
use cache_x.Recency.Order.{lookup}
use cache_x.Cache
use cache_x.Cache.{
  Cache, TtlInfo, TtlState, missing, persistent, expiring, is_expired, remaining_ms, no_ttl,
}
use cache_x.Cache.Model.{is_live, live, query, read, discard, put, put_ttl, value_of}
use cache_x.Cache.Valid.{view}
use cache_x.Cache.Reads.{ttl-Implements, get-Implements, erase-Implements, contains-live}
use cache_x.Cache.Refine.{store-Implements}
use cache_x.Cache.Run.{set_ttl-Implements}
use cache_x.Sharded
use cache_x.Sharded.{ShardedCache, shard_index_for, on_shard, with_unit}
use cache_x.Sharded.Shards.{shard_index_for-lt}
use cache_x.CommandHandler.Deadlines.{
  DeadlineFits, DeadlinesFit, lookup-DeadlineFits, put-DeadlinesFit, discard-DeadlinesFit,
  read-DeadlinesFit, query-DeadlinesFit, put_ttl-DeadlinesFit, AllSound, AllSound-get,
}
use cache_x.Protocol.{
  Command, CommandType, set, get, delete, exists, ttl, ping, save, load, quit, max_ttl_seconds,
  parse_command, reply_ok, reply_pong, reply_bye, reply_integer,
}
use cache_x.Protocol.Parse.{HasFields, TtlAllowed}
use cache_x.Protocol.Accept.{parse_command-Sendable}
use cache_x.CommandHandler.Runs.{implemented-Runs, execute_save-cache}
use cache_x.CommandHandler.{
  Moment, World, execute, execute_as, execute_save, reply_flag, reply_found, execute_set,
  not_enabled, reply_ttl_state,
}

abbrev pub is_load : CommandType → Bool
is_load load = true
is_load _ = false

query-remaining :
    (now : ℕ) (k : Bytes) (c : Cache)
    → DeadlinesFit (view c).items
    → (query now k (view c)).1.remaining < 2 ^ 62
unfolding query remaining_ms
query-remaining now k c h = elim (Option-cases (lookup k (view c).items)) [
  | inl absent ↦ ground (arith, absent)
  | inr (e, found) ↦ elim (Option-cases e.expires_at) [
    | inl never ↦ ground (arith, found, never)
    | inr (t, at) ↦
        let low : t < 2 ^ 63 =
          subst DeadlineFits at (lookup-DeadlineFits k (view c).items e h found) in
        ground (arith, found, at, low)
  ]
]

reply_ttl_state-defined :
    (state : TtlState) (remaining : ℕ)
    → remaining < 2 ^ 62
    → (reply : Bytes) × (reply_ttl_state state remaining ≡ some reply)
unfolding reply_ttl_state
reply_ttl_state-defined missing r h = (_, refl)
reply_ttl_state-defined persistent r h = (_, refl)
reply_ttl_state-defined expiring r h = (reply_integer (pos ((r + 999) / 1000)), ground arith)

-- A result, and a state with sound shards, as many as before.
abbrev pub Done : Option (World × Bytes) → World → Type 0
Done done w =
    (w' : World) × (reply : Bytes) × (done ≡ some (w', reply))
    × AllSound w'.cache.shards
    × (length w'.cache.shards ≡ length w.cache.shards)

abbrev Anything : {R : Type 0} → R → Type 0
Anything _ = Unit {0}

module _ (std_hash : Bytes → ℕ) where
  execute_set-Runs :
      (now : ℕ) (k v : Bytes) (seconds : Option ℤ) (s : ShardedCache)
      → TtlAllowed seconds
      → now + max_ttl_seconds * 1000000000 < 2 ^ 63
      → AllSound s.shards
      → 0 < length s.shards
      → (c : ShardedCache) × (execute_set std_hash now k v seconds s ≡ some c)
        × AllSound c.shards
        × (length c.shards ≡ length s.shards)
  unfolding execute_set Sharded.set Sharded.set_ttl Cache.set
  execute_set-Runs now k v none s a time h some_shard =
      let e : Entry = record { key = k; value = v; expires_at = none } in
      let ran =
        implemented-Runs (shard_index_for std_hash k s) (λ c. with_unit (Cache.set k v c))
          (λ l. (put e l, tt)) Anything s h (shard_index_for-lt std_hash k s some_shard)
          (λ d valid. store-Implements k v none d valid)
          (λ d fit. (put-DeadlinesFit e (view d) tt fit, tt)) in
      (ran.cache, ground (arith, ran.defined), ran.valid, ran.count)
  execute_set-Runs now k v (some (pos n)) s a time h some_shard =
      let ms = pos (n * 1000) in
      let ran =
        implemented-Runs (shard_index_for std_hash k s)
          (λ c. with_unit (Cache.set_ttl now k v ms c)) (λ l. (put_ttl now k v ms l, tt)) Anything s
          h (shard_index_for-lt std_hash k s some_shard)
          (λ d valid. set_ttl-Implements now k v ms d (omega arith) valid)
          (λ d fit. (put_ttl-DeadlinesFit now k v ms (view d) (omega arith) fit, tt)) in
      (ran.cache, ground (arith, ran.defined), ran.valid, ran.count)
  execute_set-Runs now k v (some (negsuc n)) s a time h some_shard = absurd a

  execute_as-defined :
      (t : CommandType) (m : Moment) (persistence : Option Bytes) (c : Command) (w : World)
      → HasFields t c
      → (is_load t ≡ true → persistence ≡ none)
      → m.now + max_ttl_seconds * 1000000000 < 2 ^ 63
      → AllSound w.cache.shards
      → 0 < length w.cache.shards
      → Done (execute_as std_hash t m persistence c w) w
  unfolding execute_as Sharded.get Sharded.erase Sharded.contains Sharded.ttl
  execute_as-defined set m p c w f l time h some_shard =
      let (s', done, v, len) =
        execute_set-Runs m.now c.key c.value c.ttl w.cache f.2 time h some_shard in
      (record w { cache = s' }, reply_ok, ground (arith, done), v, len)
  execute_as-defined get m p c w f l time h some_shard =
      let ran =
        implemented-Runs (shard_index_for std_hash c.key w.cache) (Cache.get m.now c.key)
          (λ s. ((read m.now c.key s).0, value_of (read m.now c.key s).1)) Anything w.cache h
          (shard_index_for-lt std_hash c.key w.cache some_shard)
          (λ d valid. get-Implements m.now c.key d valid)
          (λ d fit. (read-DeadlinesFit m.now c.key (view d) fit, tt)) in
      (
        record w { cache = ran.cache },
        reply_found ran.result,
        ground (arith, ran.defined),
        ran.valid,
        ran.count,
      )
  execute_as-defined delete m p c w f l time h some_shard =
      let ran =
        implemented-Runs (shard_index_for std_hash c.key w.cache) (Cache.erase m.now c.key)
          (discard m.now c.key) Anything w.cache h
          (shard_index_for-lt std_hash c.key w.cache some_shard)
          (λ d valid. erase-Implements m.now c.key d valid)
          (λ d fit. (discard-DeadlinesFit m.now c.key (view d) fit, tt)) in
      (
        record w { cache = ran.cache },
        reply_flag ran.result,
        ground (arith, ran.defined),
        ran.valid,
        ran.count,
      )
  execute_as-defined exists m p c w f l time h some_shard =
      let j = shard_index_for std_hash c.key w.cache in
      let (d, at) =
        get_elem?-lt w.cache.shards j (shard_index_for-lt std_hash c.key w.cache some_shard) in
      let held = contains-live m.now c.key d (AllSound-get w.cache.shards j d h at).0 in
      (w, reply_flag (is_live (live m.now c.key (view d))), ground (arith, at, held), h, refl)
  execute_as-defined ttl m p c w f l time h some_shard =
      let ran =
        implemented-Runs (shard_index_for std_hash c.key w.cache) (Cache.ttl m.now c.key)
          (query m.now c.key) (λ info. info.remaining < 2 ^ 62) w.cache h
          (shard_index_for-lt std_hash c.key w.cache some_shard)
          (λ d valid. ttl-Implements m.now c.key d valid)
          (λ d fit.
            (query-DeadlinesFit m.now c.key (view d) fit, query-remaining m.now c.key d fit)) in
      let (reply, answered) =
        reply_ttl_state-defined ran.result.state ran.result.remaining ran.good in
      (
        record w { cache = ran.cache },
        reply,
        ground (arith, ran.defined, answered),
        ran.valid,
        ran.count,
      )
  execute_as-defined ping m p c w f l time h some_shard = (w, reply_pong, refl, h, refl)
  execute_as-defined save m p c w f l time h some_shard =
      let same = execute_save-cache m p w in
      (
        (execute_save m p w).0,
        (execute_save m p w).1,
        refl,
        rw same h,
        ap (λ (s : ShardedCache). length s.shards) same,
      )
  execute_as-defined load m p c w f l time h some_shard =
      (w, not_enabled, ground (arith, l refl), h, refl)
  execute_as-defined quit m p c w f l time h some_shard = (w, reply_bye, refl, h, refl)

  -- A command that the parser accepts, other than LOAD on a server with persistence, runs without
  -- undefined behaviour and keeps the shards sound: it gives a reply, and the shards are as many as
  -- before, valid caches with deadlines in range. In particular no time to live that a client may ask
  -- for overflows a deadline, if the clock is far enough from the end of its range.
  pub execute-parse_command :
      (m : Moment) (persistence : Option Bytes) (line : Bytes) (w : World)
      → (parse_command line).ok ≡ true
      → (is_load (parse_command line).command.type ≡ true → persistence ≡ none)
      → m.now + max_ttl_seconds * 1000000000 < 2 ^ 63
      → AllSound w.cache.shards
      → 0 < length w.cache.shards
      → Done (execute std_hash m persistence (parse_command line).command w) w
  unfolding execute
  execute-parse_command m persistence line w ok l time h some_shard =
      let c = (parse_command line).command in
      execute_as-defined c.type m persistence c w (parse_command-Sendable line ok) l time h
        some_shard
