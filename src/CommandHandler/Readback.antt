-- ===== src/CommandHandler/Readback.antt =====
-- What a client reads back after a SET.
use mathlib.Core.Logic.{◌≢◌}
use cache_x.Base.{
  get_elem?-lt, ℕ, zero, suc, ◌+◌, ◌-◌, ◌*◌, ◌/◌, ◌^◌, ◌≤◌, ◌<◌, ◌≡◌, ◌∙◌, refl, ap, sym, List, [],
  ◌∷◌, Option, none, some, Bytes, ltb, if◌then◌else◌, pos, arith, length, length-set, get_elem?,
  set as write, get_elem?-set_self, Bool-cases, inl, inr,
}
use cache_x.Cache
use cache_x.Cache.{Cache, TtlInfo, TtlState, missing, persistent, expiring, no_ttl}
use cache_x.Cache.Refine.{store-Implements}
use cache_x.Cache.Visible.{get-set}
use cache_x.Cache.Keep.{ttl-set_ttl}
use cache_x.Sharded
use cache_x.Sharded.{ShardedCache, shard_index_for, on_shard, with_unit}
use cache_x.Sharded.Shards.{AllValid, AllValid-get, shard_index_for-lt}
use cache_x.Protocol.{
  Command, get, ttl, no_command, set_command, max_ttl_seconds, reply_ok, reply_value, reply_integer,
  reply_nil,
}
use cache_x.CommandHandler.{Moment, World, execute, milliseconds, reply_ttl_state}

-- Every shard can hold an entry.
abbrev pub AllRoom : List Cache → Type 0
AllRoom [] = Unit {0}
AllRoom (c ∷ cs) = (c.capacity ≢ some 0) × AllRoom cs

AllRoom-get :
    (cs : List Cache) (i : ℕ) (c : Cache)
    → AllRoom cs
    → get_elem? cs i ≡ some c
    → c.capacity ≢ some 0
AllRoom-get [] i c h e = absurd (ground arith)
AllRoom-get (d ∷ cs) zero c h e = let same : d ≡ c = ground arith in rw (← same) h.0
AllRoom-get (d ∷ cs) (suc i) c h e = AllRoom-get cs i c h.1 e

abbrev pub get_command : Bytes → Command
get_command key = record no_command { type = get; key = key }

abbrev pub ttl_command : Bytes → Command
ttl_command key = record no_command { type = ttl; key = key }

-- What `ttl` reports of a deadline.
abbrev info_until : ℕ → ℕ → TtlInfo
info_until later t =
    if ltb later t then record { state = expiring; remaining = (t - later) / 1000000 } else no_ttl

reply_ttl_state-until :
    (later t : ℕ) (info : TtlInfo)
    → info ≡ info_until later t
    → t < 2 ^ 63
    → reply_ttl_state info.state info.remaining
      ≡ some (
          if ltb later t
          then reply_integer (pos (((t - later) / 1000000 + 999) / 1000))
          else reply_nil)
unfolding reply_ttl_state
reply_ttl_state-until later t info e h = elim (Bool-cases (ltb later t)) [
  | inl before ↦ ground (arith, e, before)
  | inr past ↦ ground (arith, e, past)
]

milliseconds_lem : (s : ℕ) → s * 1000 < 2 ^ 63 → milliseconds (pos s) ≡ some (pos (s * 1000))
unfolding milliseconds
milliseconds_lem s h = ground arith

module _ (std_hash : Bytes → ℕ) where
  -- The shard of a key after a write to it.
  shard-write :
      (k : Bytes) (s : ShardedCache) (d c : Cache)
      → get_elem? s.shards (shard_index_for std_hash k s) ≡ some d
      → get_elem? (write s.shards (shard_index_for std_hash k s) c) (
          shard_index_for std_hash k
            (record { shards = write s.shards (shard_index_for std_hash k s) c }))
        ≡ some c
  unfolding shard_index_for
  shard-write k s d c at =
      rw (length-set s.shards (shard_index_for std_hash k s) c)
        (get_elem?-set_self s.shards (shard_index_for std_hash k s) c d at)

  -- A key that is set without a time to live is read back by a GET, at any time. Every shard has
  -- room for an entry.
  pub execute-get_set :
      (m later : Moment) (persistence : Option Bytes) (k v : Bytes) (w : World)
      → AllValid w.cache.shards
      → AllRoom w.cache.shards
      → 0 < length w.cache.shards
      → (w' : World) × (w'' : World) × (execute std_hash m persistence (set_command k v none) w
          ≡ some (w', reply_ok))
        × (execute std_hash later persistence (get_command k) w' ≡ some (w'', reply_value v))
  unfolding execute Sharded.set Sharded.get on_shard Cache.set
  execute-get_set m later persistence k v w h room some_shard =
      let j = shard_index_for std_hash k w.cache in
      let (d, at) =
        get_elem?-lt w.cache.shards j (shard_index_for-lt std_hash k w.cache some_shard) in
      let valid = AllValid-get w.cache.shards j d h at in
      let i = store-Implements k v none d valid in
      let done : Cache.set k v d ≡ some i.cache = ground (arith, i.defined) in
      let (c, read) =
        get-set later.now k v d i.cache valid (AllRoom-get w.cache.shards j d room at) done in
      let s' : ShardedCache = record { shards = write w.cache.shards j i.cache } in
      let there = shard-write k w.cache d i.cache at in
      (
        record w { cache = s' },
        record w { cache = record { shards = write s'.shards (shard_index_for std_hash k s') c } },
        ground (arith, at, done),
        ground (arith, there, read),
      )

  -- The reply to a TTL that comes after a SET with a time to live: the seconds that are left,
  -- rounded up from whole milliseconds, and never more than were asked for; `nil` from the deadline
  -- on. The time to live is between one second and the maximum, the clock far enough from the end
  -- of its range, and every shard has room for an entry.
  pub execute-ttl_set :
      (m later : Moment) (persistence : Option Bytes) (k v : Bytes) (n : ℕ) (w : World)
      → suc n ≤ max_ttl_seconds
      → m.now + max_ttl_seconds * 1000000000 < 2 ^ 63
      → m.now ≤ later.now
      → AllValid w.cache.shards
      → AllRoom w.cache.shards
      → 0 < length w.cache.shards
      → (w' : World) × (w'' : World) × (left : ℕ) × (execute std_hash m persistence
            (set_command k v (some (pos (suc n))))
            w
          ≡ some (w', reply_ok))
        × (execute std_hash later persistence (ttl_command k) w'
            ≡ some (
              w'',
              if ltb later.now (m.now + suc n * 1000000000)
                  then reply_integer (pos left)
                  else reply_nil,
            ))
        × (left ≡ ((m.now + suc n * 1000000000 - later.now) / 1000000 + 999) / 1000)
        × (left ≤ suc n)
  unfolding execute Sharded.set_ttl Sharded.ttl on_shard
  execute-ttl_set m later persistence k v n w small time le h room some_shard =
      let j = shard_index_for std_hash k w.cache in
      let (d, at) =
        get_elem?-lt w.cache.shards j (shard_index_for-lt std_hash k w.cache some_shard) in
      let valid = AllValid-get w.cache.shards j d h at in
      let ms = n * 1000 + 999 in
      let whole : suc ms ≡ suc n * 1000 = omega arith in
      let (c, c', info, done, read, answer, bound) =
        ttl-set_ttl m.now later.now k v ms d valid (AllRoom-get w.cache.shards j d room at)
          (omega arith) le in
      let s' : ShardedCache = record { shards = write w.cache.shards j c } in
      let there = shard-write k w.cache d c at in
      let asked : milliseconds (pos (suc n)) ≡ some (pos (suc n * 1000)) =
        milliseconds_lem (suc n) (omega arith) in
      let wrote : Cache.set_ttl m.now k v (pos (suc n * 1000)) d ≡ some c =
        ap (λ (x : ℕ). Cache.set_ttl m.now k v (pos x) d) (sym whole) ∙ done in
      let deadline : m.now + suc ms * 1000000 ≡ m.now + suc n * 1000000000 = omega arith in
      let reply =
        reply_ttl_state-until later.now (m.now + suc n * 1000000000) info
          (answer ∙ ap (λ (t : ℕ). info_until later.now t) deadline) (omega arith) in
      (
        record w { cache = s' },
        record w { cache = record { shards = write s'.shards (shard_index_for std_hash k s') c' } },
        ((m.now + suc n * 1000000000 - later.now) / 1000000 + 999) / 1000,
        ground (arith, at, asked, wrote),
        ground (arith, there, read, reply),
        refl,
        omega arith,
      )
