-- ===== src/Persistence/Settled.antt =====
-- Whatever a file holds, reading it keeps the cache settled.
use cache_x.Base.{
  ℕ, ◌≡◌, List, [], ◌∷◌, Option, none, some, Bytes, ℤ, pos, arith, Bool-cases, bind-some, inl, inr,
  ◌+◌, length, reverse,
}
use cache_x.Sharded
use cache_x.Sharded.{ShardedCache}
use cache_x.Sharded.Home.{IsSettled}
use cache_x.Sharded.Settled.{set-IsSettled, set_ttl-IsSettled}
use cache_x.Persistence.{
  LoadResult, Progress, is_no_expiry, is_positive, subtract, apply_ttl, apply_record, apply_records,
  replay, load, elapsed_ms,
}
use cache_x.Persistence.File.{Record, Parsed-cases, parse_head, parse_body}

module _ (std_hash : Bytes → ℕ) (caps : List (Option ℕ)) where
  abbrev Settled : ShardedCache → Type 0
  Settled = IsSettled std_hash caps

  apply_ttl-IsSettled :
      (now : ℕ) (r : Record) (remaining : ℤ) (p p' : Progress)
      → Settled p.cache
      → apply_ttl std_hash now r remaining p ≡ some p'
      → Settled p'.cache
  unfolding apply_ttl
  apply_ttl-IsSettled now r remaining p p' h done = elim (Bool-cases (is_positive remaining)) [
    | inr over ↦ let same : p.cache ≡ p'.cache = ground (arith, over, done) in rw (← same) h
    | inl on ↦
        let ((t, _), ran, rest) =
          bind-some (Sharded.set_ttl std_hash now r.key r.value remaining p.cache) _
            (rw on at done) in
        let same : t ≡ p'.cache = ground (arith, rest) in
        rw (← same) (set_ttl-IsSettled std_hash caps p.cache t h now r.key r.value remaining ran)
  ]

  apply_record-IsSettled :
      (now elapsed : ℕ) (r : Record) (p p' : Progress)
      → Settled p.cache
      → apply_record std_hash now elapsed r p ≡ some p'
      → Settled p'.cache
  unfolding apply_record
  apply_record-IsSettled now elapsed r p p' h done = elim (Bool-cases (is_no_expiry r.ttl_ms)) [
    | inl forever ↦
        let ((t, _), ran, rest) =
          bind-some (Sharded.set std_hash r.key r.value p.cache) _ (rw forever at done) in
        let same : t ≡ p'.cache = ground (arith, rest) in
        rw (← same) (set-IsSettled std_hash caps p.cache t h r.key r.value ran)
    | inr timed ↦
        let (remaining, _, rest) =
          bind-some (subtract r.ttl_ms (pos elapsed)) _ (rw timed at done) in
        apply_ttl-IsSettled now r remaining p p' h rest
  ]

  apply_records-IsSettled :
      (clock : ℕ → ℕ) (i elapsed : ℕ) (rs : List Record) (p p' : Progress)
      → Settled p.cache
      → apply_records std_hash clock i elapsed rs p ≡ some p'
      → Settled p'.cache
  unfolding apply_records
  apply_records-IsSettled clock i elapsed [] p p' h done =
      let same : p.cache ≡ p'.cache = ground (arith, done) in rw (← same) h
  apply_records-IsSettled clock i elapsed (r ∷ rs) p p' h done =
      let (q, one, rest) = bind-some (apply_record std_hash (clock i) elapsed r p) _ done in
      apply_records-IsSettled clock (i + 1) elapsed rs q p'
        (apply_record-IsSettled (clock i) elapsed r p q h one) rest

  replay-IsSettled :
      (clock : ℕ → ℕ) (elapsed : ℕ) (rs : List Record) (s s' : ShardedCache) (result : LoadResult)
      → Settled s
      → replay std_hash clock elapsed rs s ≡ some (result, s')
      → Settled s'
  unfolding replay
  replay-IsSettled clock elapsed rs s s' result h done =
      let start : Progress = record { cache = s; loaded = 0; expired = 0 } in
      let (p, ran, rest) =
        bind-some (apply_records std_hash clock 0 elapsed (reverse rs) start) _ done in
      let same : p.cache ≡ s' = ground (arith, rest) in
      rw (← same) (apply_records-IsSettled clock 0 elapsed (reverse rs) start p h ran)

  -- Whatever a file holds, `load` leaves the keys in their shards.
  pub load-IsSettled :
      (wall_clock : ℕ) (clock : ℕ → ℕ) (file : Option Bytes) (s s' : ShardedCache)
      (result : LoadResult)
      → Settled s
      → load std_hash wall_clock clock file s ≡ some (result, s')
      → Settled s'
  unfolding load
  load-IsSettled wall_clock clock none s s' result h done =
      let same : s ≡ s' = ground (arith, done) in rw (← same) h
  load-IsSettled wall_clock clock (some file) s s' result h done =
      elim (Parsed-cases (parse_head file)) [
        | inr (_, bad) ↦ let same : s ≡ s' = ground (arith, bad, done) in rw (← same) h
        | inl ((at, body), good) ↦
            let (elapsed, _, rest) =
              bind-some (elapsed_ms wall_clock at) _ (rw (good, load) at done) in
            elim (Parsed-cases (parse_body (length file) body)) [
              | inr (_, bad) ↦ let same : s ≡ s' = ground (arith, bad, rest) in rw (← same) h
              | inl (rs, all) ↦
                  replay-IsSettled clock elapsed rs s s' result h (ground (arith, all, rest))
            ]
      ]
