-- ===== src/Persistence/Reject.antt =====
-- What `load` does to a file of any bytes.
use mathlib.Core.List.{reverse-cons}
use cache_x.Base.{
  reverse, length-append, ℕ, ◌+◌, ◌≡◌, refl, ap, ◌∙◌, ◌⊎◌, inl, inr, List, [], ◌∷◌, some, Bytes,
  true, false, length, ℤ, arith, Option-cases,
}
use cache_x.Sharded.{ShardedCache}
use cache_x.Persistence.{LoadResult, Progress, apply_records, replay, failed, load, elapsed_ms}
use cache_x.Persistence.File.{
  Record, LoadError, message, parsed, rejected, Parsed-cases, parse_head, parse_body, parse_file,
}
use cache_x.Persistence.Calls.{calls_of_records, apply_records-Replayed}
use cache_x.Cache.Op.{Reply}
use cache_x.Sharded.Op.{run}

length-reverse {ℓ} : {A : Type ℓ} (xs : List A) → length (reverse xs) ≡ length xs
length-reverse [] = refl
length-reverse (x ∷ xs) =
    ap length (reverse-cons x xs)
    ∙ length-append (reverse xs) (x ∷ [])
    ∙ omega (arith, length-reverse xs)

module _ (std_hash : Bytes → ℕ) where
  -- All of the file has been read, and its records make the calls of the cache that they stand for,
  -- the last record first. `loaded` counts these calls, `expired` the other records.
  abbrev pub Loads : ℕ → (ℕ → ℕ) → Bytes → ShardedCache → ShardedCache → LoadResult → Type 0
  Loads wall_clock clock file cache cache' r =
      (saved_at : ℤ) × (records : List Record) × (elapsed : ℕ) × (replies : List Reply)
      × (parse_file file ≡ parsed (saved_at, records))
      × (elapsed_ms wall_clock saved_at ≡ some elapsed)
      × (run std_hash (calls_of_records clock 0 elapsed (reverse records)) cache
          ≡ some (cache', replies))
      × (r.loaded ≡ length (calls_of_records clock 0 elapsed (reverse records)))
      × (r.loaded + r.expired ≡ length records)

  -- Nothing of the file has been applied.
  abbrev pub Refuses : Bytes → ShardedCache → ShardedCache → LoadResult → Type 0
  Refuses file cache cache' r =
      (e : LoadError) × (parse_file file ≡ rejected e)
      × (r.error ≡ message e)
      × (cache' ≡ cache)
      × (r.loaded ≡ 0)
      × (r.expired ≡ 0)

  load_failed :
      (e : LoadError) (cache cache' : ShardedCache) (r : LoadResult) (file : Bytes)
      → some (failed e cache) ≡ some (r, cache')
      → parse_file file ≡ rejected e
      → (r.ok ≡ false) × Refuses file cache cache' r
  load_failed e cache cache' r file h bad = (
    ground (arith, h),
    (e, bad, ground (arith, h), ground (arith, h), ground (arith, h), ground (arith, h)),
  )

  replay-Loads :
      (wall_clock : ℕ) (clock : ℕ → ℕ) (elapsed : ℕ) (records : List Record) (saved_at : ℤ)
      (file : Bytes) (cache cache' : ShardedCache) (r : LoadResult)
      → replay std_hash clock elapsed records cache ≡ some (r, cache')
      → parse_file file ≡ parsed (saved_at, records)
      → elapsed_ms wall_clock saved_at ≡ some elapsed
      → (r.ok ≡ true) × Loads wall_clock clock file cache cache' r
  unfolding replay
  replay-Loads wall_clock clock elapsed records saved_at file cache cache' r h good time =
      let start : Progress = record { cache = cache; loaded = 0; expired = 0 } in
      let calls = calls_of_records clock 0 elapsed (reverse records) in
      elim (Option-cases (apply_records std_hash clock 0 elapsed (reverse records) start)) [
        | inl over ↦ absurd (ground (arith, over, h))
        | inr (p, done) ↦
            let ((replies, ran), loaded, all) =
              apply_records-Replayed std_hash clock 0 elapsed (reverse records) start p done in
            let same : p.cache ≡ cache' = ground (arith, done, h) in
            let loaded' : r.loaded ≡ length calls = ground (arith, done, h, loaded) in
            let all' : r.loaded + r.expired ≡ length records =
              ground (arith, done, h, all, length-reverse records) in
            (
              ground (arith, done, h),
              (saved_at, records, elapsed, replies, good, time, rw (← same) ran, loaded', all'),
            )
      ]

  -- A file that can be opened is loaded as a whole or not at all. On success every record, the last
  -- one first, is set with what is left of its time, or counted as expired if nothing is left, and
  -- the numbers that `load` reports are those of the one and of the other. On failure the error is
  -- what is wrong with the file, the cache is as it was and both numbers are 0. The load must not
  -- overflow.
  pub load-all_or_nothing :
      (wall_clock : ℕ) (clock : ℕ → ℕ) (file : Bytes) (cache cache' : ShardedCache) (r : LoadResult)
      → load std_hash wall_clock clock (some file) cache ≡ some (r, cache')
      → ((r.ok ≡ true) × Loads wall_clock clock file cache cache' r)
        ⊎ ((r.ok ≡ false) × Refuses file cache cache' r)
  unfolding load parse_file
  load-all_or_nothing wall_clock clock file cache cache' r h =
      elim (Parsed-cases (parse_head file)) [
        | inr (e, bad) ↦
            inr (load_failed e cache cache' r file (ground (arith, bad, h)) (ground (arith, bad)))
        | inl ((saved_at, rest), head) ↦ elim (Option-cases (elapsed_ms wall_clock saved_at)) [
          | inl over ↦ absurd (ground (arith, head, over, h))
          | inr (elapsed, some_time) ↦ elim (Parsed-cases (parse_body (length file) rest)) [
            | inr (e, bad) ↦ inr (
                load_failed e cache cache' r file (ground (arith, head, some_time, bad, h))
                  (ground (arith, head, bad)))
            | inl (records, body) ↦ inl (
                replay-Loads wall_clock clock elapsed records saved_at file cache cache' r
                  (ground (arith, head, some_time, body, h)) (ground (arith, head, body)) some_time)
          ]
        ]
      ]
