-- ===== src/Persistence/Load.antt =====
-- What `load` does to the cache: a sequence of calls of `set`, or nothing at all.
use cache_x.Base.{
  ℕ, ◌+◌, ◌-◌, ◌^◌, ◌≤◌, ◌<◌, ◌≡◌, refl, ap, sym, ◌∙◌, ◌>>=◌, ◌++◌, Option-cases, Bool-cases, inl,
  inr, List, [], ◌∷◌, map, none, some, Bytes, true, if◌then◌else◌, ltb, length, reverse, ℤ, pos,
  arith,
}
use mathlib.Core.List.{reverse-cons, map-append}
use cache_x.Cache.{EntrySnapshot}
use cache_x.Cache.Op.{Op}
use cache_x.Sharded
use cache_x.Sharded.{ShardedCache}
use cache_x.Sharded.Op.{run}
use cache_x.Persistence.{Progress, apply_records, replay, load, elapsed_ms}
use cache_x.Persistence.File.{
  Record, render, parsed, Parsed-cases, parse_head, parse_body, parse_file,
}
use cache_x.Persistence.Roundtrip.{AllTtlFit, record_of, parse_file-render}

-- The calls for the entries of a snapshot that was taken `elapsed` ms ago.
unfoldable pub replay_ops : (ℕ → ℕ) → ℕ → ℕ → List EntrySnapshot → List (ℕ × Op)
replay_ops clock i elapsed [] = []
replay_ops clock i elapsed (e ∷ es) =
    let rest = replay_ops clock (i + 1) elapsed es in
    elim e.remaining_ttl [
      | none ↦ (clock i, Op.set e.key e.value) ∷ rest
      | some ttl ↦
          if ltb elapsed ttl
          then (clock i, Op.set_ttl e.key e.value (pos (ttl - elapsed))) ∷ rest
          else rest
    ]

map-reverse {ℓ κ} :
    {A : Type ℓ} {B : Type κ} (f : A → B) (xs : List A) → map f (reverse xs) ≡ reverse (map f xs)
map-reverse f [] = refl
map-reverse f (x ∷ xs) =
    ap (map f) (reverse-cons x xs)
    ∙ map-append f (reverse xs) (x ∷ [])
    ∙ ap (λ l. l ++ (f x ∷ [])) (map-reverse f xs)
    ∙ sym (reverse-cons (f x) (map f xs))

replay_ops-length :
    (clock : ℕ → ℕ) (i elapsed : ℕ) (es : List EntrySnapshot)
    → length (replay_ops clock i elapsed es) ≤ length es
unfolding replay_ops
replay_ops-length clock i elapsed [] = omega arith
replay_ops-length clock i elapsed (e ∷ es) =
    ground (arith, replay_ops-length clock (i + 1) elapsed es)

elapsed_ms_lem :
    (wall_clock saved_at : ℕ) → elapsed_ms wall_clock (pos saved_at) ≡ some (wall_clock - saved_at)
unfolding elapsed_ms
elapsed_ms_lem wall_clock saved_at = ground arith

module _ (std_hash : Bytes → ℕ) where
  apply_records-run :
      (clock : ℕ → ℕ) (i elapsed : ℕ) (es : List EntrySnapshot) (p : Progress)
      → apply_records std_hash clock i elapsed (map record_of es) p ≡ (do
        (c, _) ← run std_hash (replay_ops clock i elapsed es) p.cache
        some (record {
          cache = c;
          loaded = p.loaded + length (replay_ops clock i elapsed es);
          expired = p.expired + (length es - length (replay_ops clock i elapsed es));
        }))
  unfolding apply_records replay_ops run
  apply_records-run clock i elapsed [] p = ground arith
  apply_records-run clock i elapsed (e ∷ es) p =
      let ih = apply_records-run clock (i + 1) elapsed es in
      let few = replay_ops-length clock (i + 1) elapsed es in
      elim (Option-cases e.remaining_ttl) [
        | inl n ↦ elim (Option-cases (Sharded.set std_hash e.key e.value p.cache)) [
          | inl f ↦ ground (arith, n, f)
          | inr ((c, _), f) ↦ ground (
            arith,
            n,
            f,
            ih (record { cache = c; loaded = p.loaded + 1; expired = p.expired }),
            few,
          )
        ]
        | inr (ttl, n) ↦ elim (Bool-cases (ltb elapsed ttl)) [
          | inl live ↦
              elim (Option-cases
                (Sharded.set_ttl std_hash (clock i) e.key e.value (pos (ttl - elapsed)) p.cache)) [
                  | inl f ↦ ground (arith, n, f, live)
                  | inr ((c, _), f) ↦ ground (
                    arith,
                    n,
                    f,
                    live,
                    ih (record { cache = c; loaded = p.loaded + 1; expired = p.expired }),
                    few,
                  )
                ]
          | inr dead ↦ ground (
            arith,
            n,
            dead,
            ih (record { cache = p.cache; loaded = p.loaded; expired = p.expired + 1 }),
            few,
          )
        ]
      ]

  load-parsed :
      (wall_clock : ℕ) (clock : ℕ → ℕ) (file : Bytes) (cache : ShardedCache) (saved_at : ℤ)
      (records : List Record)
      → parse_file file ≡ parsed (saved_at, records)
      → load std_hash wall_clock clock (some file) cache
        ≡ (do elapsed ← elapsed_ms wall_clock saved_at; replay std_hash clock elapsed records cache)
  unfolding load parse_file
  load-parsed wall_clock clock file cache saved_at records e =
      elim (Parsed-cases (parse_head file)) [
        | inr (_, f) ↦ absurd (ground (arith, e, f))
        | inl ((at, rest), e₁) ↦ elim (Parsed-cases (parse_body (length file) rest)) [
          | inr (_, f) ↦ absurd (ground (arith, e, e₁, f))
          | inl (rs, e₂) ↦
              let same_at : at ≡ saved_at = ground (arith, e, e₁, e₂) in
              let same : rs ≡ records = ground (arith, e, e₁, e₂) in
              ground (arith, e₁, e₂, ap (elapsed_ms wall_clock) same_at, same)
        ]
      ]

  -- Loading a file that `save` wrote is a sequence of calls of `set`, from the last entry to the
  -- first: each entry gets what is left of its time to live after the time since the save, one
  -- without a time to live none, and one whose time has run out is counted and left out. A clock
  -- that stands before the one of the save counts as no time. The clock of the save, the times to
  -- live and the size of the file must fit a `long long`.
  pub load-render :
      (saved_at wall_clock : ℕ) (clock : ℕ → ℕ) (es : List EntrySnapshot) (cache : ShardedCache)
      → saved_at < 2 ^ 63
      → AllTtlFit es
      → length (render saved_at es) < 2 ^ 63
      → load std_hash wall_clock clock (some (render saved_at es)) cache ≡ (do
        (c, _) ← run std_hash (replay_ops clock 0 (wall_clock - saved_at) (reverse es)) cache
        some (
          record {
            ok = true;
            loaded = length (replay_ops clock 0 (wall_clock - saved_at) (reverse es));
            expired =
                length (reverse es)
                - length (replay_ops clock 0 (wall_clock - saved_at) (reverse es));
            error = [];
          },
          c,
        ))
  unfolding replay
  load-render saved_at wall_clock clock es cache h t fits =
      load-parsed wall_clock clock (render saved_at es) cache (pos saved_at) (map record_of es)
        (parse_file-render saved_at es h t fits)
      ∙ ground (
        arith,
        map-reverse record_of es,
        elapsed_ms_lem wall_clock saved_at,
        apply_records-run clock 0 (wall_clock - saved_at) (reverse es)
            (record { cache = cache; loaded = 0; expired = 0 }),
      )
