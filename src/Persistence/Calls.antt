-- ===== src/Persistence/Calls.antt =====
-- The calls of the cache that a replay of any records makes.
use cache_x.Base.{
  Bytes, ℕ, zero, suc, ◌+◌, ◌-◌, ◌≡◌, refl, List, [], ◌∷◌, Option, none, some, true, false,
  if◌then◌else◌, ltb, leb, length, ℤ, pos, negsuc, arith, Option-cases, Bool-cases, inl, inr, ◌^◌,
  ◌<◌,
}
use cache_x.Cache.Op
use cache_x.Cache.Op.{Op, Reply}
use cache_x.Sharded
use cache_x.Sharded.{ShardedCache}
use cache_x.Sharded.Op.{step, run}
use cache_x.Persistence.File.{Record}
use cache_x.Persistence.{Progress, is_positive, subtract, apply_ttl, apply_record, apply_records}

-- The call for a record that was saved `elapsed` ms ago, or none if its time has run out: -1 stands
-- for no end, every other negative time for one that is over.
unfoldable pub call_for : ℕ → Record → ℤ → Option Op
call_for elapsed r (negsuc zero) = some (Op.set r.key r.value)
call_for elapsed r (negsuc (suc _)) = none
call_for elapsed r (pos ttl) =
    if ltb elapsed ttl then some (Op.set_ttl r.key r.value (pos (ttl - elapsed))) else none

unfoldable pub calls_of_records : (ℕ → ℕ) → ℕ → ℕ → List Record → List (ℕ × Op)
unfolding call_for
calls_of_records clock i elapsed [] = []
calls_of_records clock i elapsed (r ∷ rs) =
    let rest = calls_of_records clock (i + 1) elapsed rs in
    elim (call_for elapsed r r.ttl_ms) [ none ↦ rest | some op ↦ (clock i, op) ∷ rest ]

is_positive-pos : (n : ℕ) → 0 < n → is_positive (pos n) ≡ true
is_positive-pos zero h = absurd (omega arith)
is_positive-pos (suc n) h = refl

is_positive-zero : (n : ℕ) → n ≡ 0 → is_positive (pos n) ≡ false
is_positive-zero zero h = refl
is_positive-zero (suc n) h = absurd (omega arith)

module _ (std_hash : Bytes → ℕ) where
  -- What one record does.
  abbrev Applied : ℕ → Option Op → Progress → Progress → Type 0
  Applied now none p p' =
      (p.cache ≡ p'.cache) × (p'.loaded ≡ p.loaded) × (p'.expired ≡ p.expired + 1)
  Applied now (some op) p p' =
      ((reply : Reply) × (step std_hash now op p.cache ≡ some (p'.cache, reply)))
      × (p'.loaded ≡ p.loaded + 1)
      × (p'.expired ≡ p.expired)

  expired-Applied :
      (now : ℕ) (r : Record) (remaining : ℤ) (p p' : Progress)
      → is_positive remaining ≡ false
      → apply_ttl std_hash now r remaining p ≡ some p'
      → Applied now none p p'
  unfolding apply_ttl
  expired-Applied now r remaining p p' over done =
      (ground (arith, over, done), ground (arith, over, done), ground (arith, over, done))

  live-Applied :
      (now : ℕ) (r : Record) (remaining : ℤ) (p p' : Progress)
      → is_positive remaining ≡ true
      → apply_ttl std_hash now r remaining p ≡ some p'
      → Applied now (some (Op.set_ttl r.key r.value remaining)) p p'
  unfolding apply_ttl step
  live-Applied now r remaining p p' on done =
      elim (Option-cases (Sharded.set_ttl std_hash now r.key r.value remaining p.cache)) [
        | inl undefined ↦ absurd (ground (arith, on, undefined, done))
        | inr ((c, _), ran) ↦ (
          (Op.done, ground (arith, on, ran, done)),
          ground (arith, on, ran, done),
          ground (arith, on, ran, done),
        )
      ]

  apply_record-Applied :
      (now elapsed : ℕ) (r : Record) (ttl : ℤ) (p p' : Progress)
      → r.ttl_ms ≡ ttl
      → apply_record std_hash now elapsed r p ≡ some p'
      → Applied now (call_for elapsed r ttl) p p'
  unfolding apply_record call_for subtract step
  apply_record-Applied now elapsed r (negsuc zero) p p' e done =
      elim (Option-cases (Sharded.set std_hash r.key r.value p.cache)) [
        | inl undefined ↦ absurd (ground (arith, e, undefined, done))
        | inr ((c, _), ran) ↦ (
          (Op.done, ground (arith, e, ran, done)),
          ground (arith, e, ran, done),
          ground (arith, e, ran, done),
        )
      ]
  apply_record-Applied now elapsed r (negsuc (suc n)) p p' e done =
      elim (Bool-cases (ltb (suc n + elapsed) (2 ^ 63))) [
        | inr overflows ↦ absurd (ground (arith, e, overflows, done))
        | inl fits ↦
            expired-Applied now r (negsuc (suc n + elapsed)) p p' refl
              (ground (arith, e, fits, done))
      ]
  apply_record-Applied now elapsed r (pos ttl) p p' e done = elim (Bool-cases (ltb elapsed ttl)) [
    | inl on ↦
        let positive : is_positive (pos (ttl - elapsed)) ≡ true =
          is_positive-pos (ttl - elapsed) (ground (arith, on)) in
        rw on (live-Applied now r (pos (ttl - elapsed)) p p' positive (ground (arith, e, on, done)))
    | inr over ↦ elim (Bool-cases (leb elapsed ttl)) [
      | inl same ↦ rw over (
          expired-Applied now r (pos (ttl - elapsed)) p p'
            (is_positive-zero (ttl - elapsed) (ground (arith, over, same)))
            (ground (arith, e, over, same, done)))
      | inr past ↦ rw over (
          expired-Applied now r (negsuc (elapsed - ttl - 1)) p p' refl
            (ground (arith, e, over, past, done)))
    ]
  ]

  -- What the records do one after the other.
  abbrev pub Replayed : List (ℕ × Op) → ℕ → Progress → Progress → Type 0
  Replayed calls n p p' =
      ((replies : List Reply) × (run std_hash calls p.cache ≡ some (p'.cache, replies)))
      × (p'.loaded ≡ p.loaded + length calls)
      × (p'.loaded + p'.expired ≡ p.loaded + p.expired + n)

  Applied-Replayed :
      (now n : ℕ) (op : Option Op) (calls : List (ℕ × Op)) (p q p' : Progress)
      → Applied now op p q
      → Replayed calls n q p'
      → Replayed (elim op [ none ↦ calls | some o ↦ (now, o) ∷ calls ]) (suc n) p p'
  unfolding run
  Applied-Replayed now n none calls p q p' (same, l, e) ((replies, ran), loaded, all) =
      ((replies, rw same ran), omega (arith, l, loaded), omega (arith, l, e, loaded, all))
  Applied-Replayed now n (some op) calls p q p' ((reply, one), l, e) ((replies, ran), loaded, all) =
      (
        (reply ∷ replies, ground (arith, one, ran)),
        ground (arith, l, loaded),
        omega (arith, l, e, loaded, all),
      )

  pub apply_records-Replayed :
      (clock : ℕ → ℕ) (i elapsed : ℕ) (rs : List Record) (p p' : Progress)
      → apply_records std_hash clock i elapsed rs p ≡ some p'
      → Replayed (calls_of_records clock i elapsed rs) (length rs) p p'
  unfolding apply_records calls_of_records run
  apply_records-Replayed clock i elapsed [] p p' done =
      let same : p ≡ p' = ground (arith, done) in
      rw (← same) (([], refl), ground arith, ground arith)
  apply_records-Replayed clock i elapsed (r ∷ rs) p p' done =
      elim (Option-cases (apply_record std_hash (clock i) elapsed r p)) [
        | inl undefined ↦ absurd (ground (arith, undefined, done))
        | inr (q, one) ↦
            let rest =
              apply_records-Replayed clock (i + 1) elapsed rs q p' (ground (arith, one, done)) in
            Applied-Replayed (clock i) (length rs) (call_for elapsed r r.ttl_ms)
              (calls_of_records clock (i + 1) elapsed rs) p q p'
              (apply_record-Applied (clock i) elapsed r r.ttl_ms p q refl one) rest
      ]
