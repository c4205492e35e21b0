-- ===== src/Persistence.antt =====
-- src/persistence.cpp and include/cachex/persistence.hpp: snapshots of the cache in a file.
-- A file is its bytes. A read from a stream takes them from the front; a read that sets `failbit`
-- gives `none`, and the code gives up after each one but the `get` behind the entry count.
-- `none` of an operation is undefined behaviour: a signed overflow of the 64-bit arithmetic.
pub mod File
pub mod Disk
pub mod Atomic
pub mod Concurrent
pub mod Roundtrip
pub mod Load
pub mod Survive
pub mod Shares
pub mod Restore
pub mod Settled
pub mod Calls
pub mod Reject
mod Tests
use cache_x.Base.{
  ℕ, zero, suc, ◌+◌, ◌-◌, ◌*◌, ◌/◌, ◌^◌, List, [], ◌∷◌, ◌++◌, Option, none, some, Bytes, codes,
  bytes_eq, Bool, true, false, ◌&&◌, ◌||◌, leb, ltb, ◌==◌, if◌then◌else◌, length, reverse, ℤ, pos,
  negsuc, ◌>>=◌,
}
use cache_x.Decimal.{print_ℕ, print_ℤ, negated}
use cache_x.Cache.{EntrySnapshot}
use cache_x.Persistence.File.{
  Record, LoadError, message, Parsed, parsed, rejected, parse_head, parse_body,
}
use cache_x.Sharded
use cache_x.Sharded.{ShardedCache}

pub record LoadResult : Type 0 where
  pub ok : Bool
  pub loaded : ℕ
  pub expired : ℕ
  pub error : Bytes

-- A difference of two `long long`s.
unfoldable pub subtract : ℤ → ℤ → Option ℤ
subtract (pos a) (pos b) = some (if leb b a then pos (a - b) else negsuc (b - a - 1))
subtract (pos a) (negsuc b) = if ltb (a + suc b) (2 ^ 63) then some (pos (a + suc b)) else none
subtract (negsuc a) (pos b) = if ltb (a + b) (2 ^ 63) then some (negsuc (a + b)) else none
subtract (negsuc a) (negsuc b) = some (if leb a b then pos (b - a) else negsuc (a - b - 1))

-- `std::max<long long>(0, z)`
abbrev pub at_least_zero : ℤ → ℕ
at_least_zero (pos n) = n
at_least_zero (negsuc _) = 0

unfoldable pub elapsed_ms : ℕ → ℤ → Option ℕ
unfolding subtract
elapsed_ms wall_clock saved_at = do d ← subtract (pos wall_clock) saved_at; some (at_least_zero d)

abbrev pub no_expiry : ℤ
no_expiry = negsuc 0

abbrev pub is_no_expiry : ℤ → Bool
is_no_expiry (negsuc zero) = true
is_no_expiry _ = false

abbrev pub is_positive : ℤ → Bool
is_positive (pos (suc _)) = true
is_positive _ = false

-- What the loop that applies the records keeps.
pub record Progress : Type 0 where
  pub cache : ShardedCache
  pub loaded : ℕ
  pub expired : ℕ

abbrev pub finished : Progress → LoadResult × ShardedCache
finished p = (record { ok = true; loaded = p.loaded; expired = p.expired; error = [] }, p.cache)

abbrev pub failed : LoadError → ShardedCache → LoadResult × ShardedCache
failed e cache = (record { ok = false; loaded = 0; expired = 0; error = message e }, cache)

module _ (std_hash : Bytes → ℕ) where
  unfoldable pub apply_ttl : ℕ → Record → ℤ → Progress → Option Progress
  apply_ttl now r remaining p =
      if is_positive remaining
      then (do
        (c, _) ← Sharded.set_ttl std_hash now r.key r.value remaining p.cache
        some (record p { cache = c; loaded = p.loaded + 1 }))
      else some (record p { expired = p.expired + 1 })

  unfoldable pub apply_record : ℕ → ℕ → Record → Progress → Option Progress
  unfolding apply_ttl subtract
  apply_record now elapsed r p =
      if is_no_expiry r.ttl_ms
      then (do
        (c, _) ← Sharded.set std_hash r.key r.value p.cache
        some (record p { cache = c; loaded = p.loaded + 1 }))
      else (do remaining ← subtract r.ttl_ms (pos elapsed); apply_ttl now r remaining p)

  -- The record at position `i` of the replay is set at the instant `clock i`.
  unfoldable pub apply_records : (ℕ → ℕ) → ℕ → ℕ → List Record → Progress → Option Progress
  unfolding apply_record
  apply_records clock i elapsed [] p = some p
  apply_records clock i elapsed (r ∷ rs) p = do
    p' ← apply_record (clock i) elapsed r p
    apply_records clock (i + 1) elapsed rs p'

  unfoldable pub replay :
      (ℕ → ℕ) → ℕ → List Record → ShardedCache → Option (LoadResult × ShardedCache)
  replay clock elapsed records cache = do
    p ←
        apply_records clock 0 elapsed (reverse records)
          (record { cache = cache; loaded = 0; expired = 0 })
    some (finished p)

  -- The file is `none` if it cannot be opened. It is parsed as a whole before any of it is applied,
  -- in reverse order; the time since the save is computed before the count is read.
  unfoldable pub load :
      ℕ → (ℕ → ℕ) → Option Bytes → ShardedCache → Option (LoadResult × ShardedCache)
  load wall_clock clock none cache =
      some (record { ok = true; loaded = 0; expired = 0; error = [] }, cache)
  load wall_clock clock (some file) cache = elim (parse_head file) [
    | rejected e ↦ some (failed e cache)
    | parsed (saved_at, rest) ↦ do
      elapsed ← elapsed_ms wall_clock saved_at
      elim (parse_body (length file) rest) [
        | rejected e ↦ some (failed e cache)
        | parsed records ↦ replay clock elapsed records cache
      ]
  ]
