-- ===== src/Persistence/Tests.antt =====
-- The theorems about snapshots at small inputs.
use cache_x.Base.{
  ◌==◌, ℕ, Option, get_elem?, ◌^◌, ◌≡◌, ◌<◌, ◌-◌, ◌⊎◌, refl, List, [], ◌∷◌, ◌++◌, map, reverse,
  length, some, none, Bytes, bytes_eq, codes, true, false, arith, pos, ◌>>=◌, if◌then◌else◌,
}
use cache_x.Decimal.{print_ℕ, print_ℤ, scan_digits, read_magnitude, is_digit, digits_within}
use cache_x.Cache
use cache_x.Index
use cache_x.Recency
use cache_x.Recency.{insert_newest}
use cache_x.Cache.{Cache, EntrySnapshot, unbounded}
use cache_x.Cache.Op
use cache_x.Cache.Run.{AllInRange, unbounded-IsValid}
use cache_x.Sharded
use cache_x.Sharded.Home.{IsSettled, run-IsSettled}
use cache_x.Persistence.Restore.{AllEmpty, IsRestored, load-restores}
use cache_x.Sharded.{ShardedCache, shard_index_for}
use cache_x.Sharded.Op.{run}
use cache_x.Persistence.{
  LoadResult, load, replay, apply_records, apply_record, apply_ttl, subtract, elapsed_ms,
}
use cache_x.Persistence.File.{
  read_header, read_word, read_integer, render, render_entries, render_entry, parse_head,
  parse_body, parse_file, parsed, read_count, read_records, read_record, read_exact, read_signed,
  split_word, skip_spaces,
}
use cache_x.Persistence.Disk.{Disk, Answers}
use cache_x.Persistence.Roundtrip.{AllTtlFit, record_of, parse_file-render}
use cache_x.Persistence.Load.{replay_ops, load-render}
use cache_x.Persistence.Reject.{Loads, Refuses, load-all_or_nothing}
use cache_x.Persistence.Concurrent.{Save, interleave, begin}
use cache_x.Persistence.Concurrent.Complete.{interleave_complete}

-- A value with a newline and a space in it, and an entry that expires.
abbrev entries : List EntrySnapshot
entries =
    record { key = codes "a"; value = codes "1 " ++ 10 ∷ []; remaining_ttl = none }
    ∷ record { key = codes "b"; value = []; remaining_ttl = some 500 }
    ∷ []

entries-length : length (render 1000 entries) < 2 ^ 63
unfolding render render_entries render_entry print_ℕ print_ℤ
entries-length = omega arith

parse_file-render_example :
    parse_file (render 1000 entries) ≡ parsed (pos 1000, map record_of entries)
parse_file-render_example =
    parse_file-render 1000 entries (omega arith) (tt, (omega arith, tt)) entries-length

abbrev one_shard : ShardedCache
one_shard = record { shards = unbounded ∷ [] }

load-render_example :
    load (λ k. length k) 1200 (λ i. i) (some (render 1000 entries)) one_shard ≡ (do
      (c, _) ← run (λ k. length k) (replay_ops (λ i. i) 0 (1200 - 1000) (reverse entries)) one_shard
      some (
        record {
          ok = true;
          loaded = length (replay_ops (λ i. i) 0 (1200 - 1000) (reverse entries));
          expired =
              length (reverse entries)
              - length (replay_ops (λ i. i) 0 (1200 - 1000) (reverse entries));
          error = [];
        },
        c,
      ))
load-render_example =
    load-render (λ k. length k) 1000 1200 (λ i. i) entries one_shard (omega arith)
      (tt, (omega arith, tt)) entries-length

abbrev answers : Answers
answers = record {
  temp_path = codes "s.tmp.1.0";
  opens = true;
  pieces = codes "new" ∷ codes " text" ∷ [];
  renames = true;
  reason = [];
}

abbrev files : Disk
files = λ p. if bytes_eq p (codes "s") then some (codes "old") else none

-- Two saves of different texts, the calls of one between those of the other.
abbrev saves : ℕ → Save
saves = λ i. record {
  entries = 1;
  text = if i == 0 then codes "new text" else codes "other";
  answers = record answers { pieces = (if i == 0 then codes "new text" else codes "other") ∷ [] };
}

interleave_complete_example :
    ((interleave (0 ∷ 1 ∷ 1 ∷ 0 ∷ 1 ∷ []) (begin (codes "s") 42 saves files)).disk (codes "s")
      ≡ files (codes "s"))
    ⊎ ((i : ℕ) × ((interleave (0 ∷ 1 ∷ 1 ∷ 0 ∷ 1 ∷ []) (begin (codes "s") 42 saves files)).disk
            (codes "s")
          ≡ some (saves i).text))
interleave_complete_example =
    interleave_complete (codes "s") 42 saves (0 ∷ 1 ∷ 1 ∷ 0 ∷ 1 ∷ []) files
      (omega arith, (omega arith, (omega arith, (omega arith, (omega arith, tt)))))

-- A cache with one key, saved and loaded a second later.
abbrev or_unbounded : Option Cache → Cache
or_unbounded none = unbounded
or_unbounded (some c) = c

abbrev held : Cache
held = or_unbounded (Cache.set (codes "a") (codes "1") unbounded)

-- Both entries loaded at a time at which the one with a time to live is over.
abbrev one_of_two : LoadResult
one_of_two = record { ok = true; loaded = 1; expired = 1; error = [] }

abbrev first_held : ShardedCache
first_held = record {
  shards = or_unbounded (Cache.set (codes "a") (codes "1 " ++ 10 ∷ []) unbounded) ∷ [];
}

load_two :
    load (λ k. length k) 1600 (λ i. i) (some (render 1000 entries)) one_shard
    ≡ some (one_of_two, first_held)
unfolding load parse_head parse_body read_header read_word read_integer render render_entries
    render_entry print_ℕ print_ℤ read_count read_records read_record read_exact read_signed
    split_word skip_spaces replay apply_records apply_record apply_ttl subtract elapsed_ms
    scan_digits read_magnitude is_digit digits_within Sharded.set shard_index_for Cache.set
    Cache.store Index.find Index.emplace Cache.trim
load_two = refl

load-all_or_nothing_example :
    ((one_of_two.ok ≡ true)
      × Loads (λ k. length k) 1600 (λ i. i) (render 1000 entries) one_shard first_held one_of_two)
    ⊎ ((one_of_two.ok ≡ false)
        × Refuses (λ k. length k) (render 1000 entries) one_shard first_held one_of_two)
load-all_or_nothing_example =
    load-all_or_nothing (λ k. length k) 1600 (λ i. i) (render 1000 entries) one_shard first_held
      one_of_two load_two

abbrev taken : ShardedCache
taken = record { shards = held ∷ [] }

abbrev hash : Bytes → ℕ
hash = λ k. length k

taken_facts :
    (run hash ((0, Op.set (codes "a") (codes "1")) ∷ []) one_shard ≡ some (taken, Op.done ∷ []))
    × AllTtlFit (Sharded.export_entries (λ i. 7) taken)
    × (length (render 1000 (Sharded.export_entries (λ i. 7) taken)) < 2 ^ 63)
    × AllInRange
        (replay_ops (λ i. i) 0 (2000 - 1000) (reverse (Sharded.export_entries (λ i. 7) taken)))
unfolding run Sharded.set shard_index_for Cache.set Cache.store Index.find Index.emplace Cache.trim
    Sharded.export_entries Cache.export_entries Recency.entries insert_newest render render_entries
    render_entry print_ℤ replay_ops
taken_facts = (refl, (tt, tt), omega arith, (tt, tt))

one_shard-IsSettled : IsSettled hash (none ∷ []) one_shard
unfolding Recency.entries
one_shard-IsSettled = record { valid = (unbounded-IsValid, tt); home = (tt, tt); shape = refl }

one_shard-AllEmpty : AllEmpty one_shard.shards
unfolding Recency.entries
one_shard-AllEmpty = (refl, tt)

load-restores_example :
    (result : LoadResult) × (s' : ShardedCache) × (c' : Cache) × (load hash 2000
        (λ i. i)
        (some (render 1000 (Sharded.export_entries (λ i. 7) taken)))
        one_shard
      ≡ some (result, s'))
    × (result.ok ≡ true)
    × (get_elem? s'.shards 0 ≡ some c')
    × IsRestored 7 (2000 - 1000) held c'
load-restores_example =
    load-restores hash 1000 2000 (λ i. 7) (λ i. i) (none ∷ []) taken one_shard (omega arith)
      taken_facts.1 taken_facts.2 taken_facts.3
      (run-IsSettled hash ((0, Op.set (codes "a") (codes "1")) ∷ []) (none ∷ []) one_shard taken
        (Op.done ∷ []) one_shard-IsSettled taken_facts.0)
      one_shard-IsSettled one_shard-AllEmpty 0 held refl
