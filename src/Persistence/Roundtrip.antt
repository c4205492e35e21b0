-- ===== src/Persistence/Roundtrip.antt =====
-- `load` reads back what `save` wrote.
use mathlib.Core.Logic.{◌≢◌}
use mathlib.Core.List.{append_assoc}
use cache_x.Base.{
  ℕ, suc, ◌+◌, ◌*◌, ◌^◌, ◌≤◌, ◌<◌, ◌≡◌, refl, List, [], ◌∷◌, ◌++◌, map, Option, none, some, Bytes,
  bytes_eq, length, length-append, pos, arith,
}
use cache_x.Decimal.{print_ℕ, print_ℤ, is_digit, read_magnitude}
use cache_x.Decimal.Laws.{
  AllDigits, Stops, print_ℕ-AllDigits, print_ℕ-ne-nil, read_magnitude-print_ℕ,
}
use cache_x.Cache.{EntrySnapshot}
use cache_x.Persistence.File.{
  Record, magic, version, ttl_field, render_entry, render_entries, render, read_word, read_integer,
  read_exact, parsed, read_record, read_records, read_header, read_count, parse_head, parse_body,
  parse_file, long_limit, int_limit,
}

read_integer_digits :
    (limit n : ℕ) (ds rest : Bytes)
    → AllDigits ds
    → ds ≢ []
    → read_magnitude limit (ds ++ rest) ≡ some (n, rest)
    → read_integer limit (ds ++ rest) ≡ some (pos n, rest)
unfolding read_integer is_digit
read_integer_digits limit n [] rest a ne h = absurd (ne refl)
read_integer_digits limit n (d ∷ ds) rest a ne h = ground (arith, a.0)

read-print_ℕ :
    (limit n : ℕ) (rest : Bytes)
    → n < limit
    → Stops rest
    → read_integer limit (print_ℕ n ++ rest) ≡ some (pos n, rest)
read-print_ℕ limit n rest h s =
    read_integer_digits limit n (print_ℕ n) rest (print_ℕ-AllDigits n) (print_ℕ-ne-nil n)
      (read_magnitude-print_ℕ limit n rest h s)

read-space : (limit : ℕ) (l : Bytes) → read_integer limit (b' ' ∷ l) ≡ read_integer limit l
unfolding read_integer
read-space limit l = refl

read-newline : (limit : ℕ) (l : Bytes) → read_integer limit (10 ∷ l) ≡ read_integer limit l
unfolding read_integer
read-newline limit l = refl

-- The time to live fits a `long long`.
abbrev pub TtlFits : Option ℕ → Type 0
TtlFits none = Unit {0}
TtlFits (some ms) = ms < 2 ^ 63

read-ttl_field :
    (ttl : Option ℕ) (rest : Bytes)
    → TtlFits ttl
    → Stops rest
    → read_integer long_limit (print_ℤ (ttl_field ttl) ++ rest) ≡ some (ttl_field ttl, rest)
unfolding print_ℤ read_integer
read-ttl_field none rest h s =
    ground (arith, read_magnitude-print_ℕ (suc long_limit) 1 rest (omega arith) s)
read-ttl_field (some ms) rest h s = read-print_ℕ long_limit ms rest h s

read_exact-append :
    (text rest : Bytes) → read_exact (length text) (text ++ rest) ≡ some (text, rest)
unfolding read_exact
read_exact-append [] rest = refl
read_exact-append (c ∷ cs) rest = rw (read_exact-append cs rest)

Stops-space : (rest : Bytes) → Stops (b' ' ∷ rest)
unfolding is_digit
Stops-space rest = refl

Stops-newline : (rest : Bytes) → Stops (10 ∷ rest)
unfolding is_digit
Stops-newline rest = refl

abbrev pub record_of : EntrySnapshot → Record
record_of e = record { key = e.key; value = e.value; ttl_ms = ttl_field e.remaining_ttl }

render_entry-append :
    (e : EntrySnapshot) (rest : Bytes)
    → render_entry e ++ rest
      ≡ print_ℕ (length e.key)
        ++ (b' '
            ∷ (print_ℕ (length e.value)
                ++ (b' '
                    ∷ (print_ℤ (ttl_field e.remaining_ttl)
                        ++ (10 ∷ (e.key ++ (e.value ++ (10 ∷ rest))))))))
unfolding render_entry
render_entry-append e rest = simp append_assoc

read_record-render :
    (i file_bytes : ℕ) (e : EntrySnapshot) (rest : Bytes)
    → TtlFits e.remaining_ttl
    → length e.key + length e.value ≤ file_bytes
    → file_bytes < 2 ^ 63
    → read_record i file_bytes (render_entry e ++ rest) ≡ parsed (record_of e, rest)
unfolding read_record
read_record-render i file_bytes e rest t small fits = rw (render_entry-append e rest) ground (
  arith,
  read-print_ℕ long_limit (length e.key)
      (b' '
        ∷ (print_ℕ (length e.value)
            ++ (b' '
                ∷ (print_ℤ (ttl_field e.remaining_ttl)
                    ++ (10 ∷ (e.key ++ (e.value ++ (10 ∷ rest))))))))
      (omega arith) (Stops-space _),
  read-space long_limit (
      print_ℕ (length e.value)
      ++ (b' '
          ∷ (print_ℤ (ttl_field e.remaining_ttl) ++ (10 ∷ (e.key ++ (e.value ++ (10 ∷ rest))))))),
  read-print_ℕ long_limit (length e.value)
      (b' ' ∷ (print_ℤ (ttl_field e.remaining_ttl) ++ (10 ∷ (e.key ++ (e.value ++ (10 ∷ rest))))))
      (omega arith) (Stops-space _),
  read-space long_limit
      (print_ℤ (ttl_field e.remaining_ttl) ++ (10 ∷ (e.key ++ (e.value ++ (10 ∷ rest))))),
  read-ttl_field e.remaining_ttl (10 ∷ (e.key ++ (e.value ++ (10 ∷ rest)))) t (Stops-newline _),
  read_exact-append e.key (e.value ++ (10 ∷ rest)),
  read_exact-append e.value (10 ∷ rest),
)

length-of_ne : (l : Bytes) → l ≢ [] → 1 ≤ length l
length-of_ne [] ne = absurd (ne refl)
length-of_ne (c ∷ cs) ne = omega arith

print_ℕ-length : (n : ℕ) → 1 ≤ length (print_ℕ n)
print_ℕ-length n = length-of_ne (print_ℕ n) (print_ℕ-ne-nil n)

ttl_field-length : (ttl : Option ℕ) → 1 ≤ length (print_ℤ (ttl_field ttl))
unfolding print_ℤ
ttl_field-length none = omega arith
ttl_field-length (some ms) = print_ℕ-length ms

render_entry-length :
    (e : EntrySnapshot) → 7 + (length e.key + length e.value) ≤ length (render_entry e)
unfolding render_entry
render_entry-length e = simp length-append ground (
  arith,
  print_ℕ-length (length e.key),
  print_ℕ-length (length e.value),
  ttl_field-length e.remaining_ttl,
)

render_entries-length : (es : List EntrySnapshot) → 7 * length es ≤ length (render_entries es)
unfolding render_entries
render_entries-length [] = omega arith
render_entries-length (e ∷ es) =
    rw (length-append (render_entry e) (render_entries es)) omega
      (arith, render_entry-length e, render_entries-length es)

-- Every time to live of the entries fits a `long long`.
abbrev pub AllTtlFit : List EntrySnapshot → Type 0
AllTtlFit [] = Unit {0}
AllTtlFit (e ∷ es) = TtlFits e.remaining_ttl × AllTtlFit es

read_records-render :
    (i file_bytes : ℕ) (es : List EntrySnapshot)
    → AllTtlFit es
    → length (render_entries es) ≤ file_bytes
    → file_bytes < 2 ^ 63
    → read_records (length es) i file_bytes (render_entries es) ≡ parsed (map record_of es)
unfolding read_records render_entries
read_records-render i file_bytes [] t small fits = refl
read_records-render i file_bytes (e ∷ es) (t, ts) small fits =
    let split : length (render_entry e) + length (render_entries es) ≤ file_bytes =
      ground (arith, length-append (render_entry e) (render_entries es)) in
    rw
      (read_record-render i file_bytes e (render_entries es) t
        (omega (arith, render_entry-length e, split)) fits)
      rw (read_records-render (i + 1) file_bytes es ts (omega arith) fits) refl

read_word-magic : (rest : Bytes) → read_word (magic ++ (b' ' ∷ rest)) ≡ some (magic, b' ' ∷ rest)
unfolding read_word
read_word-magic rest = refl

read_header-render :
    (wall_clock : ℕ) (es : List EntrySnapshot)
    → wall_clock < 2 ^ 63
    → read_header (render wall_clock es)
      ≡ some (magic, pos 1, pos wall_clock, 10 ∷ (print_ℕ (length es) ++ (10 ∷ render_entries es)))
unfolding render read_header
read_header-render wall_clock es h = ground (
  arith,
  read_word-magic (
      print_ℕ version
      ++ (b' ' ∷ (print_ℕ wall_clock ++ (10 ∷ (print_ℕ (length es) ++ (10 ∷ render_entries es)))))),
  read-space int_limit (
      print_ℕ version
      ++ (b' ' ∷ (print_ℕ wall_clock ++ (10 ∷ (print_ℕ (length es) ++ (10 ∷ render_entries es)))))),
  read-print_ℕ int_limit version
      (b' ' ∷ (print_ℕ wall_clock ++ (10 ∷ (print_ℕ (length es) ++ (10 ∷ render_entries es)))))
      (omega arith) (Stops-space _),
  read-space long_limit
      (print_ℕ wall_clock ++ (10 ∷ (print_ℕ (length es) ++ (10 ∷ render_entries es)))),
  read-print_ℕ long_limit wall_clock (10 ∷ (print_ℕ (length es) ++ (10 ∷ render_entries es))) h
      (Stops-newline _),
)

read_count-render :
    (es : List EntrySnapshot) (rest : Bytes)
    → length es < 2 ^ 63
    → read_count (10 ∷ (print_ℕ (length es) ++ (10 ∷ rest))) ≡ some (length es, 10 ∷ rest)
unfolding read_count
read_count-render es rest h = ground (
  arith,
  read-newline long_limit (print_ℕ (length es) ++ (10 ∷ rest)),
  read-print_ℕ long_limit (length es) (10 ∷ rest) h (Stops-newline _),
)

render-length :
    (wall_clock : ℕ) (es : List EntrySnapshot)
    → length (render_entries es) ≤ length (render wall_clock es)
unfolding render
render-length wall_clock es = simp length-append omega arith

-- `load` reads back the entries that `save` wrote, in their order, with the clock of the save:
-- the keys and the values may hold any bytes. The clock, the times to live and the size of the
-- file must fit a `long long`.
pub parse_file-render :
    (wall_clock : ℕ) (es : List EntrySnapshot)
    → wall_clock < 2 ^ 63
    → AllTtlFit es
    → length (render wall_clock es) < 2 ^ 63
    → parse_file (render wall_clock es) ≡ parsed (pos wall_clock, map record_of es)
unfolding bytes_eq parse_file parse_head parse_body
parse_file-render wall_clock es h t fits =
    rw (read_header-render wall_clock es h) rw
      (read_count-render es (render_entries es)
        (omega (arith, render-length wall_clock es, render_entries-length es)))
      ground
      (
        arith,
        read_records-render 0 (length (render wall_clock es)) es t (render-length wall_clock es)
            fits,
        render_entries-length es,
      )
