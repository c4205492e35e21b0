-- ===== src/Decimal/Laws.antt =====
-- Reading gives back what was written.
use mathlib.Core.Logic.{◌≢◌}
use mathlib.Core.List.{append_assoc}
use cache_x.Base.{
  ℕ, zero, suc, ◌+◌, ◌-◌, ◌*◌, ◌/◌, ◌%◌, ◌^◌, ◌<◌, ◌≡◌, refl, ap, ◌∙◌, [], ◌∷◌, ◌++◌, some, Bytes,
  true, false, ltb, ℤ, pos, negsuc, arith, Bool-cases, inl, inr,
}
use cache_x.Decimal.{
  is_digit, digits_within, print_ℕ, print_ℤ, scan_digits, read_magnitude, from_chars,
}

-- What follows a number is no digit.
abbrev pub Stops : Bytes → Type 0
Stops [] = Unit {0}
Stops (c ∷ cs) = is_digit c ≡ false

abbrev pub AllDigits : Bytes → Type 0
AllDigits [] = Unit {0}
AllDigits (c ∷ cs) = (is_digit c ≡ true) × AllDigits cs

AllDigits-append : (xs ys : Bytes) → AllDigits xs → AllDigits ys → AllDigits (xs ++ ys)
AllDigits-append [] ys h k = k
AllDigits-append (x ∷ xs) ys h k = (h.0, AllDigits-append xs ys h.1 k)

digit : (d : ℕ) → d < 10 → is_digit (b'0' + d) ≡ true
unfolding is_digit
digit d h = ground arith

digits_within-AllDigits : (f n : ℕ) → AllDigits (digits_within f n)
unfolding digits_within
digits_within-AllDigits zero n = tt
digits_within-AllDigits (suc f) n = elim (Bool-cases (ltb n 10)) [
  | inl small ↦ rw small (digit n (ground arith), tt)
  | inr big ↦ rw big (
      AllDigits-append (digits_within f (n / 10)) _ (digits_within-AllDigits f (n / 10))
        (digit (n % 10) (omega arith), tt))
]

pub print_ℕ-AllDigits : (n : ℕ) → AllDigits (print_ℕ n)
unfolding print_ℕ
print_ℕ-AllDigits n = digits_within-AllDigits (suc n) n

scan-digit :
    (n d : ℕ) (rest : Bytes)
    → d < 10
    → scan_digits n ((b'0' + d) ∷ rest) ≡ scan_digits (n * 10 + d) rest
unfolding scan_digits
scan-digit n d rest h = let e : b'0' + d - b'0' ≡ d = omega arith in rw (digit d h, e)

last_digit :
    (n : ℕ) (rest : Bytes) → scan_digits (n / 10) ((b'0' + n % 10) ∷ rest) ≡ scan_digits n rest
last_digit n rest =
    let e : n / 10 * 10 + n % 10 ≡ n = omega arith in
    scan-digit (n / 10) (n % 10) rest (omega arith) ∙ ap (λ k. scan_digits k rest) e

-- The scan of a number's digits, with more to come.
scan-digits_within :
    (f n : ℕ) (rest : Bytes)
    → n < f
    → scan_digits 0 (digits_within f n ++ rest) ≡ scan_digits n rest
unfolding digits_within
scan-digits_within zero n rest h = absurd (omega arith)
scan-digits_within (suc f) n rest h = elim (Bool-cases (ltb n 10)) [
  | inl small ↦
      rw small (scan-digit 0 n rest (ground arith) ∙ ap (λ k. scan_digits k rest) (omega arith))
  | inr big ↦ rw big (
      rw (append_assoc (digits_within f (n / 10)) ((b'0' + n % 10) ∷ []) rest)
        (scan-digits_within f (n / 10) ((b'0' + n % 10) ∷ rest) (ground arith) ∙ last_digit n rest))
]

pub scan-Stops : (n : ℕ) (rest : Bytes) → Stops rest → scan_digits n rest ≡ (n, rest)
unfolding scan_digits
scan-Stops n [] h = refl
scan-Stops n (c ∷ cs) h = rw h

read_magnitude_of :
    (limit n : ℕ) (ds rest : Bytes)
    → AllDigits ds
    → ds ≢ []
    → scan_digits 0 (ds ++ rest) ≡ (n, rest)
    → n < limit
    → read_magnitude limit (ds ++ rest) ≡ some (n, rest)
unfolding read_magnitude
read_magnitude_of limit n [] rest a ne e h = absurd (ne refl)
read_magnitude_of limit n (d ∷ ds) rest a ne e h = ground (arith, e, a.0)

append_cons_ne : (xs : Bytes) (y : ℕ) → xs ++ y ∷ [] ≢ []
append_cons_ne [] y = λ e. cc
append_cons_ne (x ∷ xs) y = λ e. cc

scan-print : (n : ℕ) (rest : Bytes) → scan_digits 0 (print_ℕ n ++ rest) ≡ scan_digits n rest
unfolding print_ℕ
scan-print n rest = scan-digits_within (suc n) n rest (omega arith)

pub print_ℕ-ne-nil : (n : ℕ) → print_ℕ n ≢ []
unfolding print_ℕ digits_within
print_ℕ-ne-nil n e =
    absurd (ground (arith, append_cons_ne (digits_within n (n / 10)) (b'0' + n % 10)))

pub read_magnitude-print_ℕ :
    (limit n : ℕ) (rest : Bytes)
    → n < limit
    → Stops rest
    → read_magnitude limit (print_ℕ n ++ rest) ≡ some (n, rest)
read_magnitude-print_ℕ limit n rest h s =
    read_magnitude_of limit n (print_ℕ n) rest (print_ℕ-AllDigits n) (print_ℕ-ne-nil n)
      (scan-print n rest ∙ scan-Stops n rest s) h

-- A `long long`.
abbrev pub IsWord : ℤ → Type 0
IsWord (pos n) = n < 2 ^ 63
IsWord (negsuc n) = n < 2 ^ 63

from_chars_digits :
    (ds rest : Bytes) (n : ℕ)
    → AllDigits ds
    → ds ≢ []
    → read_magnitude (2 ^ 63) (ds ++ rest) ≡ some (n, rest)
    → from_chars (ds ++ rest) ≡ some (pos n, rest)
unfolding from_chars is_digit
from_chars_digits [] rest n a ne h = absurd (ne refl)
from_chars_digits (d ∷ ds) rest n a ne h = ground (arith, a.0)

-- `from_chars` reads back every `long long` that was printed, and stops where its digits end.
pub from_chars-print_ℤ :
    (z : ℤ) (rest : Bytes) → IsWord z → Stops rest → from_chars (print_ℤ z ++ rest) ≡ some (z, rest)
unfolding print_ℤ from_chars
from_chars-print_ℤ (pos n) rest w s =
    from_chars_digits (print_ℕ n) rest n (print_ℕ-AllDigits n) (print_ℕ-ne-nil n)
      (read_magnitude-print_ℕ (2 ^ 63) n rest w s)
from_chars-print_ℤ (negsuc n) rest w s =
    ground (arith, read_magnitude-print_ℕ (2 ^ 63 + 1) (suc n) rest (omega arith) s)
