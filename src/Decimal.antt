-- ===== src/Decimal.antt =====
-- Decimal numbers as the program writes them (`std::to_string`, `operator<<`) and reads them
-- (`std::from_chars`).
pub mod Laws
pub mod Numeral
use cache_x.Base.{
  ℕ, zero, suc, ◌+◌, ◌-◌, ◌*◌, ◌/◌, ◌%◌, ◌^◌, List, [], ◌∷◌, ◌++◌, Option, none, some, Bytes, Bool,
  ◌&&◌, leb, ltb, ◌==◌, if◌then◌else◌, ℤ, pos, negsuc,
}

unfoldable pub is_digit : ℕ → Bool
is_digit c = leb b'0' c && leb c b'9'

-- The digits of a number, by fuel above the number.
unfoldable pub digits_within : ℕ → ℕ → Bytes
digits_within zero n = []
digits_within (suc fuel) n =
    let rest = digits_within fuel (n / 10) in
    if ltb n 10 then (b'0' + n) ∷ [] else rest ++ (b'0' + n % 10) ∷ []

unfoldable pub print_ℕ : ℕ → Bytes
unfolding digits_within
print_ℕ n = digits_within (suc n) n

unfoldable pub print_ℤ : ℤ → Bytes
unfolding print_ℕ
print_ℤ (pos n) = print_ℕ n
print_ℤ (negsuc n) = b'-' ∷ print_ℕ (suc n)

-- The digits at the start of a text, added to a number, and what follows them.
unfoldable pub scan_digits : ℕ → Bytes → ℕ × Bytes
unfolding is_digit
scan_digits n [] = (n, [])
scan_digits n (c ∷ cs) = if is_digit c then scan_digits (n * 10 + (c - b'0')) cs else (n, c ∷ cs)

-- At least one digit must be there, and the number must be below `limit`.
unfoldable pub read_magnitude : ℕ → Bytes → Option (ℕ × Bytes)
unfolding scan_digits
read_magnitude limit [] = none
read_magnitude limit (c ∷ cs) =
    if is_digit c
    then (let (n, rest) = scan_digits 0 (c ∷ cs) in if ltb n limit then some (n, rest) else none)
    else none

abbrev pub negated : ℕ → ℤ
negated zero = pos 0
negated (suc n) = negsuc n

-- `std::from_chars` for a `long long`: the value and the rest of the text, or `none` where it sets
-- an error (no number, or one out of range).
unfoldable pub from_chars : Bytes → Option (ℤ × Bytes)
unfolding read_magnitude
from_chars [] = none
from_chars (c ∷ cs) =
    if c == b'-'
    then elim (read_magnitude (2 ^ 63 + 1) cs) [
      | none ↦ none
      | some (n, rest) ↦ some (negated n, rest)
    ]
    else elim (read_magnitude (2 ^ 63) (c ∷ cs)) [
      | none ↦ none
      | some (n, rest) ↦ some (pos n, rest)
    ]
