-- ===== src/Decimal/Numeral.antt =====
-- Which texts are numbers below a limit, and which number they are.
use cache_x.Base.{
  ℕ, ◌+◌, ◌-◌, ◌*◌, ◌<◌, ◌≡◌, ◌≢◌, ◌↔◌, refl, [], ◌∷◌, some, Bytes, arith, Bool-cases, inl, inr,
}
use cache_x.Decimal.{is_digit, scan_digits, read_magnitude}
use cache_x.Decimal.Laws.{AllDigits}

-- The value of digits behind a number.
unfoldable pub value : ℕ → Bytes → ℕ
value n [] = n
value n (c ∷ cs) = value (n * 10 + (c - b'0')) cs

abbrev pub IsNumeral : ℕ → Bytes → ℕ → Type 0
IsNumeral limit text n = (text ≢ []) × AllDigits text × (value 0 text ≡ n) × (n < limit)

scan_digits-value : (n : ℕ) (l : Bytes) → AllDigits l → scan_digits n l ≡ (value n l, [])
unfolding scan_digits value
scan_digits-value n [] h = refl
scan_digits-value n (c ∷ cs) h = rw h.0 (scan_digits-value (n * 10 + (c - b'0')) cs h.1)

pub scan_digits-AllDigits : (n : ℕ) (l : Bytes) → (scan_digits n l).1 ≡ [] → AllDigits l
unfolding scan_digits
scan_digits-AllDigits n [] h = tt
scan_digits-AllDigits n (c ∷ cs) h = elim (Bool-cases (is_digit c)) [
  | inl e ↦ (e, scan_digits-AllDigits (n * 10 + (c - b'0')) cs (ground (arith, e, h)))
  | inr e ↦ absurd (ground (arith, e, h))
]

-- A number is read to the end of a text if and only if the text is its digits and nothing else, at
-- least one, and the number is below the limit.
pub read_magnitude-eq_iff :
    (limit : ℕ) (text : Bytes) (n : ℕ)
    → (read_magnitude limit text ≡ some (n, [])) ↔ IsNumeral limit text n
unfolding read_magnitude
read_magnitude-eq_iff limit [] n = (λ h. absurd (ground (arith, h)), λ h. absurd (h.0 refl))
read_magnitude-eq_iff limit (c ∷ cs) n = (to, from)
  where
    to : read_magnitude limit (c ∷ cs) ≡ some (n, []) → IsNumeral limit (c ∷ cs) n
    to h =
        let ends : (scan_digits 0 (c ∷ cs)).1 ≡ [] = ground (arith, h) in
        let all = scan_digits-AllDigits 0 (c ∷ cs) ends in
        let scanned = scan_digits-value 0 (c ∷ cs) all in
        (λ e. cc, all, ground (arith, h, scanned), ground (arith, h, scanned))

    from : IsNumeral limit (c ∷ cs) n → read_magnitude limit (c ∷ cs) ≡ some (n, [])
    from (_, all, e, small) =
        let scanned = scan_digits-value 0 (c ∷ cs) all in ground (arith, all.0, scanned, e, small)
