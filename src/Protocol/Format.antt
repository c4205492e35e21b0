-- ===== src/Protocol/Format.antt =====
-- Every reply is one line: it ends with the only newline in it.
use cache_x.Base.{
  ℕ, zero, suc, ◌≡◌, refl, [], ◌∷◌, ◌++◌, Bytes, codes, Bool, true, not, ◌&&◌, Bool-cases, inl, inr,
  ◌==◌, take, arith, ℤ, pos, negsuc,
}
use cache_x.LineBuffer.Lines.{HasNoNewline}
use cache_x.Decimal.{print_ℕ, print_ℤ, is_digit}
use cache_x.Decimal.Laws.{AllDigits, print_ℕ-AllDigits}
use cache_x.Protocol.{
  newline, reply_ok, reply_pong, reply_bye, reply_no_expiry, reply_value, reply_nil, reply_integer,
  reply_error,
}

abbrev pub NoNewline : Bytes → Type 0
NoNewline = HasNoNewline

-- For a text that is written out.
abbrev pub no_newline : Bytes → Bool
no_newline [] = true
no_newline (c ∷ cs) = not (c == newline) && no_newline cs

pub NoNewline-checked : (text : Bytes) → no_newline text ≡ true → NoNewline text
NoNewline-checked [] h = tt
NoNewline-checked (c ∷ cs) h = elim (Bool-cases (c == newline)) [
  | inl here ↦ absurd (ground (arith, here, h))
  | inr other ↦ (other, NoNewline-checked cs (ground (arith, other, h)))
]

-- A text and its terminator.
abbrev pub IsOneLine : Bytes → Type 0
IsOneLine reply = (text : Bytes) × NoNewline text × (reply ≡ text ++ newline ∷ [])

pub NoNewline-append : (xs ys : Bytes) → NoNewline xs → NoNewline ys → NoNewline (xs ++ ys)
NoNewline-append [] ys h k = k
NoNewline-append (x ∷ xs) ys h k = (h.0, NoNewline-append xs ys h.1 k)

pub NoNewline-take : (n : ℕ) (xs : Bytes) → NoNewline xs → NoNewline (take n xs)
NoNewline-take zero xs h = tt
NoNewline-take (suc n) [] h = tt
NoNewline-take (suc n) (x ∷ xs) h = (h.0, NoNewline-take n xs h.1)

NoNewline-digits : (ds : Bytes) → AllDigits ds → NoNewline ds
unfolding is_digit
NoNewline-digits [] h = tt
NoNewline-digits (d ∷ ds) h = (ground (arith, h.0), NoNewline-digits ds h.1)

pub NoNewline-print_ℕ : (n : ℕ) → NoNewline (print_ℕ n)
NoNewline-print_ℕ n = NoNewline-digits (print_ℕ n) (print_ℕ-AllDigits n)

pub NoNewline-print_ℤ : (z : ℤ) → NoNewline (print_ℤ z)
unfolding print_ℤ
NoNewline-print_ℤ (pos n) = NoNewline-print_ℕ n
NoNewline-print_ℤ (negsuc n) = (refl, NoNewline-print_ℕ (suc n))

pub reply_value-IsOneLine : (v : Bytes) → NoNewline v → IsOneLine (reply_value v)
unfolding reply_value
reply_value-IsOneLine v h = (b'=' ∷ v, (refl, h), refl)

pub reply_integer-IsOneLine : (z : ℤ) → IsOneLine (reply_integer z)
unfolding reply_integer
reply_integer-IsOneLine z = (b':' ∷ print_ℤ z, (refl, NoNewline-print_ℤ z), refl)

pub reply_error-IsOneLine : (m : Bytes) → NoNewline m → IsOneLine (reply_error m)
unfolding reply_error
reply_error-IsOneLine m h = (
  codes "-ERR " ++ m,
  NoNewline-append (codes "-ERR ") m (NoNewline-checked (codes "-ERR ") refl) h,
  refl,
)

pub reply_ok-IsOneLine : IsOneLine reply_ok
unfolding reply_ok
reply_ok-IsOneLine = (codes "+OK", NoNewline-checked (codes "+OK") refl, refl)

pub reply_pong-IsOneLine : IsOneLine reply_pong
unfolding reply_pong
reply_pong-IsOneLine = (codes "+PONG", NoNewline-checked (codes "+PONG") refl, refl)

pub reply_bye-IsOneLine : IsOneLine reply_bye
unfolding reply_bye
reply_bye-IsOneLine = (codes "+BYE", NoNewline-checked (codes "+BYE") refl, refl)

pub reply_no_expiry-IsOneLine : IsOneLine reply_no_expiry
unfolding reply_no_expiry
reply_no_expiry-IsOneLine = (codes "+NOEXPIRE", NoNewline-checked (codes "+NOEXPIRE") refl, refl)

pub reply_nil-IsOneLine : IsOneLine reply_nil
unfolding reply_nil
reply_nil-IsOneLine = (codes "_", NoNewline-checked (codes "_") refl, refl)
