-- ===== src/Protocol/Tokens.antt =====
-- `tokenize` against a description of a line: tokens between runs of separators.
use mathlib.Core.Path.{subst}
use cache_x.Base.{
  ◌↔◌, ℕ, zero, suc, ◌≤◌, ◌≡◌, refl, ap, ◌∙◌, List, [], ◌∷◌, ◌++◌, Bytes, true, false, length,
  arith, Bool-cases, inl, inr, length-append,
}
use cache_x.Protocol.{is_separator, skip_separators, split_token, tokenize_within, tokenize}

abbrev pub AllSeparators : Bytes → Type 0
AllSeparators [] = Unit {0}
AllSeparators (c ∷ cs) = (is_separator c ≡ true) × AllSeparators cs

abbrev pub NoSeparator : Bytes → Type 0
NoSeparator [] = Unit {0}
NoSeparator (c ∷ cs) = (is_separator c ≡ false) × NoSeparator cs

-- A token has at least one byte, and no separator.
abbrev pub IsToken : Bytes → Type 0
IsToken [] = ⊥
IsToken (c ∷ cs) = NoSeparator (c ∷ cs)

-- A token ends at the end of the line or at a separator.
abbrev pub EndsToken : Bytes → Type 0
EndsToken [] = Unit {0}
EndsToken (c ∷ cs) = is_separator c ≡ true

-- The line has these tokens, in this order, with separators between them and perhaps around them.
abbrev pub HasTokens : List Bytes → Bytes → Type 0
HasTokens [] line = AllSeparators line
HasTokens (t ∷ ts) line =
    (before : Bytes) × (rest : Bytes) × AllSeparators before
    × IsToken t
    × EndsToken rest
    × (line ≡ before ++ (t ++ rest))
    × HasTokens ts rest

skip_all : (line : Bytes) → AllSeparators line → skip_separators line ≡ []
unfolding skip_separators
skip_all [] h = refl
skip_all (c ∷ cs) h = rw h.0 (skip_all cs h.1)

skip_before :
    (before : Bytes) (t rest : Bytes)
    → AllSeparators before
    → IsToken t
    → skip_separators (before ++ (t ++ rest)) ≡ t ++ rest
unfolding skip_separators
skip_before [] [] rest h k = absurd k
skip_before [] (c ∷ t) rest h k = rw k.0
skip_before (b ∷ bs) t rest h k = rw h.0 (skip_before bs t rest h.1 k)

split_lem : (t rest : Bytes) → NoSeparator t → EndsToken rest → split_token (t ++ rest) ≡ (t, rest)
unfolding split_token
split_lem [] [] h e = refl
split_lem [] (c ∷ cs) h e = rw e
split_lem (c ∷ t) rest h e = rw h.0 (rw (split_lem t rest h.1 e))

tokenize_end :
    (fuel : ℕ) (line : Bytes) → skip_separators line ≡ [] → tokenize_within fuel line ≡ []
unfolding tokenize_within
tokenize_end zero line e = refl
tokenize_end (suc fuel) line e = rw (e, tokenize_within)

tokenize_more :
    (fuel : ℕ) (line : Bytes) (c : ℕ) (cs t rest : Bytes)
    → skip_separators line ≡ c ∷ cs
    → split_token (c ∷ cs) ≡ (t, rest)
    → tokenize_within (suc fuel) line ≡ t ∷ tokenize_within fuel rest
unfolding tokenize_within
tokenize_more fuel line c cs t rest e split =
    rw (e, tokenize_within) (ap (λ (p : Bytes × Bytes). p.0 ∷ tokenize_within fuel p.1) split)

tokenize_within-of :
    (ts : List Bytes) (fuel : ℕ) (line : Bytes)
    → length line ≤ fuel
    → HasTokens ts line
    → tokenize_within fuel line ≡ ts
tokenize_within-of [] fuel line s h = tokenize_end fuel line (skip_all line h)
tokenize_within-of ([] ∷ ts) fuel line s (before, rest, b, k, e, whole, more) = absurd k
tokenize_within-of ((c ∷ t) ∷ ts) zero line s (before, rest, b, k, e, whole, more) =
    absurd (omega (arith, ap length whole, length-append before ((c ∷ t) ++ rest)))
tokenize_within-of ((c ∷ t) ∷ ts) (suc fuel) line s (before, rest, b, k, e, whole, more) =
    tokenize_more fuel line c (t ++ rest) (c ∷ t) rest
      (ap skip_separators whole ∙ skip_before before (c ∷ t) rest b k) (split_lem (c ∷ t) rest k e)
    ∙ ap (◌∷◌ (c ∷ t)) (
        tokenize_within-of ts fuel rest
          (omega
            (arith, ap length whole, length-append before ((c ∷ t) ++ rest), length-append t rest))
          more)

skip_nil : (line : Bytes) → skip_separators line ≡ [] → AllSeparators line
unfolding skip_separators
skip_nil [] h = tt
skip_nil (c ∷ cs) h = elim (Bool-cases (is_separator c)) [
  | inl sep ↦ (sep, skip_nil cs (ground (arith, sep)))
  | inr plain ↦ absurd (ground (arith, plain))
]

skip_cons :
    (line : Bytes) (c : ℕ) (cs : Bytes)
    → skip_separators line ≡ c ∷ cs
    → (before : Bytes) × AllSeparators before
      × (line ≡ before ++ (c ∷ cs))
      × (is_separator c ≡ false)
unfolding skip_separators
skip_cons [] c cs h = absurd (ground arith)
skip_cons (d ∷ ds) c cs h = elim (Bool-cases (is_separator d)) [
  | inl sep ↦
      let (before, b, whole, plain) = skip_cons ds c cs (ground (arith, sep)) in
      (d ∷ before, (sep, b), ap (◌∷◌ d) whole, plain)
  | inr plain ↦ ([], tt, ground (arith, plain), ground (arith, plain))
]

split_token_parts :
    (l : Bytes)
    → NoSeparator (split_token l).0
      × EndsToken (split_token l).1
      × (l ≡ (split_token l).0 ++ (split_token l).1)
unfolding split_token
split_token_parts [] = (tt, tt, refl)
split_token_parts (c ∷ cs) = elim (Bool-cases (is_separator c)) [
  | inl sep ↦ rw sep (tt, sep, refl)
  | inr plain ↦
      let (n, e, whole) = split_token_parts cs in rw plain ((plain, n), e, ap (◌∷◌ c) whole)
]

first-IsToken :
    (c : ℕ) (cs : Bytes)
    → is_separator c ≡ false
    → IsToken (split_token (c ∷ cs)).0 × (length (split_token (c ∷ cs)).1 ≤ length cs)
unfolding split_token
first-IsToken c cs plain =
    let (n, _, whole) = split_token_parts cs in
    rw plain (
      (plain, n),
      omega (arith, ap length whole, length-append (split_token cs).0 (split_token cs).1),
    )

tokenize_within-HasTokens :
    (fuel : ℕ) (line : Bytes) → length line ≤ fuel → HasTokens (tokenize_within fuel line) line
tokenize_within-HasTokens zero [] s = unfold tokenize_within in tt
tokenize_within-HasTokens zero (c ∷ cs) s = absurd (omega arith)
tokenize_within-HasTokens (suc fuel) line s =
    go (skip_separators line) refl (tokenize_within-HasTokens fuel)
  where
    go :
        (l : Bytes)
        → skip_separators line ≡ l
        → ((line : Bytes) → length line ≤ fuel → HasTokens (tokenize_within fuel line) line)
        → HasTokens (tokenize_within (suc fuel) line) line
    go [] e ih = rw (tokenize_end (suc fuel) line e) (skip_nil line e)
    go (c ∷ cs) e ih =
        let (before, b, whole, plain) = skip_cons line c cs e in
        let (n, ends, parts) = split_token_parts (c ∷ cs) in
        let (token, shorter) = first-IsToken c cs plain in
        rw (tokenize_more fuel line c cs (split_token (c ∷ cs)).0 (split_token (c ∷ cs)).1 e refl) (
          before,
          (split_token (c ∷ cs)).1,
          b,
          token,
          ends,
          whole ∙ ap (λ (r : Bytes). before ++ r) parts,
          ih (split_token (c ∷ cs)).1
              (omega (arith, ap length whole, length-append before (c ∷ cs))),
        )

-- `tokenize` finds exactly the tokens of a line: those that separators, and nothing else, divide.
-- Every line has them, and no other list of tokens fits it.
pub tokenize-eq_iff : (line : Bytes) (ts : List Bytes) → (tokenize line ≡ ts) ↔ HasTokens ts line
unfolding tokenize
tokenize-eq_iff line ts = (
  λ e.
      subst (λ us. HasTokens us line) e
        (tokenize_within-HasTokens (length line) line (omega arith)),
  tokenize_within-of ts (length line) line (omega arith),
)
