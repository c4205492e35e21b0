-- ===== src/LineBuffer/Lines.antt =====
-- The lines do not depend on how the stream is cut into chunks.
use mathlib.Core.List.{append_assoc, append-nil}
use cache_x.Base.{
  ℕ, zero, suc, ◌≤◌, ◌≡◌, refl, ap, sym, ◌∙◌, List, [], ◌∷◌, ◌++◌, none, some, Bytes, false, ◌==◌,
  length, length-append, arith, Bool-cases, inl, inr,
}
use cache_x.LineBuffer.{LineBuffer, cut, strip_cr, drain_within, drain, feed}

abbrev pub HasNoNewline : Bytes → Type 0
HasNoNewline [] = Unit {0}
HasNoNewline (c ∷ cs) = ((c == 10) ≡ false) × HasNoNewline cs

-- Lines with their newlines, and the bytes behind the last newline.
abbrev pub joined : List Bytes → Bytes → Bytes
joined [] rest = rest
joined (l ∷ ls) rest = l ++ 10 ∷ joined ls rest

abbrev pub AllLines : List Bytes → Type 0
AllLines [] = Unit {0}
AllLines (l ∷ ls) = HasNoNewline l × AllLines ls

abbrev pub stripped : List Bytes → List Bytes
stripped [] = []
stripped (l ∷ ls) = strip_cr l ∷ stripped ls

pub cut-line : (l rest : Bytes) → HasNoNewline l → cut (l ++ 10 ∷ rest) ≡ some (l, rest)
unfolding cut
cut-line [] rest h = refl
cut-line (c ∷ l) rest h = rw h.0 (rw (cut-line l rest h.1))

pub cut-none : (l : Bytes) → HasNoNewline l → cut l ≡ none
unfolding cut
cut-none [] h = refl
cut-none (c ∷ l) h = rw h.0 (rw (cut-none l h.1))

drain_within-joined :
    (fuel : ℕ) (ls : List Bytes) (rest : Bytes)
    → AllLines ls
    → HasNoNewline rest
    → length (joined ls rest) ≤ fuel
    → drain_within fuel (record { buffer = joined ls rest })
      ≡ (stripped ls, record { buffer = rest })
unfolding drain_within
drain_within-joined zero [] rest a n s = refl
drain_within-joined zero (l ∷ ls) rest a n s =
    absurd (omega (arith, length-append l (10 ∷ joined ls rest)))
drain_within-joined (suc fuel) [] rest a n s = ground (arith, cut-none rest n)
drain_within-joined (suc fuel) (l ∷ ls) rest a n s = ground (
  arith,
  cut-line l (joined ls rest) a.0,
  drain_within-joined fuel ls rest a.1 n (omega (arith, length-append l (10 ∷ joined ls rest))),
)

-- Whatever the lines of a buffer are, `drain` returns them, without their line ends, and leaves
-- what follows the last newline.
pub drain-joined :
    (ls : List Bytes) (rest : Bytes)
    → AllLines ls
    → HasNoNewline rest
    → drain (record { buffer = joined ls rest }) ≡ (stripped ls, record { buffer = rest })
unfolding drain
drain-joined ls rest a n = drain_within-joined (length (joined ls rest)) ls rest a n (omega arith)

-- Every text is such lines and a rest.
pub lines_of :
    (text : Bytes)
    → (ls : List Bytes) × (rest : Bytes) × AllLines ls × HasNoNewline rest × (text ≡ joined ls rest)
lines_of [] = ([], [], tt, tt, refl)
lines_of (c ∷ cs) =
    let (ls, rest, a, n, e) = lines_of cs in
    elim (Bool-cases (c == 10)) [
      | inl newline ↦ ([] ∷ ls, rest, (tt, a), n, ground (arith, e))
      | inr other ↦ grow c ls rest a n other (ap (◌∷◌ c) e)
    ]
  where
    grow :
        (c : ℕ) (ls : List Bytes) (rest : Bytes)
        → AllLines ls
        → HasNoNewline rest
        → (c == 10) ≡ false
        → c ∷ cs ≡ c ∷ joined ls rest
        → (ms : List Bytes) × (r : Bytes) × AllLines ms × HasNoNewline r × (c ∷ cs ≡ joined ms r)
    grow c [] rest a n o e = ([], c ∷ rest, tt, (o, n), e)
    grow c (l ∷ ls) rest a n o e = ((c ∷ l) ∷ ls, rest, ((o, a.0), a.1), n, e)

pub joined-rest :
    (ls : List Bytes) (rest more : Bytes) → joined ls rest ++ more ≡ joined ls (rest ++ more)
joined-rest [] rest more = refl
joined-rest (l ∷ ls) rest more =
    append_assoc l (10 ∷ joined ls rest) more
    ∙ ap (λ (t : Bytes). l ++ 10 ∷ t) (joined-rest ls rest more)

joined-append :
    (ls ms : List Bytes) (rest : Bytes) → joined ls (joined ms rest) ≡ joined (ls ++ ms) rest
joined-append [] ms rest = refl
joined-append (l ∷ ls) ms rest = ap (λ (t : Bytes). l ++ 10 ∷ t) (joined-append ls ms rest)

AllLines-append : (ls ms : List Bytes) → AllLines ls → AllLines ms → AllLines (ls ++ ms)
AllLines-append [] ms a b = b
AllLines-append (l ∷ ls) ms a b = (a.0, AllLines-append ls ms a.1 b)

stripped-append : (ls ms : List Bytes) → stripped (ls ++ ms) ≡ stripped ls ++ stripped ms
stripped-append [] ms = refl
stripped-append (l ∷ ls) ms = ap (◌∷◌ (strip_cr l)) (stripped-append ls ms)

-- Draining in two goes: first what has arrived, then the rest of the stream.
pub drain-append :
    (bytes more : Bytes)
    → drain (record { buffer = bytes ++ more }) ≡ (
      (drain (record { buffer = bytes })).0
          ++ (drain (record { buffer = (drain (record { buffer = bytes })).1.buffer ++ more })).0,
      (drain (record { buffer = (drain (record { buffer = bytes })).1.buffer ++ more })).1,
    )
drain-append bytes more =
    let (ls, rest, a, n, e) = lines_of bytes in
    let (ms, rest', b, n', e') = lines_of (rest ++ more) in
    let first = ap (λ (t : Bytes). drain (record { buffer = t })) e ∙ drain-joined ls rest a n in
    let second =
      ap (λ (t : Bytes). drain (record { buffer = t })) e' ∙ drain-joined ms rest' b n' in
    let whole : bytes ++ more ≡ joined (ls ++ ms) rest' =
      ap (λ (t : Bytes). t ++ more) e
      ∙ joined-rest ls rest more
      ∙ ap (joined ls) e'
      ∙ joined-append ls ms rest' in
    let both =
      ap (λ (t : Bytes). drain (record { buffer = t })) whole
      ∙ drain-joined (ls ++ ms) rest' (AllLines-append ls ms a b) n' in
    cc (first, second, both, stripped-append ls ms)

abbrev pub concat : List Bytes → Bytes
concat [] = []
concat (c ∷ cs) = c ++ concat cs

-- However a stream is cut into chunks, and the lines taken out after each, the lines and the bytes
-- left are those of the whole stream at once.
pub feed-drain :
    (chunks : List Bytes) (b : LineBuffer)
    → HasNoNewline b.buffer
    → feed chunks b ≡ drain (record { buffer = b.buffer ++ concat chunks })
unfolding feed
feed-drain [] b n = sym (
    ap (λ (t : Bytes). drain (record { buffer = t })) (append-nil b.buffer)
    ∙ drain-joined [] b.buffer tt n)
feed-drain (chunk ∷ chunks) b n =
    let (ls, rest, a, n', e) = lines_of (b.buffer ++ chunk) in
    let first = ap (λ (t : Bytes). drain (record { buffer = t })) e ∙ drain-joined ls rest a n' in
    let later = feed-drain chunks (record { buffer = rest }) n' in
    let whole = drain-append (b.buffer ++ chunk) (concat chunks) in
    let assoc =
      ap (λ (t : Bytes). drain (record { buffer = t }))
        (append_assoc b.buffer chunk (concat chunks)) in
    cc (first, later, whole, assoc)
