-- ===== src/LineBuffer/Next.antt =====
-- One line at a time against all lines at once.
use mathlib.Core.Path.{subst}
use cache_x.Base.{
  suc, ◌≤◌, length, ◌≡◌, ap, sym, ◌∙◌, List, [], ◌∷◌, ◌++◌, none, some, Bytes, ◌==◌, arith,
  Bool-cases, Option-cases, inl, inr,
}
use cache_x.LineBuffer.{LineBuffer, cut, strip_cr, next_line, drain}
use cache_x.LineBuffer.Lines.{
  HasNoNewline, joined, AllLines, stripped, cut-line, cut-none, lines_of, drain-joined,
}

-- The lines of a text.
abbrev pub lines : Bytes → List Bytes
lines text = (drain (record { buffer = text })).0

cut-append :
    (text line more rest : Bytes)
    → cut text ≡ some (line, more)
    → cut (text ++ rest) ≡ some (line, more ++ rest)
unfolding cut
cut-append [] line more rest h = absurd (ground (arith, h))
cut-append (c ∷ cs) line more rest h = elim (Bool-cases (c == 10)) [
  | inl newline ↦ ground (arith, newline, h)
  | inr other ↦ elim (Option-cases (cut cs)) [
    | inl e ↦ absurd (ground (arith, other, e, h))
    | inr ((l, m), e) ↦ ground (arith, other, e, h, cut-append cs l m rest e)
  ]
]

-- What has a line has the same one when more arrives.
pub next_line-append :
    (text line more rest : Bytes)
    → next_line (record { buffer = text }) ≡ some (line, record { buffer = more })
    → next_line (record { buffer = text ++ rest }) ≡ some (line, record { buffer = more ++ rest })
unfolding next_line
next_line-append text line more rest h = elim (Option-cases (cut text)) [
  | inl e ↦ absurd (ground (arith, e, h))
  | inr ((l, m), e) ↦ ground (arith, e, h, cut-append text l m rest e)
]

-- The bytes that follow the last line.
abbrev pub rest_of : Bytes → Bytes
rest_of text = (drain (record { buffer = text })).1.buffer

-- The first line of a text is the one that is taken first.
pub drain-next_line :
    (text line more : Bytes)
    → next_line (record { buffer = text }) ≡ some (line, record { buffer = more })
    → drain (record { buffer = text })
      ≡ (line ∷ (drain (record { buffer = more })).0, (drain (record { buffer = more })).1)
unfolding next_line
drain-next_line text line more h = let (ls, rest, a, n, e) = lines_of text in go ls rest a n e
  where
    go :
        (ls : List Bytes) (rest : Bytes)
        → AllLines ls
        → HasNoNewline rest
        → text ≡ joined ls rest
        → drain (record { buffer = text })
          ≡ (line ∷ (drain (record { buffer = more })).0, (drain (record { buffer = more })).1)
    go [] rest a n e =
        let no_line : cut text ≡ none = ap cut e ∙ cut-none rest n in
        absurd (ground (arith, h, no_line))
    go (l ∷ ls) rest a n e =
        let first : cut text ≡ some (l, joined ls rest) =
          ap cut e ∙ cut-line l (joined ls rest) a.0 in
        let same : strip_cr l ≡ line = ground (arith, h, first) in
        let left : joined ls rest ≡ more = ground (arith, h, first) in
        let all : drain (record { buffer = text })
            ≡ (strip_cr l ∷ stripped ls, record { buffer = rest }) =
          ap (λ (b : Bytes). drain (record { buffer = b })) e ∙ drain-joined (l ∷ ls) rest a n in
        let later : drain (record { buffer = more }) ≡ (stripped ls, record { buffer = rest }) =
          ap (λ (b : Bytes). drain (record { buffer = b })) (sym left)
          ∙ drain-joined ls rest a.1 n in
        cc (all, later, same)

pub drain-none :
    (text : Bytes)
    → next_line (record { buffer = text }) ≡ none
    → drain (record { buffer = text }) ≡ ([], record { buffer = text })
unfolding next_line
drain-none text h = let (ls, rest, a, n, e) = lines_of text in go ls rest a n e
  where
    go :
        (ls : List Bytes) (rest : Bytes)
        → AllLines ls
        → HasNoNewline rest
        → text ≡ joined ls rest
        → drain (record { buffer = text }) ≡ ([], record { buffer = text })
    go [] rest a n e =
        ap (λ (b : Bytes). drain (record { buffer = b })) e
        ∙ drain-joined [] rest a n
        ∙ ap (λ (b : Bytes). ([], record { buffer = b })) (sym e)
    go (l ∷ ls) rest a n e =
        let first : cut text ≡ some (l, joined ls rest) =
          ap cut e ∙ cut-line l (joined ls rest) a.0 in
        absurd (ground (arith, h, first))

pub lines-next_line :
    (text line more : Bytes)
    → next_line (record { buffer = text }) ≡ some (line, record { buffer = more })
    → lines text ≡ line ∷ lines more
lines-next_line text line more h =
    ap (λ (d : List Bytes × LineBuffer). d.0) (drain-next_line text line more h)

pub lines-none : (text : Bytes) → next_line (record { buffer = text }) ≡ none → lines text ≡ []
lines-none text h = ap (λ (d : List Bytes × LineBuffer). d.0) (drain-none text h)

cut-shorter :
    (text line more : Bytes) → cut text ≡ some (line, more) → suc (length more) ≤ length text
unfolding cut
cut-shorter [] line more h = absurd (ground (arith, h))
cut-shorter (c ∷ cs) line more h = elim (Bool-cases (c == 10)) [
  | inl newline ↦ ground (arith, newline, h)
  | inr other ↦ elim (Option-cases (cut cs)) [
    | inl e ↦ absurd (ground (arith, other, e, h))
    | inr ((l, m), e) ↦ ground (arith, other, e, h, cut-shorter cs l m e)
  ]
]

pub next_line-shorter :
    (text line more : Bytes)
    → next_line (record { buffer = text }) ≡ some (line, record { buffer = more })
    → suc (length more) ≤ length text
unfolding next_line
next_line-shorter text line more h = elim (Option-cases (cut text)) [
  | inl e ↦ absurd (ground (arith, e, h))
  | inr ((l, m), e) ↦ ground (arith, e, h, cut-shorter text l m e)
]

cut-HasNoNewline : (text line more : Bytes) → cut text ≡ some (line, more) → HasNoNewline line
unfolding cut
cut-HasNoNewline [] line more h = absurd (ground (arith, h))
cut-HasNoNewline (c ∷ cs) line more h = elim (Bool-cases (c == 10)) [
  | inl newline ↦ let same : [] ≡ line = ground (arith, newline, h) in subst HasNoNewline same tt
  | inr other ↦ elim (Option-cases (cut cs)) [
    | inl e ↦ absurd (ground (arith, other, e, h))
    | inr ((l, m), e) ↦
        let same : c ∷ l ≡ line = ground (arith, other, e, h) in
        subst HasNoNewline same (other, cut-HasNoNewline cs l m e)
  ]
]

pub strip_cr-HasNoNewline : (line : Bytes) → HasNoNewline line → HasNoNewline (strip_cr line)
unfolding strip_cr
strip_cr-HasNoNewline [] h = tt
strip_cr-HasNoNewline (c ∷ []) h = elim (Bool-cases (c == 13)) [
  | inl cr ↦ rw cr tt
  | inr other ↦ rw other h
]
strip_cr-HasNoNewline (c ∷ d ∷ cs) h = (h.0, strip_cr-HasNoNewline (d ∷ cs) h.1)

-- A line that is taken has no newline.
pub next_line-HasNoNewline :
    (b : LineBuffer) (line : Bytes) (more : LineBuffer)
    → next_line b ≡ some (line, more)
    → HasNoNewline line
unfolding next_line
next_line-HasNoNewline b line more h = elim (Option-cases (cut b.buffer)) [
  | inl e ↦ absurd (ground (arith, e, h))
  | inr ((l, m), e) ↦
      let same : strip_cr l ≡ line = ground (arith, e, h) in
      subst HasNoNewline same (strip_cr-HasNoNewline l (cut-HasNoNewline b.buffer l m e))
]

stripped-AllLines : (ls : List Bytes) → AllLines ls → AllLines (stripped ls)
stripped-AllLines [] h = tt
stripped-AllLines (l ∷ ls) h = (strip_cr-HasNoNewline l h.0, stripped-AllLines ls h.1)

-- So it is for all lines of a text.
pub lines-AllLines : (text : Bytes) → AllLines (lines text)
lines-AllLines text =
    let (ls, rest, a, n, e) = lines_of text in
    let all : lines text ≡ stripped ls =
      ap lines e ∙ ap (λ (d : List Bytes × LineBuffer). d.0) (drain-joined ls rest a n) in
    subst AllLines (sym all) (stripped-AllLines ls a)
