-- ===== src/Connection/Answers.antt =====
-- What a connection does with a stream, however it is cut: it answers the lines of it, in order.
use mathlib.Core.Path.{subst}
use cache_x.Base.{
  ℕ, zero, suc, ◌≤◌, ◌≡◌, ◌⊎◌, refl, ap, sym, ◌∙◌, List, [], ◌∷◌, ◌++◌, Option, none, some, Bytes,
  Bool, true, false, if◌then◌else◌, length, ◌>>=◌, arith, Option-cases, Bool-cases, inl, inr,
}
use cache_x.LineBuffer.{LineBuffer, next_line, buffered}
use cache_x.LineBuffer.Lines.{lines_of, joined-rest, drain-joined}
use cache_x.LineBuffer.Next.{
  lines, rest_of, drain-next_line, drain-none, lines-next_line, lines-none, next_line-shorter,
}
use cache_x.LineBuffer.Short.{all_short, all_short-length, all_short-joined}
use cache_x.Protocol.{parse_command, max_line_bytes}
use cache_x.CommandHandler.{execute}
use cache_x.Connection.{Session, Surroundings, send_all, handle_line, handle_lines, serve_buffer}

-- A session with other bytes in its buffer.
abbrev pub with_buffer : Bytes → Session → Session
with_buffer b s = record s { connection = record (s.connection) { buffer = record { buffer = b } } }

-- The second follows from the first but for the buffer, which has `rest` if the session goes on.
abbrev pub Follows : Bytes → Option (Session × Bool) → Option (Session × Bool) → Type 0
Follows rest done spec =
    ((done ≡ none) × (spec ≡ none))
    ⊎ ((t : Session) × (b : Bytes) × (go_on : Bool) × (done ≡ some (with_buffer b t, go_on))
        × (spec ≡ some (t, go_on))
        × (go_on ≡ true → b ≡ rest))

-- What follows the last line is not too long either.
rest_of-short :
    (text : Bytes) → all_short max_line_bytes 0 text ≡ true → length (rest_of text) ≤ max_line_bytes
rest_of-short text short =
    let (ls, rest, a, n, e) = lines_of text in
    let left : rest_of text ≡ rest =
      ap rest_of e ∙ ap (λ (d : List Bytes × LineBuffer). d.1.buffer) (drain-joined ls rest a n) in
    let fits = all_short-length max_line_bytes 0 rest n (
      all_short-joined max_line_bytes ls rest a
        (ap (all_short max_line_bytes 0) (sym e) ∙ short)) in
    subst (λ (x : Bytes). length x ≤ max_line_bytes) (sym left) (omega (arith, fits))

-- The stream behind the lines that are there is still without a long line.
pub rest_of-all_short :
    (text more : Bytes)
    → all_short max_line_bytes 0 (text ++ more) ≡ true
    → all_short max_line_bytes 0 (rest_of text ++ more) ≡ true
rest_of-all_short text more short =
    let (ls, rest, a, n, e) = lines_of text in
    let left : rest_of text ≡ rest =
      ap rest_of e ∙ ap (λ (d : List Bytes × LineBuffer). d.1.buffer) (drain-joined ls rest a n) in
    ap (λ (x : Bytes). all_short max_line_bytes 0 (x ++ more)) left
    ∙ all_short-joined max_line_bytes ls (rest ++ more) a (
        ap (all_short max_line_bytes 0)
          (sym (ap (λ (x : Bytes). x ++ more) e ∙ joined-rest ls rest more))
        ∙ short)

pub Follows-same :
    (rest rest' : Bytes) (done done' spec spec' : Option (Session × Bool))
    → rest ≡ rest'
    → done ≡ done'
    → spec ≡ spec'
    → Follows rest done spec
    → Follows rest' done' spec'
Follows-same rest rest' done done' spec spec' e f g h =
    subst (λ x. Follows x done' spec') e
      (subst (λ x. Follows rest x spec') f (subst (λ x. Follows rest done x) g h))

module _ (std_hash : Bytes → ℕ) (persistence : Option Bytes) (around : Surroundings) where
  -- The lines one after another, until one ends the session.
  unfoldable pub answer_lines : List Bytes → Session → Option (Session × Bool)
  answer_lines [] s = some (s, true)
  answer_lines (l ∷ ls) s = do
    (t, go_on) ← handle_line std_hash persistence around l s
    let rest = answer_lines ls t
    if go_on then rest else some (t, false)

  pub answer_lines-append :
      (ls ms : List Bytes) (s : Session)
      → answer_lines (ls ++ ms) s ≡ (do
        (t, go_on) ← answer_lines ls s
        let rest = answer_lines ms t
        if go_on then rest else some (t, false))
  unfolding answer_lines
  answer_lines-append [] ms s = refl
  answer_lines-append (l ∷ ls) ms s =
      elim (Option-cases (handle_line std_hash persistence around l s)) [
        | inl e ↦ ground (arith, e)
        | inr ((t, true), e) ↦ ground (arith, e, answer_lines-append ls ms t)
        | inr ((t, false), e) ↦ ground (arith, e)
      ]

  -- A line is handled without a look at the buffer.
  handle_line-with_buffer :
      (b line : Bytes) (s : Session)
      → handle_line std_hash persistence around line (with_buffer b s) ≡ (do
        (t, go_on) ← handle_line std_hash persistence around line s
        some (with_buffer b t, go_on))
  unfolding handle_line send_all
  handle_line-with_buffer b line s = elim (Bool-cases (parse_command line).ok) [
    | inr e ↦ elim (Bool-cases (around.sends s.lines)) [
      | inl sent ↦ ground (arith, e, sent)
      | inr lost ↦ ground (arith, e, lost)
    ]
    | inl e ↦
        elim (Option-cases (
          execute std_hash (around.moment s.lines) persistence (parse_command line).command
            s.world)) [
              | inl undefined ↦ ground (arith, e, undefined)
              | inr ((w, reply), ran) ↦ elim (Bool-cases (around.sends s.lines)) [
                | inl sent ↦ ground (arith, e, ran, sent)
                | inr lost ↦ ground (arith, e, ran, lost)
              ]
            ]
  ]

  no_line-Follows :
      (text : Bytes) (s : Session)
      → next_line (record { buffer = text }) ≡ none
      → Follows (rest_of text) (some (with_buffer text s, true)) (answer_lines (lines text) s)
  unfolding answer_lines
  no_line-Follows text s e = inr (
    s,
    text,
    true,
    refl,
    ap (λ ls. answer_lines ls s) (lines-none text e),
    λ _. sym (ap (λ (d : List Bytes × LineBuffer). d.1.buffer) (drain-none text e)),
  )

  no_line :
      (fuel : ℕ) (text : Bytes) (s : Session)
      → next_line (record { buffer = text }) ≡ none
      → handle_lines std_hash persistence around (suc fuel) (with_buffer text s)
        ≡ some (with_buffer text s, true)
  unfolding handle_lines
  no_line fuel text s e = ground (arith, e)

  -- The first line and the others.
  line-Follows :
      (fuel : ℕ) (text line more : Bytes) (s : Session)
      → next_line (record { buffer = text }) ≡ some (line, record { buffer = more })
      → ((t : Session)
          → Follows
              (rest_of more)
              (handle_lines std_hash persistence around fuel (with_buffer more t))
              (answer_lines (lines more) t))
      → Follows
          (rest_of text)
          (handle_lines std_hash persistence around (suc fuel) (with_buffer text s))
          (answer_lines (lines text) s)
  unfolding handle_lines answer_lines
  line-Follows fuel text line more s e later =
      let all : lines text ≡ line ∷ lines more = lines-next_line text line more e in
      let left : rest_of text ≡ rest_of more =
        ap (λ (d : List Bytes × LineBuffer). d.1.buffer) (drain-next_line text line more e) in
      let handled = handle_line-with_buffer more line s in
      elim (Option-cases (handle_line std_hash persistence around line s)) [
        | inl undefined ↦
            inl (ground (arith, e, handled, undefined), ground (arith, all, undefined))
        | inr ((t, false), ended) ↦ inr (
          t,
          more,
          false,
          ground (arith, e, handled, ended),
          ground (arith, all, ended),
          λ go. absurd (ground (arith, go)),
        )
        | inr ((t, true), on) ↦ elim (later t) [
          | inl (undefined, spec) ↦
              inl (ground (arith, e, handled, on, undefined), ground (arith, all, on, spec))
          | inr (u, b, go_on, done, spec, rest) ↦ inr (
            u,
            b,
            go_on,
            ground (arith, e, handled, on, done),
            ground (arith, all, on, spec),
            λ go. rest go ∙ sym left,
          )
        ]
      ]

  handle_lines-Follows :
      (fuel : ℕ) (text : Bytes) (s : Session)
      → length text ≤ fuel
      → Follows
          (rest_of text)
          (handle_lines std_hash persistence around fuel (with_buffer text s))
          (answer_lines (lines text) s)
  unfolding handle_lines next_line
  handle_lines-Follows zero [] s short = no_line-Follows [] s refl
  handle_lines-Follows zero (c ∷ cs) s short = absurd (omega (arith, short))
  handle_lines-Follows (suc fuel) text s short =
      elim (Option-cases (next_line (record { buffer = text }))) [
        | inl e ↦
            subst (λ done. Follows (rest_of text) done (answer_lines (lines text) s))
              (sym (no_line fuel text s e)) (no_line-Follows text s e)
        | inr ((line, more), e) ↦ line-Follows fuel text line more.buffer s e (λ t.
            handle_lines-Follows fuel more.buffer t
              (omega (arith, short, next_line-shorter text line more.buffer e)))
      ]

  -- The lines that are there: what is left of them is not too long.
  pub serve_buffer-Follows :
      (text : Bytes) (s : Session)
      → all_short max_line_bytes 0 text ≡ true
      → Follows
          (rest_of text)
          (serve_buffer std_hash persistence around (with_buffer text s))
          (answer_lines (lines text) s)
  unfolding serve_buffer buffered
  serve_buffer-Follows text s short =
      elim (handle_lines-Follows (length text) text s (omega arith)) [
        | inl (undefined, spec) ↦ inl (ground (arith, undefined), spec)
        | inr (t, b, false, done, spec, rest) ↦ inr (t, b, false, ground (arith, done), spec, rest)
        | inr (t, b, true, done, spec, rest) ↦
            let left : length b ≤ max_line_bytes =
              subst (λ (x : Bytes). length x ≤ max_line_bytes) (sym (rest refl))
                (rest_of-short text short) in
            inr (t, b, true, ground (arith, done, left), spec, rest)
      ]
