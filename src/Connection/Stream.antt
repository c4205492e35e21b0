-- ===== src/Connection/Stream.antt =====
-- A stream that arrives in pieces, and its lines.
use mathlib.Core.Path.{subst}
use mathlib.Core.List.{append_assoc, append-nil}
use cache_x.Base.{
  ℕ, ◌≡◌, refl, ap, sym, ◌∙◌, List, [], ◌∷◌, ◌++◌, Option, none, some, Bytes, Bool, true, false,
  if◌then◌else◌, arith, inl, inr,
}
use cache_x.LineBuffer.{LineBuffer, append}
use cache_x.LineBuffer.Lines.{drain-append}
use cache_x.LineBuffer.Next.{lines, rest_of}
use cache_x.LineBuffer.Short.{all_short, all_short-prefix}
use cache_x.Protocol.{max_line_bytes}
use cache_x.Connection.{
  Received, bytes, end_of_stream, interrupted, broken, Session, Surroundings, fill_buffer,
  serve_buffer, serve,
}
use cache_x.Connection.Answers.{
  with_buffer, Follows, rest_of-all_short, Follows-same, answer_lines, answer_lines-append,
  serve_buffer-Follows,
}

-- What has arrived, and that the client is still there.
abbrev pub arrived : List Received → Bytes
arrived [] = []
arrived (bytes chunk ∷ rs) = chunk ++ arrived rs
arrived (interrupted ∷ rs) = arrived rs
arrived (end_of_stream ∷ rs) = []
arrived (broken ∷ rs) = []

abbrev pub AllOpen : List Received → Type 0
AllOpen [] = Unit {0}
AllOpen (bytes chunk ∷ rs) = AllOpen rs
AllOpen (interrupted ∷ rs) = AllOpen rs
AllOpen (end_of_stream ∷ rs) = ⊥
AllOpen (broken ∷ rs) = ⊥

lines-append :
    (text more : Bytes) → lines (text ++ more) ≡ lines text ++ lines (rest_of text ++ more)
lines-append text more = ap (λ (d : List Bytes × LineBuffer). d.0) (drain-append text more)

module _ (std_hash : Bytes → ℕ) (persistence : Option Bytes) (around : Surroundings) where
  abbrev answers : List Bytes → Session → Option (Session × Bool)
  answers = answer_lines std_hash persistence around

  -- Two parts of a stream: how the first ends, and the second.
  answers-append :
      (text more : Bytes) (s t : Session) (go_on : Bool)
      → answers (lines text) s ≡ some (t, go_on)
      → answers (lines (text ++ more)) s
        ≡ (if go_on then answers (lines (rest_of text ++ more)) t else some (t, false))
  answers-append text more s t go_on first =
      ap (λ ls. answers ls s) (lines-append text more)
      ∙ answer_lines-append std_hash persistence around (lines text) (lines (rest_of text ++ more))
          s
      ∙ ground (arith, first)

  answers-undefined :
      (text more : Bytes) (s : Session)
      → answers (lines text) s ≡ none
      → answers (lines (text ++ more)) s ≡ none
  answers-undefined text more s first =
      ap (λ ls. answers ls s) (lines-append text more)
      ∙ answer_lines-append std_hash persistence around (lines text) (lines (rest_of text ++ more))
          s
      ∙ ground (arith, first)

  -- A round of the loop, when `recv` has added some bytes, or none.
  round-Follows :
      (r : Received) (rs : List Received) (text added more : Bytes) (s : Session)
      → all_short max_line_bytes 0 (text ++ more) ≡ true
      → ((b : Bytes) (t : Session)
          → fill_buffer r (with_buffer b t).connection
            ≡ ((with_buffer (b ++ added) t).connection, true))
      → ((b : Bytes) (t : Session)
          → all_short max_line_bytes 0 (b ++ more) ≡ true
          → Follows
              (rest_of (b ++ more))
              (serve std_hash persistence around rs (with_buffer (b ++ added) t))
              (answers (lines (b ++ more)) t))
      → Follows
          (rest_of (text ++ more))
          (serve std_hash persistence around (r ∷ rs) (with_buffer text s))
          (answers (lines (text ++ more)) s)
  unfolding serve
  round-Follows r rs text added more s short filled later =
      elim (serve_buffer-Follows std_hash persistence around text s
        (all_short-prefix max_line_bytes 0 text more short)) [
          | inl (undefined, spec) ↦
              inl (ground (arith, undefined), answers-undefined text more s spec)
          | inr (t, b, false, done, spec, _) ↦
              let stop = answers-append text more s t false spec in
              inr (t, b, false, ground (arith, done), stop, λ go. absurd (ground (arith, go)))
          | inr (t, b, true, done, spec, rest) ↦
              let same : b ≡ rest_of text = rest refl in
              let left : rest_of (b ++ more) ≡ rest_of (text ++ more) =
                ap (λ x. rest_of (x ++ more)) same
                ∙ sym (ap (λ (d : List Bytes × LineBuffer). d.1.buffer) (drain-append text more)) in
              let told : answers (lines (b ++ more)) t ≡ answers (lines (text ++ more)) s =
                ap (λ x. answers (lines (x ++ more)) t) same
                ∙ sym (answers-append text more s t true spec) in
              let fits : all_short max_line_bytes 0 (b ++ more) ≡ true =
                ap (λ x. all_short max_line_bytes 0 (x ++ more)) same
                ∙ rest_of-all_short text more short in
              Follows-same (rest_of (b ++ more)) (rest_of (text ++ more))
                (serve std_hash persistence around rs (with_buffer (b ++ added) t))
                (serve std_hash persistence around (r ∷ rs) (with_buffer text s))
                (answers (lines (b ++ more)) t) (answers (lines (text ++ more)) s) left
                (ground (arith, done, filled b t)) told (later b t fits)
        ]

  -- A connection answers the lines of what has arrived in their order, however the stream has been
  -- cut into pieces: each as `handle_line` answers it alone, up to the one that ends the connection.
  -- Only what stays in the buffer behind that one depends on the pieces. The client is still there,
  -- and no line is longer than the maximum.
  pub serve-Follows :
      (rs : List Received) (text : Bytes) (s : Session)
      → AllOpen rs
      → all_short max_line_bytes 0 (text ++ arrived rs) ≡ true
      → Follows
          (rest_of (text ++ arrived rs))
          (serve std_hash persistence around rs (with_buffer text s))
          (answers (lines (text ++ arrived rs)) s)
  unfolding serve fill_buffer append
  serve-Follows [] text s stays short =
      subst
        (λ (x : Bytes).
          Follows (rest_of x) (serve_buffer std_hash persistence around (with_buffer text s))
            (answers (lines x) s))
        (sym (append-nil text))
        (serve_buffer-Follows std_hash persistence around text s
          (all_short-prefix max_line_bytes 0 text [] short))
  serve-Follows (bytes chunk ∷ rs) text s stays short =
      let more = chunk ++ arrived rs in
      round-Follows (bytes chunk) rs text chunk more s short (λ b t. refl)
        (λ b t fits.
          let assoc = append_assoc b chunk (arrived rs) in
          let done = serve std_hash persistence around rs (with_buffer (b ++ chunk) t) in
          Follows-same (rest_of ((b ++ chunk) ++ arrived rs)) (rest_of (b ++ more)) done done
            (answers (lines ((b ++ chunk) ++ arrived rs)) t) (answers (lines (b ++ more)) t)
            (ap rest_of assoc) refl (ap (λ x. answers (lines x) t) assoc)
            (serve-Follows rs (b ++ chunk) t stays (ap (all_short max_line_bytes 0) assoc ∙ fits)))
  serve-Follows (interrupted ∷ rs) text s stays short =
      round-Follows interrupted rs text [] (arrived rs) s short
        (λ b t. ap (λ x. ((with_buffer x t).connection, true)) (sym (append-nil b)))
        (λ b t fits.
          subst
            (λ x.
              Follows (rest_of (b ++ arrived rs))
                (serve std_hash persistence around rs (with_buffer x t))
                (answers (lines (b ++ arrived rs)) t))
            (sym (append-nil b)) (serve-Follows rs b t stays fits))
  serve-Follows (end_of_stream ∷ rs) text s stays short = absurd stays
  serve-Follows (broken ∷ rs) text s stays short = absurd stays
