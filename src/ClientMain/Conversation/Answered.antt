-- ===== src/ClientMain/Conversation/Answered.antt =====
-- What a connection sends for some lines.
use mathlib.Core.Path.{subst}
use mathlib.Core.List.{append_assoc, append-nil}
use cache_x.Base.{
  ℕ, ◌≡◌, ap, sym, ◌∙◌, List, [], ◌∷◌, ◌++◌, none, some, Bytes, Bool, true, if◌then◌else◌, arith,
  Option-cases, Bool-cases, inl, inr,
}
use cache_x.LineBuffer.Lines.{HasNoNewline, AllLines}
use cache_x.Connection.{Session, Surroundings, handle_line}
use cache_x.Connection.Answers.{answer_lines}
use cache_x.Connection.Framed.{IsFramed, taken, handle_line-Handled, Handled-IsFramed}
use cache_x.ClientMain.Conversation.{newest, replies_to}
use cache_x.ClientMain.Conversation.Shown.{newest-append}

module _ (std_hash : Bytes → ℕ) (around : Surroundings) where
  -- A line that is handled adds its reply.
  handle_line-sent :
      (line : Bytes) (s t : Session) (go_on : Bool)
      → ((i : ℕ) → around.sends i ≡ true)
      → HasNoNewline line
      → IsFramed s
      → handle_line std_hash none around line s ≡ some (t, go_on)
      → (t.connection.sent ≡ s.connection.sent ++ newest t.connection.sent ∷ []) × IsFramed t
  handle_line-sent line s t go_on sends n h done =
      let e = handle_line-Handled std_hash around line s t go_on n h.1 done in
      let sent : t.connection.sent ≡ s.connection.sent ++ e.reply ∷ [] =
        e.sent ∙ ap (λ b. s.connection.sent ++ taken b e.reply) (sends s.lines) in
      let last : newest t.connection.sent ≡ e.reply =
        ap newest sent ∙ newest-append s.connection.sent e.reply in
      (sent ∙ ap (λ x. s.connection.sent ++ x ∷ []) (sym last), Handled-IsFramed around s t e h)

  pub answer_lines-sent :
      (ls : List Bytes) (s t : Session) (go_on : Bool)
      → ((i : ℕ) → around.sends i ≡ true)
      → AllLines ls
      → IsFramed s
      → answer_lines std_hash none around ls s ≡ some (t, go_on)
      → (t.connection.sent ≡ s.connection.sent ++ replies_to std_hash around ls s) × IsFramed t
  unfolding answer_lines replies_to
  answer_lines-sent [] s t go_on sends n h done =
      let same : s ≡ t = ground (arith, done) in
      (
        ap (λ (x : Session). x.connection.sent) (sym same) ∙ sym (append-nil s.connection.sent),
        subst IsFramed same h,
      )
  answer_lines-sent (l ∷ ls) s t go_on sends n h done =
      elim (Option-cases (handle_line std_hash none around l s)) [
        | inl undefined ↦ absurd (ground (arith, undefined, done))
        | inr ((u, go), one) ↦
            let (sent, framed) = handle_line-sent l s u go sends n.0 h one in
            elim (Bool-cases go) [
              | inr stop ↦
                  let same : u ≡ t = ground (arith, one, stop, done) in
                  let all : replies_to std_hash around (l ∷ ls) s ≡ newest u.connection.sent ∷ [] =
                    ground (arith, one, stop) in
                  (
                    ap (λ (x : Session). x.connection.sent) (sym same)
                        ∙ sent
                        ∙ ap (λ x. s.connection.sent ++ x) (sym all),
                    subst IsFramed same framed,
                  )
              | inl on ↦
                  let (later, kept) =
                    answer_lines-sent ls u t go_on sends n.1 framed
                      (ground (arith, one, on, done)) in
                  let assoc =
                    append_assoc s.connection.sent (newest u.connection.sent ∷ [])
                      (replies_to std_hash around ls u) in
                  let all : replies_to std_hash around (l ∷ ls) s
                      ≡ newest u.connection.sent ∷ replies_to std_hash around ls u =
                    ground (arith, one, on) in
                  (
                    later
                        ∙ ap (λ x. x ++ replies_to std_hash around ls u) sent
                        ∙ assoc
                        ∙ ap (λ x. s.connection.sent ++ x) (sym all),
                    kept,
                  )
            ]
      ]

  -- The first of some lines that are answered.
  pub record FirstReply (l : Bytes) (ls : List Bytes) (s t : Session) (go_on : Bool) : Type 0 where
    pub next : Session
    pub stays : Bool
    pub handled : handle_line std_hash none around l s ≡ some (next, stays)
    pub replies :
        replies_to std_hash around (l ∷ ls) s
        ≡ newest next.connection.sent ∷ (if stays then replies_to std_hash around ls next else [])
    pub later : stays ≡ true → answer_lines std_hash none around ls next ≡ some (t, go_on)

  pub first_reply :
      (l : Bytes) (ls : List Bytes) (s t : Session) (go_on : Bool)
      → answer_lines std_hash none around (l ∷ ls) s ≡ some (t, go_on)
      → FirstReply l ls s t go_on
  unfolding answer_lines replies_to
  first_reply l ls s t go_on done = elim (Option-cases (handle_line std_hash none around l s)) [
    | inl undefined ↦ absurd (ground (arith, undefined, done))
    | inr ((u, go), one) ↦ record {
      next = u;
      stays = go;
      handled = one;
      replies = ground (arith, one);
      later = λ on. ground (arith, one, on, done);
    }
  ]
