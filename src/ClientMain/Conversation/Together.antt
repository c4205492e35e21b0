-- ===== src/ClientMain/Conversation/Together.antt =====
-- The client and a connection of the server, each of which receives what the other has sent.
use mathlib.Core.Path.{subst}
use cache_x.Base.{
  ℕ, ◌≡◌, refl, ap, sym, ◌∙◌, List, [], ◌∷◌, ◌++◌, map, none, some, Bytes, Bool, true, false, arith,
  Bool-cases, inl, inr,
}
use cache_x.LineBuffer.{strip_cr}
use cache_x.LineBuffer.Lines.{AllLines, concat}
use cache_x.LineBuffer.Next.{lines, lines-AllLines}
use cache_x.LineBuffer.Short.{all_short}
use cache_x.Protocol.{max_line_bytes}
use cache_x.CommandHandler.Framed.{IsPlainWorld}
use cache_x.Socket.{Sent}
use cache_x.Connection.{Received, Session, Surroundings, serve}
use cache_x.Connection.Answers.{with_buffer, answer_lines}
use cache_x.Connection.Stream.{arrived, AllOpen, serve-Follows}
use cache_x.Connection.Framed.{AllOneLine, IsFramed}
use cache_x.ClientMain.{Reading, Exit, talk}
use cache_x.ClientMain.Talk.{AllTaken, typed, unread, terminated, dialogue, talk-dialogue}
use cache_x.ClientMain.Conversation.{newest, shown, is_bye, replies_to, conversation}
use cache_x.ClientMain.Conversation.Shown.{lines-terminated, lines-one, lines-replies}
use cache_x.ClientMain.Conversation.Answered.{answer_lines-sent, first_reply}

module _ (std_hash : Bytes → ℕ) (around : Surroundings) where
  -- One request and the reply that the client shows, when the lines that it sends are known.
  request-conversation :
      (c : ℕ) (cs l : Bytes) (requests ls more : List Bytes) (s t : Session) (go_on : Bool)
      → answer_lines std_hash none around (strip_cr (c ∷ cs) ∷ more) s ≡ some (t, go_on)
      → l ∷ ls ≡ map shown (replies_to std_hash around (strip_cr (c ∷ cs) ∷ more) s)
      → (is_bye l ≡ false
          → (u : Session) → answer_lines std_hash none around more u ≡ some (t, go_on)
          → ls ≡ map shown (replies_to std_hash around more u)
          → conversation std_hash around requests u ≡ some (dialogue requests ls))
      → conversation std_hash around ((c ∷ cs) ∷ requests) s
        ≡ some (dialogue ((c ∷ cs) ∷ requests) (l ∷ ls))
  unfolding dialogue conversation
  request-conversation c cs l requests ls more s t go_on done told later =
      let f = first_reply std_hash around (strip_cr (c ∷ cs)) more s t go_on done in
      let whole = told ∙ ap (map shown) f.replies in
      let first : l ≡ shown (newest f.next.connection.sent) = ground (arith, whole) in
      let handled = f.handled in
      elim (Bool-cases (is_bye l)) [
        | inl bye ↦ ground (arith, handled, first, bye)
        | inr other ↦ elim (Bool-cases f.stays) [
          | inr stop ↦
              let none_left : ls ≡ [] = ground (arith, whole, stop) in
              ground (arith, handled, first, other, stop, none_left)
          | inl on ↦
              let left : ls ≡ map shown (replies_to std_hash around more f.next) =
                ground (arith, whole, on) in
              let rest = later other f.next (f.later on) left in
              ground (arith, handled, first, other, on, rest)
        ]
      ]

  -- What has been answered, seen through an equation of the lines.
  answered_as :
      (text : Bytes) (ls replies : List Bytes) (s t : Session) (go_on : Bool)
      → lines text ≡ ls
      → answer_lines std_hash none around (lines text) s ≡ some (t, go_on)
      → replies ≡ map shown (replies_to std_hash around (lines text) s)
      → (answer_lines std_hash none around ls s ≡ some (t, go_on))
        × (replies ≡ map shown (replies_to std_hash around ls s))
  answered_as text ls replies s t go_on e done told = (
    subst (λ x. answer_lines std_hash none around x s ≡ some (t, go_on)) e done,
    subst (λ x. replies ≡ map shown (replies_to std_hash around x s)) e told,
  )

  -- The dialogue with the replies of a connection is the conversation with it.
  dialogue-conversation :
      (requests ls : List Bytes) (s t : Session) (go_on : Bool)
      → AllLines requests
      → answer_lines std_hash none around (lines (dialogue requests ls).wire) s ≡ some (t, go_on)
      → ls ≡ map shown (replies_to std_hash around (lines (dialogue requests ls).wire) s)
      → conversation std_hash around requests s ≡ some (dialogue requests ls)
  unfolding dialogue conversation
  dialogue-conversation [] ls s t go_on n done told = refl
  dialogue-conversation ([] ∷ requests) ls s t go_on n done told =
      let rest = dialogue-conversation requests ls s t go_on n.1 done told in ground (arith, rest)
  dialogue-conversation ((c ∷ cs) ∷ requests) [] s t go_on n done told =
      let (done', told') =
        answered_as (terminated (c ∷ cs)) (strip_cr (c ∷ cs) ∷ []) [] s t go_on
          (lines-one (c ∷ cs) n.0) done told in
      let replies = (first_reply std_hash around (strip_cr (c ∷ cs)) [] s t go_on done').replies in
      absurd (ground (arith, told', replies))
  dialogue-conversation ((c ∷ cs) ∷ requests) (l ∷ ls) s t go_on n done told =
      let text = (dialogue ((c ∷ cs) ∷ requests) (l ∷ ls)).wire in
      let more = (dialogue requests ls).wire in
      elim (Bool-cases (is_bye l)) [
        | inl bye ↦
            let wire : text ≡ terminated (c ∷ cs) = ground (arith, bye) in
            let (done', told') =
              answered_as text (strip_cr (c ∷ cs) ∷ []) (l ∷ ls) s t go_on
                (ap lines wire ∙ lines-one (c ∷ cs) n.0) done told in
            request-conversation c cs l requests ls [] s t go_on done' told'
              (λ other. absurd (ground (arith, bye, other)))
        | inr on ↦
            let wire : text ≡ terminated (c ∷ cs) ++ more = ground (arith, on) in
            let (done', told') =
              answered_as text (strip_cr (c ∷ cs) ∷ lines more) (l ∷ ls) s t go_on
                (ap lines wire ∙ lines-terminated (c ∷ cs) more n.0) done told in
            request-conversation c cs l requests ls (lines more) s t go_on done' told'
              (λ _ u. dialogue-conversation requests ls u t go_on n.1)
      ]

  -- The client and a connection of the server at the two ends of a wire: what the client has sent is
  -- what the server receives, in pieces of any length, and what the server has sent is what the
  -- client receives, in pieces of any length. Then what the user sees, the exit code of the client
  -- and the bytes that it sends are those of a conversation in which every line typed is handled by
  -- the server at once and its reply is shown: no reply is lost, doubled, split, or shown for another
  -- request. This holds if no line typed is too long or has a newline in it, every send of both sides
  -- succeeds, nothing that the server does is undefined, the server is without persistence and has
  -- started with no value that has a newline, the connection is new, and neither end is cut off.
  pub talk-conversation :
      (requests : List (Bytes × List Sent)) (r : Reading) (rs : List Received) (s t : Session)
      (waits : Bool)
      → AllTaken requests
      → AllLines (typed requests)
      → AllOpen rs
      → ((i : ℕ) → around.sends i ≡ true)
      → s.connection.sent ≡ []
      → IsPlainWorld s.world
      → serve std_hash none around rs (with_buffer [] s) ≡ some (t, waits)
      → all_short max_line_bytes 0 (arrived rs) ≡ true
      → arrived rs ≡ (talk requests r).wire
      → unread r ≡ concat t.connection.sent
      → conversation std_hash around (typed requests) s ≡ some (talk requests r)
  talk-conversation requests r rs s t waits a n stays sends fresh plain done short up down =
      let spoken = talk-dialogue requests r a in
      elim (serve-Follows std_hash none around rs [] s stays short) [
        | inl (undefined, _) ↦ absurd (ground (arith, undefined, done))
        | inr (u, b, go_on, ended, spec, _) ↦
            let text = arrived rs in
            let start : IsFramed s = (subst AllOneLine (sym fresh) tt, plain) in
            let (sent, framed) =
              answer_lines-sent std_hash around (lines text) s u go_on sends (lines-AllLines text)
                start spec in
            let same : t.connection.sent ≡ u.connection.sent = ground (arith, ended, done) in
            let replies : t.connection.sent ≡ replies_to std_hash around (lines text) s =
              same ∙ sent ∙ ap (λ x. x ++ replies_to std_hash around (lines text) s) fresh in
            let received : lines (unread r)
                ≡ map shown (replies_to std_hash around (lines text) s) =
              ap lines down
              ∙ lines-replies t.connection.sent (subst AllOneLine (sym same) framed.0)
              ∙ ap (map shown) replies in
            let wire : lines text ≡ lines (dialogue (typed requests) (lines (unread r))).wire =
              ap lines up ∙ ap (λ (e : Exit). lines e.wire) spoken in
            let (done', told') =
              answered_as text (lines (dialogue (typed requests) (lines (unread r))).wire)
                (lines (unread r)) s u go_on wire spec received in
            dialogue-conversation (typed requests) (lines (unread r)) s u go_on n done' told'
            ∙ ap some (sym spoken)
      ]
