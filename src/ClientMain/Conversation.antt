-- ===== src/ClientMain/Conversation.antt =====
-- A conversation of the client with a connection of the server, each line handled at once.
pub mod Shown
pub mod Answered
pub mod Together
use mathlib.Core.Path.{subst}
use mathlib.Core.List.{append_assoc, append-nil}
use cache_x.Base.{
  ℕ, ◌≡◌, refl, ap, sym, ◌∙◌, List, [], ◌∷◌, ◌++◌, map, Option, none, some, Bytes, codes, bytes_eq,
  Bool, true, false, if◌then◌else◌, ◌>>=◌, arith, Option-cases, Bool-cases, inl, inr, bind-some,
}
use cache_x.LineBuffer.{cut, strip_cr, next_line, drain}
use cache_x.LineBuffer.Lines.{HasNoNewline, AllLines, cut-line, concat}
use cache_x.LineBuffer.Next.{lines, lines-next_line, lines-AllLines}
use cache_x.LineBuffer.Short.{all_short}
use cache_x.Protocol.{max_line_bytes}
use cache_x.Protocol.Format.{IsOneLine}
use cache_x.CommandHandler.Framed.{IsPlainWorld}
use cache_x.Socket.{Sent}
use cache_x.Connection.{Received, Session, Surroundings, handle_line, serve}
use cache_x.Connection.Answers.{with_buffer, answer_lines}
use cache_x.Connection.Stream.{arrived, AllOpen, serve-Follows}
use cache_x.Connection.Framed.{AllOneLine, IsFramed, taken, handle_line-Handled, Handled-IsFramed}
use cache_x.ClientMain.{Reading, out, prompt, Exit, before, talk}
use cache_x.ClientMain.Talk.{AllTaken, typed, unread, terminated, dialogue, talk-dialogue}

-- The last reply that was sent.
abbrev pub newest : List Bytes → Bytes
newest [] = []
newest (reply ∷ []) = reply
newest (_ ∷ reply ∷ replies) = newest (reply ∷ replies)

-- A reply as the client shows it.
abbrev pub shown : Bytes → Bytes
shown reply = elim (cut reply) [ none ↦ [] | some (line, _) ↦ strip_cr line ]

abbrev pub is_bye : Bytes → Bool
is_bye line = bytes_eq line (codes "+BYE")

module _ (std_hash : Bytes → ℕ) (around : Surroundings) where
  -- The replies to lines that are handled one after another, until one ends the session.
  unfoldable pub replies_to : List Bytes → Session → List Bytes
  replies_to [] s = []
  replies_to (l ∷ ls) s = elim (handle_line std_hash none around l s) [
    | none ↦ []
    | some (t, go_on) ↦
        let rest = replies_to ls t in newest t.connection.sent ∷ (if go_on then rest else [])
  ]

  -- A user who types lines, each handled by the server at once, if it has not ended the session, and
  -- what is shown. A server that has ended the session otherwise than by `+BYE` is noticed at the
  -- next line.
  unfoldable pub conversation : List Bytes → Session → Option Exit
  conversation [] s = some (record { code = 0; console = prompt ∷ out (10 ∷ []) ∷ []; wire = [] })
  conversation ([] ∷ requests) s = do
    rest ← conversation requests s
    some (before (prompt ∷ []) [] rest)
  conversation ((c ∷ cs) ∷ requests) s = do
    (t, go_on) ← handle_line std_hash none around (strip_cr (c ∷ cs)) s
    let reply = shown (newest t.connection.sent)
    let console = prompt ∷ out (terminated reply) ∷ []
    let rest = conversation requests t
    if is_bye reply
        then some (record { code = 0; console = console; wire = terminated (c ∷ cs) })
        else (if go_on
            then (do e ← rest; some (before console (terminated (c ∷ cs)) e))
            else some (before console (terminated (c ∷ cs)) (dialogue requests [])))
