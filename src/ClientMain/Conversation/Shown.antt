-- ===== src/ClientMain/Conversation/Shown.antt =====
-- The lines of what a client has sent, and of the replies to it.
use mathlib.Core.List.{append_assoc}
use cache_x.Base.{◌≡◌, refl, ap, ◌∙◌, List, [], ◌∷◌, ◌++◌, map, Bytes, arith}
use cache_x.LineBuffer.{strip_cr, next_line, drain}
use cache_x.LineBuffer.Lines.{HasNoNewline, cut-line, concat}
use cache_x.LineBuffer.Next.{lines, lines-next_line}
use cache_x.Connection.Framed.{AllOneLine}
use cache_x.ClientMain.Talk.{terminated}
use cache_x.ClientMain.Conversation.{newest, shown}

pub newest-append : (xs : List Bytes) (y : Bytes) → newest (xs ++ y ∷ []) ≡ y
newest-append [] y = refl
newest-append (x ∷ []) y = refl
newest-append (_ ∷ x ∷ xs) y = newest-append (x ∷ xs) y

lines-line :
    (line more : Bytes) → HasNoNewline line → lines (line ++ 10 ∷ more) ≡ strip_cr line ∷ lines more
unfolding next_line
lines-line line more n =
    lines-next_line (line ++ 10 ∷ more) (strip_cr line) more (ground (arith, cut-line line more n))

pub lines-terminated :
    (line more : Bytes)
    → HasNoNewline line
    → lines (terminated line ++ more) ≡ strip_cr line ∷ lines more
lines-terminated line more n = ap lines (append_assoc line (10 ∷ []) more) ∙ lines-line line more n

pub lines-one : (line : Bytes) → HasNoNewline line → lines (terminated line) ≡ strip_cr line ∷ []
unfolding drain
lines-one line n = lines-line line [] n

-- The client takes the replies out one by one.
pub lines-replies :
    (replies : List Bytes) → AllOneLine replies → lines (concat replies) ≡ map shown replies
unfolding drain
lines-replies [] h = refl
lines-replies (reply ∷ replies) ((text, n, e), h) =
    let first : shown reply ≡ strip_cr text = ground (arith, e, cut-line text [] n) in
    ap (λ x. lines (x ++ concat replies)) e
    ∙ lines-terminated text (concat replies) n
    ∙ cc (first, lines-replies replies h)
