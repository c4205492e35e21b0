-- ===== src/ClientMain/Talk.antt =====
-- The client's requests and the lines that the server sends, however they arrive.
use mathlib.Core.List.{append_assoc, append-nil}
use cache_x.Base.{
  ◌≡◌, refl, ap, ◌∙◌, List, [], ◌∷◌, ◌++◌, map, Option, none, some, Bytes, codes, bytes_eq, true,
  if◌then◌else◌, arith, Option-cases, inl, inr,
}
use cache_x.LineBuffer.{LineBuffer, append, next_line}
use cache_x.LineBuffer.Lines.{concat}
use cache_x.LineBuffer.Next.{lines, next_line-append, lines-next_line, lines-none}
use cache_x.Socket.{Sent, send_all}
use cache_x.ClientMain.{Reading, read_from, read_reply, out, err, prompt, Exit, before, talk}

-- What a reader has yet to read.
abbrev pub unread : Reading → Bytes
unread r = r.buffer.buffer ++ concat r.chunks

-- The lines that a reader has yet to read, by what `read_reply` gives.
abbrev pub first_line : Option (Bytes × Reading) → List Bytes
first_line none = []
first_line (some (line, r)) = line ∷ lines (unread r)

read_from-lines :
    (chunks : List Bytes) (b : LineBuffer)
    → first_line (read_from chunks b) ≡ lines (b.buffer ++ concat chunks)
unfolding read_from append
read_from-lines [] b = elim (Option-cases (next_line b)) [
  | inl e ↦
      let empty = ap lines (append-nil b.buffer) ∙ lines-none b.buffer e in ground (arith, e, empty)
  | inr ((line, more), e) ↦
      let whole =
        lines-next_line (b.buffer ++ []) line (more.buffer ++ [])
          (next_line-append b.buffer line more.buffer [] e) in
      ground (arith, e, whole)
]
read_from-lines (chunk ∷ chunks) b = elim (Option-cases (next_line b)) [
  | inl e ↦
      let later = read_from-lines chunks (append chunk b) in
      let assoc = ap lines (append_assoc b.buffer chunk (concat chunks)) in
      ground (arith, e, later, assoc)
  | inr ((line, more), e) ↦
      let whole =
        lines-next_line (b.buffer ++ concat (chunk ∷ chunks)) line
          (more.buffer ++ concat (chunk ∷ chunks))
          (next_line-append b.buffer line more.buffer (concat (chunk ∷ chunks)) e) in
      ground (arith, e, whole)
]

read_reply-lines : (r : Reading) → first_line (read_reply r) ≡ lines (unread r)
unfolding read_reply
read_reply-lines r = read_from-lines r.chunks r.buffer

abbrev pub terminated : Bytes → Bytes
terminated request = request ++ 10 ∷ []

-- The dialogue of a user who types lines with a server that sends lines, one for each request.
unfoldable pub dialogue : List Bytes → List Bytes → Exit
dialogue [] ls = record { code = 0; console = prompt ∷ out (10 ∷ []) ∷ []; wire = [] }
dialogue ([] ∷ requests) ls = before (prompt ∷ []) [] (dialogue requests ls)
dialogue ((c ∷ cs) ∷ requests) [] = record {
  code = 1;
  console = prompt ∷ err (codes "cachex-client: server closed the connection" ++ 10 ∷ []) ∷ [];
  wire = terminated (c ∷ cs);
}
dialogue ((c ∷ cs) ∷ requests) (l ∷ ls) =
    let rest = dialogue requests ls in
    let shown = prompt ∷ out (terminated l) ∷ [] in
    if bytes_eq l (codes "+BYE")
    then record { code = 0; console = shown; wire = terminated (c ∷ cs) }
    else before shown (terminated (c ∷ cs)) rest

-- The system takes every request as a whole.
abbrev pub AllTaken : List (Bytes × List Sent) → Type 0
AllTaken [] = Unit {0}
AllTaken ((request, results) ∷ requests) =
    (send_all results (request ++ 10 ∷ [])
      ≡ record { wire = request ++ 10 ∷ []; answer = some true })
    × AllTaken requests

abbrev pub typed : List (Bytes × List Sent) → List Bytes
typed = map (λ r. r.0)

-- When `send_all` puts every request on the socket as a whole, then however the replies arrive, in
-- pieces or several at once, the client answers its n-th request with the n-th line that the server
-- sends, skips blank lines without a word to the server, ends with the code 1 when there is no line
-- left for a request, and with the code 0 after `+BYE` or at the end of its input. Every request goes
-- out with its newline. The end by a connection lost while sending is thereby left out.
pub talk-dialogue :
    (requests : List (Bytes × List Sent)) (r : Reading)
    → AllTaken requests
    → talk requests r ≡ dialogue (typed requests) (lines (unread r))
unfolding talk dialogue
talk-dialogue [] r a = refl
talk-dialogue (([], results) ∷ requests) r a =
    ap (before (prompt ∷ []) []) (talk-dialogue requests r a.1)
talk-dialogue ((c ∷ cs, results) ∷ requests) r a =
    let told = read_reply-lines r in
    elim (Option-cases (read_reply r)) [
      | inl e ↦
          let nothing : lines (unread r) ≡ [] = ground (arith, e, told) in
          ground (arith, a.0, e, nothing)
      | inr ((line, r'), e) ↦
          let first : lines (unread r) ≡ line ∷ lines (unread r') = ground (arith, e, told) in
          let rest = talk-dialogue requests r' a.1 in ground (arith, a.0, e, first, rest)
    ]
