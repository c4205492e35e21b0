-- ===== src/Connection/Framed.antt =====
-- What a connection sends are lines, each with its newline and no other.
use mathlib.Core.Path.{subst}
use mathlib.Core.List.{append-nil}
use cache_x.Base.{
  ℕ, zero, suc, ◌≡◌, refl, sym, List, [], ◌∷◌, ◌++◌, ◌+◌, ◌%◌, ◌^◌, none, some, Bytes, Bool, true,
  false, if◌then◌else◌, ltb, codes, arith, Bool-cases, Option-cases, inl, inr,
}
use cache_x.Decimal.{print_ℕ}
use cache_x.LineBuffer.{next_line, buffered}
use cache_x.LineBuffer.Next.{next_line-HasNoNewline}
use cache_x.Protocol.{parse_command, max_line_bytes, reply_error}
use cache_x.Protocol.Format.{
  NoNewline, NoNewline-checked, NoNewline-append, NoNewline-print_ℕ, IsOneLine,
  reply_error-IsOneLine,
}
use cache_x.Protocol.Plain.{parse_command-IsPlain}
use cache_x.CommandHandler.{execute}
use cache_x.CommandHandler.Framed.{IsPlainWorld, execute-IsOneLine}
use cache_x.Connection.{
  Connection, Received, Session, Surroundings, send_all, fill_buffer, handle_line, handle_lines,
  serve_buffer, serve, too_long,
}
use cache_x.Connection.Replies.{fill_buffer-sent}

abbrev pub AllOneLine : List Bytes → Type 0
AllOneLine [] = Unit {0}
AllOneLine (reply ∷ replies) = IsOneLine reply × AllOneLine replies

AllOneLine-append : (xs ys : List Bytes) → AllOneLine xs → AllOneLine ys → AllOneLine (xs ++ ys)
AllOneLine-append [] ys h k = k
AllOneLine-append (x ∷ xs) ys h k = (h.0, AllOneLine-append xs ys h.1 k)

-- Everything sent is lines, and no value that is stored has a newline.
abbrev pub IsFramed : Session → Type 0
IsFramed s = AllOneLine s.connection.sent × IsPlainWorld s.world

-- The reply, if it can be sent.
abbrev pub taken : Bool → Bytes → List Bytes
taken answer reply = if answer then reply ∷ [] else []

send_all-sent :
    (answer : Bool) (reply : Bytes) (c : Connection)
    → (send_all answer reply c).0.sent ≡ c.sent ++ taken answer reply
unfolding send_all
send_all-sent true reply c = refl
send_all-sent false reply c = sym (append-nil c.sent)

-- One line: its reply, which is one line, and the world behind it.
pub record Handled (around : Surroundings) (s s' : Session) : Type 0 where
  pub reply : Bytes
  pub one_line : IsOneLine reply
  pub sent : s'.connection.sent ≡ s.connection.sent ++ taken (around.sends s.lines) reply
  pub plain : IsPlainWorld s'.world

taken-AllOneLine :
    (answer : Bool) (reply : Bytes) → IsOneLine reply → AllOneLine (taken answer reply)
taken-AllOneLine true reply h = (h, tt)
taken-AllOneLine false reply h = tt

pub Handled-IsFramed :
    (around : Surroundings) (s s' : Session) → Handled around s s' → IsFramed s → IsFramed s'
Handled-IsFramed around s s' e h = (
  subst AllOneLine (sym e.sent) (
      AllOneLine-append s.connection.sent (taken (around.sends s.lines) e.reply) h.0
        (taken-AllOneLine (around.sends s.lines) e.reply e.one_line)),
  e.plain,
)

too_long-IsOneLine : IsOneLine too_long
unfolding too_long
too_long-IsOneLine =
    let start = codes "line too long (maximum " in
    let finish = codes " bytes); closing connection" in
    reply_error-IsOneLine (start ++ print_ℕ max_line_bytes ++ finish) (
      NoNewline-append (start ++ print_ℕ max_line_bytes) finish
        (NoNewline-append start (print_ℕ max_line_bytes) (NoNewline-checked start refl)
          (NoNewline-print_ℕ max_line_bytes))
        (NoNewline-checked finish refl))

module _ (std_hash : Bytes → ℕ) (around : Surroundings) where
  pub handle_line-Handled :
      (line : Bytes) (s s' : Session) (go_on : Bool)
      → NoNewline line
      → IsPlainWorld s.world
      → handle_line std_hash none around line s ≡ some (s', go_on)
      → Handled around s s'
  unfolding handle_line
  handle_line-Handled line s s' go_on n h done =
      let parsed = parse_command line in
      let (error, value) = parse_command-IsPlain line n in
      let answer = around.sends s.lines in
      let counted = record (s.connection) {
        commands_handled = (s.connection.commands_handled + 1) % 2 ^ 64;
      } in
      elim (Bool-cases parsed.ok) [
        | inr refused ↦
            let world : s.world ≡ s'.world = ground (arith, refused, done) in
            record {
              reply = reply_error parsed.error;
              one_line = reply_error-IsOneLine parsed.error error;
              sent = ground (
                arith,
                refused,
                done,
                send_all-sent answer (reply_error parsed.error) s.connection,
              );
              plain = subst IsPlainWorld world h;
            }
        | inl accepted ↦
            elim (Option-cases
              (execute std_hash (around.moment s.lines) none parsed.command s.world)) [
                | inl undefined ↦ absurd (ground (arith, accepted, undefined, done))
                | inr ((w, reply), ran) ↦
                    let (plain, one_line) =
                      execute-IsOneLine std_hash (around.moment s.lines) parsed.command s.world w
                        reply value h ran in
                    let world : w ≡ s'.world = ground (arith, accepted, ran, done) in
                    record {
                      reply = reply;
                      one_line = one_line;
                      sent =
                          ground (arith, accepted, ran, send_all-sent answer reply counted, done);
                      plain = subst IsPlainWorld world plain;
                    }
              ]
      ]

  handle_lines-IsFramed :
      (fuel : ℕ) (s s' : Session) (go_on : Bool)
      → IsFramed s
      → handle_lines std_hash none around fuel s ≡ some (s', go_on)
      → IsFramed s'
  unfolding handle_lines
  handle_lines-IsFramed zero s s' go_on h done =
      let same : s ≡ s' = ground (arith, done) in subst IsFramed same h
  handle_lines-IsFramed (suc fuel) s s' go_on h done =
      elim (Option-cases (next_line s.connection.buffer)) [
        | inl e ↦ let same : s ≡ s' = ground (arith, e, done) in subst IsFramed same h
        | inr ((line, more), e) ↦
            let t : Session = record s { connection = record (s.connection) { buffer = more } } in
            elim (Option-cases (handle_line std_hash none around line t)) [
              | inl f ↦ absurd (ground (arith, e, f, done))
              | inr ((u, go), f) ↦
                  let plain = next_line-HasNoNewline s.connection.buffer line more e in
                  let framed : IsFramed u =
                    Handled-IsFramed around t u (handle_line-Handled line t u go plain h.1 f) h in
                  elim (Bool-cases go) [
                    | inr stop ↦
                        let same : u ≡ s' = ground (arith, e, f, stop, done) in
                        subst IsFramed same framed
                    | inl on ↦
                        handle_lines-IsFramed fuel u s' go_on framed
                          (ground (arith, e, f, on, done))
                  ]
            ]
      ]

  serve_buffer-IsFramed :
      (s s' : Session) (go_on : Bool)
      → IsFramed s
      → serve_buffer std_hash none around s ≡ some (s', go_on)
      → IsFramed s'
  unfolding serve_buffer send_all
  serve_buffer-IsFramed s s' go_on h done =
      elim (Option-cases (handle_lines std_hash none around (buffered s.connection.buffer) s)) [
        | inl e ↦ absurd (ground (arith, e, done))
        | inr ((t, go), e) ↦
            let framed = handle_lines-IsFramed (buffered s.connection.buffer) s t go h e in
            let kept : t.world ≡ s'.world → s'.connection.sent ≡ t.connection.sent → IsFramed s' =
              λ w c. (subst AllOneLine (sym c) framed.0, subst IsPlainWorld w framed.1) in
            elim (Bool-cases go) [
              | inr stop ↦ kept (ground (arith, e, stop, done)) (ground (arith, e, stop, done))
              | inl on ↦ elim (Bool-cases (ltb max_line_bytes (buffered t.connection.buffer))) [
                | inr fits ↦
                    kept (ground (arith, e, on, fits, done)) (ground (arith, e, on, fits, done))
                | inl over ↦ elim (Bool-cases around.sends_last) [
                  | inr lost ↦
                      kept (ground (arith, e, on, over, lost, done))
                        (ground (arith, e, on, over, lost, done))
                  | inl out ↦
                      let world : t.world ≡ s'.world = ground (arith, e, on, over, done) in
                      let sent : s'.connection.sent ≡ t.connection.sent ++ too_long ∷ [] =
                        ground (arith, e, on, over, out, done) in
                      (
                        subst AllOneLine (sym sent) (
                            AllOneLine-append t.connection.sent (too_long ∷ []) framed.0
                              (too_long-IsOneLine, tt)),
                        subst IsPlainWorld world framed.1,
                      )
                ]
              ]
            ]
      ]

  -- Whatever bytes a client sends and however they are cut: all that a connection sends are lines,
  -- each of which ends with its newline and has no other, and no value that is stored gets a newline.
  -- So no client can make the server send a line that is not a reply. The server is without
  -- persistence, and has started with such values.
  pub serve-IsFramed :
      (rs : List Received) (s s' : Session) (waits : Bool)
      → IsFramed s
      → serve std_hash none around rs s ≡ some (s', waits)
      → IsFramed s'
  unfolding serve
  serve-IsFramed [] s s' waits h done = serve_buffer-IsFramed s s' waits h done
  serve-IsFramed (r ∷ rs) s s' waits h done =
      elim (Option-cases (serve_buffer std_hash none around s)) [
        | inl e ↦ absurd (ground (arith, e, done))
        | inr ((t, go), e) ↦
            let framed = serve_buffer-IsFramed s t go h e in
            let u : Session = record t { connection = (fill_buffer r t.connection).0 } in
            let next : IsFramed u =
              (subst AllOneLine (sym (fill_buffer-sent r t.connection)) framed.0, framed.1) in
            elim (Bool-cases go) [
              | inr stop ↦
                  let same : t ≡ s' = ground (arith, e, stop, done) in subst IsFramed same framed
              | inl on ↦ elim (Bool-cases (fill_buffer r t.connection).1) [
                | inl filled ↦
                    serve-IsFramed rs u s' waits next (ground (arith, e, on, filled, done))
                | inr ended ↦
                    let same : u ≡ s' = ground (arith, e, on, ended, done) in
                    subst IsFramed same next
              ]
            ]
      ]
