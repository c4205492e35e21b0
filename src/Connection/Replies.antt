-- ===== src/Connection/Replies.antt =====
-- What a connection sends.
use cache_x.Base.{
  ℕ, zero, suc, ◌+◌, ◌≡◌, ◌⊎◌, refl, ap, List, [], ◌∷◌, Option, some, Bytes, Bool, true, false,
  length, length-append, ltb, arith, Option-cases, Bool-cases, inl, inr,
}
use cache_x.LineBuffer.{next_line, buffered}
use cache_x.Protocol.{parse_command, max_line_bytes, reply_error}
use cache_x.CommandHandler.{execute}
use cache_x.Connection.{
  Connection, Received, bytes, end_of_stream, interrupted, broken, Session, Surroundings, send_all,
  fill_buffer, handle_line, handle_lines, serve_buffer, serve, too_long,
}

-- The client takes every reply.
abbrev pub AllSent : Surroundings → Type 0
AllSent around = ((i : ℕ) → around.sends i ≡ true) × (around.sends_last ≡ true)

abbrev pub replies : Session → ℕ
replies s = length s.connection.sent

-- One reply to a line, and one message more only at the end.
abbrev pub OnePerLine : Session → Session → Bool → Type 0
OnePerLine s s' go_on =
    (replies s' + s.lines ≡ replies s + s'.lines)
    ⊎ ((go_on ≡ false) × (replies s' + s.lines ≡ replies s + s'.lines + 1))

pub fill_buffer-sent : (r : Received) (c : Connection) → (fill_buffer r c).0.sent ≡ c.sent
unfolding fill_buffer
fill_buffer-sent (bytes chunk) c = refl
fill_buffer-sent end_of_stream c = refl
fill_buffer-sent interrupted c = refl
fill_buffer-sent broken c = refl

module _ (std_hash : Bytes → ℕ) (persistence : Option Bytes) (around : Surroundings) where
  handle_line-replies :
      (line : Bytes) (s s' : Session) (go_on : Bool)
      → AllSent around
      → handle_line std_hash persistence around line s ≡ some (s', go_on)
      → (replies s' ≡ replies s + 1) × (s'.lines ≡ s.lines + 1)
  unfolding handle_line send_all
  handle_line-replies line s s' go_on a h = elim (Bool-cases (parse_command line).ok) [
    | inr e ↦
        let long = length-append s.connection.sent (reply_error (parse_command line).error ∷ []) in
        (ground (arith, h, e, a.0 s.lines, long), ground (arith, h, e))
    | inl e ↦
        elim (Option-cases (
          execute std_hash (around.moment s.lines) persistence (parse_command line).command
            s.world)) [
              | inl f ↦ absurd (ground (arith, h, e, f))
              | inr ((w, reply), f) ↦
                  let long = length-append s.connection.sent (reply ∷ []) in
                  (ground (arith, h, e, f, a.0 s.lines, long), ground (arith, h, e, f))
            ]
  ]

  handle_lines-replies :
      (fuel : ℕ) (s s' : Session) (go_on : Bool)
      → AllSent around
      → handle_lines std_hash persistence around fuel s ≡ some (s', go_on)
      → replies s' + s.lines ≡ replies s + s'.lines
  unfolding handle_lines
  handle_lines-replies zero s s' go_on a h = ground (arith, h)
  handle_lines-replies (suc fuel) s s' go_on a h =
      elim (Option-cases (next_line s.connection.buffer)) [
        | inl e ↦ ground (arith, h, e)
        | inr ((line, more), e) ↦
            let t : Session = record s { connection = record (s.connection) { buffer = more } } in
            elim (Option-cases (handle_line std_hash persistence around line t)) [
              | inl f ↦ absurd (ground (arith, h, e, f))
              | inr ((u, go), f) ↦
                  let (one, next) = handle_line-replies line t u go a f in
                  elim (Bool-cases go) [
                    | inr stop ↦ ground (arith, h, e, f, stop, one, next)
                    | inl on ↦
                        let rest =
                          handle_lines-replies fuel u s' go_on a (ground (arith, h, e, f, on)) in
                        omega (arith, one, next, rest)
                  ]
            ]
      ]

  serve_buffer-OnePerLine :
      (s s' : Session) (go_on : Bool)
      → AllSent around
      → serve_buffer std_hash persistence around s ≡ some (s', go_on)
      → OnePerLine s s' go_on
  unfolding serve_buffer send_all
  serve_buffer-OnePerLine s s' go_on a h =
      elim (Option-cases
        (handle_lines std_hash persistence around (buffered s.connection.buffer) s)) [
          | inl e ↦ absurd (ground (arith, h, e))
          | inr ((t, go), e) ↦
              let each = handle_lines-replies (buffered s.connection.buffer) s t go a e in
              let long = length-append t.connection.sent (too_long ∷ []) in
              elim (Bool-cases go) [
                | inr stop ↦ inl (ground (arith, h, e, stop, each))
                | inl on ↦ elim (Bool-cases (ltb max_line_bytes (buffered t.connection.buffer))) [
                  | inr fits ↦ inl (ground (arith, h, e, on, fits, each))
                  | inl over ↦ inr (
                    ground (arith, h, e, on, over),
                    ground (arith, h, e, on, over, each, long, a.1),
                  )
                ]
              ]
        ]

  -- Every line that a connection takes gets exactly one reply, a command that is refused too. Only a
  -- connection that has ended may have sent one message more. The client takes every reply.
  pub serve-OnePerLine :
      (rs : List Received) (s s' : Session) (waits : Bool)
      → AllSent around
      → serve std_hash persistence around rs s ≡ some (s', waits)
      → OnePerLine s s' waits
  unfolding serve
  serve-OnePerLine [] s s' waits a h = serve_buffer-OnePerLine s s' waits a h
  serve-OnePerLine (r ∷ rs) s s' waits a h =
      elim (Option-cases (serve_buffer std_hash persistence around s)) [
        | inl e ↦ absurd (ground (arith, h, e))
        | inr ((t, go), e) ↦
            let first = serve_buffer-OnePerLine s t go a e in
            let same = fill_buffer-sent r t.connection in
            let u : Session = record t { connection = (fill_buffer r t.connection).0 } in
            let count : replies u ≡ replies t = ap length same in
            elim (Bool-cases go) [
              | inr stop ↦ elim first [
                | inl each ↦ inl (ground (arith, h, e, stop, each))
                | inr (_, each) ↦ inr (ground (arith, h, e, stop), ground (arith, h, e, stop, each))
              ]
              | inl on ↦ elim first [
                | inr (off, _) ↦ absurd (ground (arith, on, off))
                | inl each ↦ elim (Bool-cases (fill_buffer r t.connection).1) [
                  | inr ended ↦ inl (ground (arith, h, e, on, ended, each, same))
                  | inl filled ↦
                      elim (serve-OnePerLine rs u s' waits a (ground (arith, h, e, on, filled))) [
                        | inl later ↦ inl (omega (arith, each, later, count))
                        | inr (off, later) ↦ inr (off, omega (arith, each, later, count))
                      ]
                ]
              ]
            ]
      ]
