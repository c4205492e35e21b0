-- ===== src/Connection/Limit.antt =====
-- How many bytes a connection keeps.
use cache_x.Base.{
  ℕ, zero, suc, ◌+◌, ◌≤◌, ◌<◌, ◌≡◌, List, [], ◌∷◌, Option, some, Bytes, Bool, true, length,
  length-append, arith, Option-cases, Bool-cases, inl, inr,
}
use cache_x.LineBuffer.{LineBuffer, cut, next_line, append, buffered}
use cache_x.Protocol.{parse_command, max_line_bytes}
use cache_x.CommandHandler.{execute}
use cache_x.Connection.{
  Connection, Received, bytes, end_of_stream, interrupted, broken, Session, Surroundings, send_all,
  fill_buffer, handle_line, handle_lines, serve_buffer, serve, read_chunk_bytes,
}

length-cut : (l line more : Bytes) → cut l ≡ some (line, more) → length more < length l
unfolding cut
length-cut [] line more h = absurd (ground (arith, h))
length-cut (c ∷ cs) line more h = elim (Option-cases (cut cs)) [
  | inl e ↦ ground (arith, h, e)
  | inr ((a, b), e) ↦ ground (arith, h, e, length-cut cs a b e)
]

length-next_line :
    (b : LineBuffer) (line : Bytes) (more : LineBuffer)
    → next_line b ≡ some (line, more)
    → length more.buffer < length b.buffer
unfolding next_line
length-next_line b line more h = elim (Option-cases (cut b.buffer)) [
  | inl e ↦ absurd (ground (arith, h, e))
  | inr ((l, r), e) ↦ ground (arith, h, e, length-cut b.buffer l r e)
]

-- What `recv` gives at a time.
abbrev pub ChunkFits : Received → Type 0
ChunkFits (bytes chunk) = length chunk ≤ read_chunk_bytes
ChunkFits _ = Unit {0}

abbrev pub AllChunksFit : List Received → Type 0
AllChunksFit [] = Unit {0}
AllChunksFit (r ∷ rs) = ChunkFits r × AllChunksFit rs

abbrev pub kept : Session → ℕ
kept s = length s.connection.buffer.buffer

fill_buffer-kept :
    (r : Received) (c : Connection)
    → ChunkFits r
    → length (fill_buffer r c).0.buffer.buffer ≤ length c.buffer.buffer + read_chunk_bytes
unfolding fill_buffer append
fill_buffer-kept (bytes chunk) c f = omega (arith, length-append c.buffer.buffer chunk)
fill_buffer-kept end_of_stream c f = omega arith
fill_buffer-kept interrupted c f = omega arith
fill_buffer-kept broken c f = omega arith

module _ (std_hash : Bytes → ℕ) (persistence : Option Bytes) (around : Surroundings) where
  handle_line-kept :
      (line : Bytes) (s s' : Session) (go_on : Bool)
      → handle_line std_hash persistence around line s ≡ some (s', go_on)
      → kept s' ≡ kept s
  unfolding handle_line
  handle_line-kept line s s' go_on h = elim (Bool-cases (parse_command line).ok) [
    | inr e ↦ ground (arith, h, e)
    | inl e ↦
        elim (Option-cases (
          execute std_hash (around.moment s.lines) persistence (parse_command line).command
            s.world)) [
              | inl f ↦ absurd (ground (arith, h, e, f))
              | inr ((w, reply), f) ↦ ground (arith, h, e, f)
            ]
  ]

  handle_lines-kept :
      (fuel : ℕ) (s s' : Session) (go_on : Bool)
      → handle_lines std_hash persistence around fuel s ≡ some (s', go_on)
      → kept s' ≤ kept s
  unfolding handle_lines
  handle_lines-kept zero s s' go_on h = ground (arith, h)
  handle_lines-kept (suc fuel) s s' go_on h = elim (Option-cases (next_line s.connection.buffer)) [
    | inl e ↦ ground (arith, h, e)
    | inr ((line, more), e) ↦
        let t : Session = record s { connection = record (s.connection) { buffer = more } } in
        let less = length-next_line s.connection.buffer line more e in
        elim (Option-cases (handle_line std_hash persistence around line t)) [
          | inl f ↦ absurd (ground (arith, h, e, f))
          | inr ((u, go), f) ↦
              let same = handle_line-kept line t u go f in
              elim (Bool-cases go) [
                | inr stop ↦ ground (arith, h, e, f, stop, less, same)
                | inl on ↦
                    let rest = handle_lines-kept fuel u s' go_on (ground (arith, h, e, f, on)) in
                    omega (arith, less, same, rest)
              ]
        ]
  ]

  serve_buffer-kept :
      (s s' : Session) (go_on : Bool)
      → serve_buffer std_hash persistence around s ≡ some (s', go_on)
      → (kept s' ≤ kept s) × (go_on ≡ true → kept s' ≤ max_line_bytes)
  unfolding serve_buffer send_all
  serve_buffer-kept s s' go_on h =
      elim (Option-cases
        (handle_lines std_hash persistence around (buffered s.connection.buffer) s)) [
          | inl e ↦ absurd (ground (arith, h, e))
          | inr ((t, go), e) ↦
              let less = handle_lines-kept (buffered s.connection.buffer) s t go e in
              (ground (arith, h, e, less), λ on. ground (arith, h, e, less, on))
        ]

  -- A connection never keeps more than the longest line and one chunk, and when it waits for more
  -- bytes it keeps no more than the longest line, if `recv` gives at most a chunk at a time.
  pub serve-bounded :
      (rs : List Received) (s s' : Session) (waits : Bool)
      → AllChunksFit rs
      → kept s ≤ max_line_bytes + read_chunk_bytes
      → serve std_hash persistence around rs s ≡ some (s', waits)
      → (kept s' ≤ max_line_bytes + read_chunk_bytes) × (waits ≡ true → kept s' ≤ max_line_bytes)
  unfolding serve
  serve-bounded [] s s' waits f small h =
      let (less, low) = serve_buffer-kept s s' waits h in (omega (arith, less, small), low)
  serve-bounded (r ∷ rs) s s' waits f small h =
      elim (Option-cases (serve_buffer std_hash persistence around s)) [
        | inl e ↦ absurd (ground (arith, h, e))
        | inr ((t, go), e) ↦
            let (less, low) = serve_buffer-kept s t go e in
            let more = fill_buffer-kept r t.connection f.0 in
            let u : Session = record t { connection = (fill_buffer r t.connection).0 } in
            elim (Bool-cases go) [
              | inr stop ↦ (
                ground (arith, h, e, stop, less, small),
                λ w. absurd (ground (arith, h, e, stop, w)),
              )
              | inl on ↦ elim (Bool-cases (fill_buffer r t.connection).1) [
                | inr ended ↦ (
                  ground (arith, h, e, on, ended, low on, more),
                  λ w. absurd (ground (arith, h, e, on, ended, w)),
                )
                | inl filled ↦
                    serve-bounded rs u s' waits f.1 (omega (arith, low on, more))
                      (ground (arith, h, e, on, filled))
              ]
            ]
      ]
