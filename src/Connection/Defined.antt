-- ===== src/Connection/Defined.antt =====
-- A connection runs without undefined behaviour.
use mathlib.Core.Path.{subst}
use cache_x.Base.{
  ℕ, zero, suc, ◌+◌, ◌*◌, ◌^◌, ◌<◌, ◌≡◌, refl, List, [], ◌∷◌, Option, none, some, Bytes, Bool, true,
  false, length, ltb, arith, Option-cases, Bool-cases, inl, inr,
}
use cache_x.LineBuffer.{next_line, buffered}
use cache_x.Protocol.{parse_command, max_ttl_seconds, max_line_bytes}
use cache_x.CommandHandler.{World, execute}
use cache_x.CommandHandler.Deadlines.{AllSound}
use cache_x.CommandHandler.Defined.{Done, execute-parse_command}
use cache_x.Connection.{
  Received, Session, Surroundings, send_all, fill_buffer, handle_line, handle_lines, serve_buffer,
  serve, too_long,
}

-- The steady clock is far enough from the end of its range at every line.
abbrev pub InTime : Surroundings → Type 0
InTime around = (i : ℕ) → (around.moment i).now + max_ttl_seconds * 1000000000 < 2 ^ 63

abbrev pub IsSoundWorld : World → Type 0
IsSoundWorld w = AllSound w.cache.shards × (0 < length w.cache.shards)

-- The session goes on or ends, with sound shards.
abbrev pub Served : Option (Session × Bool) → Type 0
Served done = (s' : Session) × (go_on : Bool) × (done ≡ some (s', go_on)) × IsSoundWorld s'.world

module _ (std_hash : Bytes → ℕ) (around : Surroundings) where
  ran :
      (line : Bytes) (s : Session)
      → InTime around
      → IsSoundWorld s.world
      → (parse_command line).ok ≡ true
      → Done
          (execute std_hash (around.moment s.lines) none (parse_command line).command s.world)
          s.world
  ran line s time h e =
      execute-parse_command std_hash (around.moment s.lines) none line s.world e (λ _. refl)
        (time s.lines) h.0 h.1

  handle_line-Served :
      (line : Bytes) (s : Session)
      → InTime around
      → IsSoundWorld s.world
      → Served (handle_line std_hash none around line s)
  unfolding handle_line
  handle_line-Served line s time h = elim (Option-cases (handle_line std_hash none around line s)) [
    | inr ((s', go), f) ↦ elim (Bool-cases (parse_command line).ok) [
      | inr e ↦
          let same : s.world ≡ s'.world = ground (arith, e, f) in
          (s', go, f, subst IsSoundWorld same h)
      | inl e ↦
          let (w, reply, done, sound, count) = ran line s time h e in
          let same : w ≡ s'.world = ground (arith, e, f, done) in
          (s', go, f, subst IsSoundWorld same (sound, omega (arith, count, h.1)))
    ]
    | inl f ↦ elim (Bool-cases (parse_command line).ok) [
      | inr e ↦ absurd (ground (arith, e, f))
      | inl e ↦
          let (w, reply, done, sound, count) = ran line s time h e in
          absurd (ground (arith, e, f, done))
    ]
  ]

  handle_lines-Served :
      (fuel : ℕ) (s : Session)
      → InTime around
      → IsSoundWorld s.world
      → Served (handle_lines std_hash none around fuel s)
  unfolding handle_lines
  handle_lines-Served zero s time h = (s, true, refl, h)
  handle_lines-Served (suc fuel) s time h = elim (Option-cases (next_line s.connection.buffer)) [
    | inl e ↦ (s, true, ground (arith, e), h)
    | inr ((line, more), e) ↦
        let t : Session = record s { connection = record (s.connection) { buffer = more } } in
        let (u, go, f, sound) = handle_line-Served line t time h in
        elim (Bool-cases go) [
          | inr stop ↦ (u, false, ground (arith, e, f, stop), sound)
          | inl on ↦
              let (s', go_on, rest, sound') = handle_lines-Served fuel u time sound in
              (s', go_on, ground (arith, e, f, on, rest), sound')
        ]
  ]

  serve_buffer-Served :
      (s : Session)
      → InTime around
      → IsSoundWorld s.world
      → Served (serve_buffer std_hash none around s)
  unfolding serve_buffer
  serve_buffer-Served s time h =
      let (t, go, f, sound) = handle_lines-Served (buffered s.connection.buffer) s time h in
      elim (Bool-cases go) [
        | inr stop ↦ (t, false, ground (arith, f, stop), sound)
        | inl on ↦ elim (Bool-cases (ltb max_line_bytes (buffered t.connection.buffer))) [
          | inr fits ↦ (t, true, ground (arith, f, on, fits), sound)
          | inl over ↦ (
            record t { connection = (send_all around.sends_last too_long t.connection).0 },
            false,
            ground (arith, f, on, over),
            sound,
          )
        ]
      ]

  -- Whatever bytes a client sends, in whatever chunks, a connection of a server without persistence
  -- runs without undefined behaviour, and keeps the shards sound. The clock is far enough from the
  -- end of its range.
  pub serve-Served :
      (rs : List Received) (s : Session)
      → InTime around
      → IsSoundWorld s.world
      → Served (serve std_hash none around rs s)
  unfolding serve
  serve-Served [] s time h = serve_buffer-Served s time h
  serve-Served (r ∷ rs) s time h =
      let (t, go, f, sound) = serve_buffer-Served s time h in
      let u : Session = record t { connection = (fill_buffer r t.connection).0 } in
      let (s', waits, rest, sound') = serve-Served rs u time sound in
      elim (Bool-cases go) [
        | inr stop ↦ (t, false, ground (arith, f, stop, rest), sound)
        | inl on ↦ elim (Bool-cases (fill_buffer r t.connection).1) [
          | inr ended ↦ (u, false, ground (arith, f, on, ended, rest), sound)
          | inl filled ↦ (s', waits, ground (arith, f, on, filled, rest), sound')
        ]
      ]
