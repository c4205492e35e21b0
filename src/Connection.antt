-- ===== src/Connection.antt =====
-- src/net/connection.cpp and include/cachex/connection.hpp: one client, from its bytes to its
-- replies. `none` is undefined behaviour in a command.
pub mod Defined
pub mod Limit
pub mod Replies
pub mod Answers
pub mod Stream
pub mod Framed
mod Tests
use cache_x.Base.{
  ℕ, zero, suc, ◌+◌, ◌*◌, ◌%◌, ◌^◌, List, [], ◌∷◌, ◌++◌, Option, none, some, Bytes, codes, Bool,
  true, false, if◌then◌else◌, ltb, length, ◌>>=◌,
}
use cache_x.Decimal.{print_ℕ}
use cache_x.LineBuffer.{LineBuffer, next_line, append, buffered}
use cache_x.Protocol.{CommandType, quit, parse_command, reply_error, max_line_bytes}
use cache_x.CommandHandler.{Moment, World, execute}

abbrev pub read_chunk_bytes : ℕ
read_chunk_bytes = 16 * 1024

-- `sent` has the replies that `send_all` has put on the socket as a whole.
pub record Connection : Type 0 where
  pub buffer : LineBuffer
  pub commands_handled : ℕ
  pub sent : List Bytes

-- What `recv` gives: bytes, the end of the stream, an interruption by a signal, or an error.
pub data Received : Type 0 where
  bytes : Bytes → Received
  end_of_stream interrupted broken : Received

-- `false` ends the connection.
unfoldable pub fill_buffer : Received → Connection → Connection × Bool
fill_buffer (bytes chunk) c = (record c { buffer = append chunk c.buffer }, true)
fill_buffer end_of_stream c = (c, false)
fill_buffer interrupted c = (c, true)
fill_buffer broken c = (c, false)

abbrev pub is_quit : CommandType → Bool
is_quit quit = true
is_quit _ = false

-- `send_all`, which answers whether all of the reply went out.
unfoldable pub send_all : Bool → Bytes → Connection → Connection × Bool
send_all answer reply c =
    if answer then (record c { sent = c.sent ++ reply ∷ [] }, true) else (c, false)

-- A connection, what its commands work on, and the number of lines that it has taken.
pub record Session : Type 0 where
  pub connection : Connection
  pub world : World
  pub lines : ℕ

unfoldable pub too_long : Bytes
unfolding print_ℕ
too_long = reply_error (
    codes "line too long (maximum "
    ++ print_ℕ max_line_bytes
    ++ codes " bytes); closing connection")

-- The surroundings of a connection: the instant of each line and whether its reply can be sent, by
-- the number of the line, and whether a last message can be sent.
pub record Surroundings : Type 0 where
  pub moment : ℕ → Moment
  pub sends : ℕ → Bool
  pub sends_last : Bool

module _ (std_hash : Bytes → ℕ) (persistence : Option Bytes) (around : Surroundings) where
  unfoldable pub handle_line : Bytes → Session → Option (Session × Bool)
  unfolding send_all
  handle_line line s =
      let parsed = parse_command line in
      let answer = around.sends s.lines in
      if parsed.ok
      then (do
        (w, reply) ← execute std_hash (around.moment s.lines) persistence parsed.command s.world
        let counted = record (s.connection) {
          commands_handled = (s.connection.commands_handled + 1) % 2 ^ 64;
        }
        let (c, sent) = send_all answer reply counted
        some (
          record { connection = c; world = w; lines = s.lines + 1 },
          if sent then (if is_quit parsed.command.type then false else true) else false,
        ))
      else (let (c, sent) = send_all answer (reply_error parsed.error) s.connection in
          some (record s { connection = c; lines = s.lines + 1 }, sent))

  -- The inner loop. Each line takes at least its newline from the buffer, so the bytes buffered are
  -- fuel enough.
  unfoldable pub handle_lines : ℕ → Session → Option (Session × Bool)
  unfolding handle_line
  handle_lines zero s = some (s, true)
  handle_lines (suc fuel) s = elim (next_line s.connection.buffer) [
    | none ↦ some (s, true)
    | some (line, more) ↦ do
      (s', go_on) ←
          handle_line line (record s { connection = record (s.connection) { buffer = more } })
      let rest = handle_lines fuel s'
      if go_on then rest else some (s', false)
  ]

  -- The lines that are there, and the check of what is left; `false` ends the connection.
  unfoldable pub serve_buffer : Session → Option (Session × Bool)
  unfolding handle_lines buffered
  serve_buffer s = do
    (s', go_on) ← handle_lines (buffered s.connection.buffer) s
    if go_on
        then (if ltb max_line_bytes (buffered s'.connection.buffer)
            then some (
              record s' { connection = (send_all around.sends_last too_long s'.connection).0 },
              false,
            )
            else some (s', true))
        else some (s', false)

  -- `serve`, up to the given results of `recv`: the second component says whether the connection
  -- still waits for another.
  unfoldable pub serve : List Received → Session → Option (Session × Bool)
  unfolding serve_buffer fill_buffer
  serve [] s = serve_buffer s
  serve (r ∷ rs) s = do
    (s', go_on) ← serve_buffer s
    let (c, filled) = fill_buffer r s'.connection
    let rest = serve rs (record s' { connection = c })
    if go_on
        then (if filled then rest else some (record s' { connection = c }, false))
        else some (s', false)
