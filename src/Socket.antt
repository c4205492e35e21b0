-- ===== src/Socket.antt =====
-- src/net/socket.cpp and include/cachex/socket.hpp: the loop that sends a text, and the parser of
-- ports.
pub mod Send
pub mod Connect
pub mod Handle
pub mod Port
mod Tests
use cache_x.Base.{
  ℕ, ◌+◌, ◌-◌, ◌^◌, List, [], ◌∷◌, ◌++◌, Option, none, some, Bytes, Bool, true, false, leb, ltb,
  if◌then◌else◌, length, take, drop,
}
use cache_x.Decimal.{read_magnitude}

-- What one `send` gives: the number of bytes that it took, an interruption by a signal, or an error.
pub data Sent : Type 0 where
  wrote : ℕ → Sent
  interrupted broken : Sent

-- What `send_all` has put on the socket, and its answer; `none` while it still waits in `send`.
pub record Sending : Type 0 where
  pub wire : Bytes
  pub answer : Option Bool

-- The buffer that a call of `send` is given: the bytes from a pointer on, as many as its length.
unfoldable pub offered : Bytes → ℕ → ℕ → Bytes
offered text pointer size = take size (drop pointer text)

-- `send` puts the first bytes of its buffer on the socket, as many as it answers.
abbrev pub put_on_wire : ℕ → Bytes → Sending → Sending
put_on_wire n buffer later = record later { wire = take n buffer ++ later.wire }

-- The loop of `send_all`, over the results of `send`: each call is given the pointer `data() + sent`
-- and the length `size() - sent`.
unfoldable pub send_from : List Sent → Bytes → ℕ → Sending
unfolding offered
send_from [] text sent = record {
  wire = [];
  answer = if ltb sent (length text) then none else some true;
}
send_from (wrote n ∷ results) text sent =
    let buffer = offered text sent (length text - sent) in
    let rest = send_from results text (sent + n) in
    if ltb sent (length text)
    then put_on_wire n buffer rest
    else record { wire = []; answer = some true }
send_from (interrupted ∷ results) text sent =
    let rest = send_from results text sent in
    if ltb sent (length text) then rest else record { wire = []; answer = some true }
send_from (broken ∷ results) text sent = record {
  wire = [];
  answer = some (if ltb sent (length text) then false else true);
}

unfoldable pub send_all : List Sent → Bytes → Sending
unfolding send_from
send_all results text = send_from results text 0

-- `std::from_chars` for an `unsigned long` takes digits only.
unfoldable pub parse_port : Bytes → Option ℕ
parse_port text = elim (read_magnitude (2 ^ 64) text) [
  | none ↦ none
  | some (value, []) ↦ if ltb 65535 value then none else some value
  | some (value, _ ∷ _) ↦ none
]
