-- ===== src/ClientMain.antt =====
-- src/client_main.cpp: the command line client, from its arguments to its exit code.
pub mod Talk
pub mod Conversation
mod Tests
use cache_x.Base.{
  ℕ, ◌∷◌, ◌++◌, List, [], Option, none, some, Bytes, codes, bytes_eq, Bool, true, false, ltb, ◌==◌,
  length, get_elem?, if◌then◌else◌, ◌>>=◌,
}
use cache_x.Decimal.{print_ℕ}
use cache_x.LineBuffer.{LineBuffer, empty_buffer, append, next_line}
use cache_x.Socket.{Sent, Sending, send_all, parse_port}
use cache_x.Socket.Connect.{Resolved, Connected, connect_to}

-- A reply, and the buffer with the results of `recv` that are left.
pub record Reading : Type 0 where
  pub buffer : LineBuffer
  pub chunks : List Bytes

-- `read_reply`, over the results of `recv`: the bytes of each, and none left when the connection is
-- closed or fails.
unfoldable pub read_from : List Bytes → LineBuffer → Option (Bytes × Reading)
read_from [] buffer = elim (next_line buffer) [
  | some (line, more) ↦ some (line, record { buffer = more; chunks = [] })
  | none ↦ none
]
read_from (chunk ∷ chunks) buffer =
    let later = read_from chunks (append chunk buffer) in
    elim (next_line buffer) [
      | some (line, more) ↦ some (line, record { buffer = more; chunks = chunk ∷ chunks })
      | none ↦ later
    ]

unfoldable pub read_reply : Reading → Option (Bytes × Reading)
unfolding read_from
read_reply r = read_from r.chunks r.buffer

pub record Settings : Type 0 where
  pub host : Bytes
  pub port : ℕ

-- What is printed, on `std::cout` or on `std::cerr`.
pub data Output : Type 0 where
  out err : Bytes → Output

-- What the arguments give: the settings, or an error text.
pub data Accepted : Type 0 where
  settings : Settings → Accepted
  misused : Bytes → Accepted

unfoldable pub usage : Bytes → Bytes
usage program = codes "usage: " ++ program ++ codes " [host] [port]" ++ 10 ∷ []

unfoldable pub invalid_port : Bytes → Bytes
invalid_port text = codes "cachex-client: invalid port '" ++ text ++ codes "'" ++ 10 ∷ []

unfoldable pub port_argument : Bytes → Bytes → Accepted
unfolding invalid_port
port_argument host text = elim (parse_port text) [
  | none ↦ misused (invalid_port text)
  | some port ↦
      if port == 0
      then misused (invalid_port text)
      else settings (record { host = host; port = port })
]

-- The arguments behind the name of the program.
unfoldable pub parse_arguments : Bytes → List Bytes → Accepted
unfolding usage port_argument
parse_arguments program [] = settings (record { host = codes "127.0.0.1"; port = 6379 })
parse_arguments program (host ∷ []) = settings (record { host = host; port = 6379 })
parse_arguments program (host ∷ port ∷ []) = port_argument host port
parse_arguments program (_ ∷ _ ∷ _ ∷ _) = misused (usage program)

unfoldable pub banner : Bytes → Settings → Bytes
banner version s =
    codes "CacheX client "
    ++ version
    ++ codes " connected to "
    ++ s.host
    ++ codes ":"
    ++ print_ℕ s.port
    ++ 10 ∷ codes "commands: SET key value [ttl_seconds] | GET key | DELETE key"
    ++ 10 ∷ codes "          EXISTS key | TTL key | SAVE | LOAD | PING | QUIT"
    ++ 10 ∷ codes "Ctrl-D or QUIT to exit"
    ++ 10 ∷ 10 ∷ []

abbrev pub prompt : Output
prompt = out (codes "cachex> ")

-- The end of the program: its exit code, what it has printed, and what it has put on the socket.
pub record Exit : Type 0 where
  pub code : ℕ
  pub console : List Output
  pub wire : Bytes

abbrev pub before : List Output → Bytes → Exit → Exit
before outputs bytes e = record e { console = outputs ++ e.console; wire = bytes ++ e.wire }

abbrev pub is_true : Option Bool → Bool
is_true (some true) = true
is_true _ = false

-- The loop of `main`, over the lines of the input, each with the results of `send` if it is sent.
unfoldable pub talk : List (Bytes × List Sent) → Reading → Exit
talk [] r = record { code = 0; console = prompt ∷ out (10 ∷ []) ∷ []; wire = [] }
talk (([], _) ∷ requests) r = before (prompt ∷ []) [] (talk requests r)
talk ((c ∷ cs, results) ∷ requests) r =
    let sending = send_all results ((c ∷ cs) ++ 10 ∷ []) in
    let reply = read_reply r in
    if is_true sending.answer
    then elim reply [
      | none ↦ record {
        code = 1;
        console =
            prompt ∷ err (codes "cachex-client: server closed the connection" ++ 10 ∷ []) ∷ [];
        wire = sending.wire;
      }
      | some (line, r') ↦
          let rest = talk requests r' in
          let shown = prompt ∷ out (line ++ 10 ∷ []) ∷ [] in
          if bytes_eq line (codes "+BYE")
          then record { code = 0; console = shown; wire = sending.wire }
          else before shown sending.wire rest
    ]
    else record {
      code = 1;
      console = prompt ∷ err (codes "cachex-client: connection lost while sending" ++ 10 ∷ []) ∷ [];
      wire = sending.wire;
    }

-- What the program meets: its name and the version, the answers of the network, the results of
-- `recv`, and the lines of the input.
pub record Outside : Type 0 where
  pub program : Bytes
  pub version : Bytes
  pub network : Resolved
  pub chunks : List Bytes
  pub requests : List (Bytes × List Sent)

unfoldable pub connect_error : Settings → Bytes → Bytes
connect_error s error =
    codes "cachex-client: cannot connect to "
    ++ s.host
    ++ codes ":"
    ++ print_ℕ s.port
    ++ codes ": "
    ++ error
    ++ 10 ∷ []

unfoldable pub run : Outside → Settings → Exit
unfolding banner connect_error
run o s =
    let connected = connect_to s.host o.network [] in
    elim connected.descriptor [
      | none ↦ record { code = 1; console = err (connect_error s connected.error) ∷ []; wire = [] }
      | some _ ↦
          before (out (banner o.version s) ∷ []) []
            (talk o.requests (record { buffer = empty_buffer; chunks = o.chunks }))
    ]

unfoldable pub main : Outside → List Bytes → Exit
unfolding run
main o arguments = elim (parse_arguments o.program arguments) [
  | misused text ↦ record { code = 2; console = err text ∷ []; wire = [] }
  | settings s ↦ run o s
]
