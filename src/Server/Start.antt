-- ===== src/Server/Start.antt =====
-- `start` of src/net/server.cpp: the socket that listens, over the answers of the system calls.
use cache_x.Base.{
  ◌≡◌, ◌⊎◌, refl, inl, inr, ℕ, ◌∷◌, ◌++◌, Option, none, some, Bytes, codes, Bool, true,
  if◌then◌else◌,
}
use cache_x.Decimal.{print_ℕ}

pub record Options : Type 0 where
  pub host : Bytes
  pub port : ℕ
  pub backlog : ℕ
  pub max_connections : ℕ
  pub verbose : Bool

abbrev pub default_options : Options
default_options = record {
  host = codes "127.0.0.1";
  port = 6379;
  backlog = 128;
  max_connections = 256;
  verbose = true;
}

-- A failed call: whether `errno` is `EADDRINUSE`, and the text of `strerror`.
pub record Failure : Type 0 where
  pub in_use : Bool
  pub reason : Bytes

-- What each call answers: its failure, if it fails; whether the address is one; the port of the
-- socket, if it can be asked for.
pub record Network : Type 0 where
  pub socket : Option Failure
  pub parses : Bool
  pub bind : Option Failure
  pub listen : Option Failure
  pub getsockname : Option ℕ

-- `start` has bound a port, or reports an error.
pub data Started : Type 0 where
  listening : ℕ → Started
  refused : Bytes → Started

unfoldable pub in_use_hint : Options → Bytes
in_use_hint o =
    10 ∷ codes "  Another process already holds "
    ++ o.host
    ++ codes ":"
    ++ print_ℕ o.port
    ++ codes ". Note that 6379 is also Redis's default port -- check with"
    ++ 10 ∷ codes "  `lsof -nP -iTCP:"
    ++ print_ℕ o.port
    ++ codes " -sTCP:LISTEN`, or start CacheX on a different port."

unfoldable pub bind_error : Options → Failure → Bytes
unfolding in_use_hint
bind_error o f =
    let error = codes "bind() failed: " ++ f.reason in
    if f.in_use then error ++ in_use_hint o else error

abbrev pub port_or : ℕ → Option ℕ → ℕ
port_or port none = port
port_or port (some actual) = actual

unfoldable pub listen_on : Options → Network → Started
listen_on o net = elim net.listen [
  | some f ↦ refused (codes "listen() failed: " ++ f.reason)
  | none ↦ listening (port_or o.port net.getsockname)
]

unfoldable pub bind_to : Options → Network → Started
unfolding bind_error listen_on
bind_to o net = elim net.bind [ some f ↦ refused (bind_error o f) | none ↦ listen_on o net ]

unfoldable pub start : Options → Network → Started
unfolding bind_to
start o net = elim net.socket [
  | some f ↦ refused (codes "socket() failed: " ++ f.reason)
  | none ↦
      if net.parses
      then bind_to o net
      else refused (codes "invalid bind address '" ++ o.host ++ codes "'")
]

pub Started-cases :
    (r : Started) → ((port : ℕ) × (r ≡ listening port)) ⊎ ((error : Bytes) × (r ≡ refused error))
Started-cases (listening port) = inl (port, refl)
Started-cases (refused error) = inr (error, refl)
