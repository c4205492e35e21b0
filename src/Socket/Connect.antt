-- ===== src/Socket/Connect.antt =====
-- `connect_to` of src/net/socket.cpp, over the answers of the system calls.
pub mod First
use cache_x.Base.{ℕ, ◌∷◌, ◌++◌, List, [], Option, none, some, Bytes, codes}

-- What a candidate address gives: no descriptor, a descriptor that cannot be connected with the text
-- of `strerror`, or one that is connected.
pub data Candidate : Type 0 where
  no_socket : Candidate
  unreachable : ℕ → Bytes → Candidate
  reachable : ℕ → Candidate

-- What `getaddrinfo` gives: the text of `gai_strerror`, or the candidates.
pub data Resolved : Type 0 where
  unresolved : Bytes → Resolved
  resolved : List Candidate → Resolved

-- The descriptor that is connected, the error text, and the descriptors that are closed on the way.
pub record Connected : Type 0 where
  pub descriptor : Option ℕ
  pub error : Bytes
  pub closed : List ℕ

unfoldable pub or_no_address : Bytes → Bytes
or_no_address [] = codes "no usable address"
or_no_address (c ∷ cs) = c ∷ cs

-- The loop over the candidates: a socket is closed at the end of the round, unless it is returned.
unfoldable pub try_candidates : List Candidate → Bytes → Connected
unfolding or_no_address
try_candidates [] error = record { descriptor = none; error = or_no_address error; closed = [] }
try_candidates (no_socket ∷ rest) error = try_candidates rest error
try_candidates (unreachable fd reason ∷ rest) error =
    let later = try_candidates rest reason in record later { closed = fd ∷ later.closed }
try_candidates (reachable fd ∷ rest) error = record {
  descriptor = some fd;
  error = error;
  closed = [];
}

unfoldable pub connect_to : Bytes → Resolved → Bytes → Connected
unfolding try_candidates
connect_to host (unresolved reason) error = record {
  descriptor = none;
  error = codes "cannot resolve '" ++ host ++ codes "': " ++ reason;
  closed = [];
}
connect_to host (resolved candidates) error = try_candidates candidates error
