-- ===== src/Socket/Handle.antt =====
-- The class `Socket` of include/cachex/socket.hpp and src/net/socket.cpp: handles that own
-- descriptors, and the descriptors that the process has open.
pub mod Owned
use cache_x.Base.{
  ℕ, zero, suc, ◌<◌, ◌≡◌, List, [], ◌∷◌, ◌++◌, Option, none, some, Bool, true, false, ◌==◌,
  if◌then◌else◌, length, get_elem?, set as write, ◌>>=◌,
}

-- The handles that are alive, each with its `fd_`; `none` is `kInvalid`.
pub record Process : Type 0 where
  pub handles : List (Option ℕ)
  pub is_open : ℕ → Bool

-- `::close`. A descriptor that is not open may be another's by now: `none`.
unfoldable pub close_descriptor : ℕ → (ℕ → Bool) → Option (ℕ → Bool)
close_descriptor d is_open =
    if is_open d then some (λ e. if d == e then false else is_open e) else none

unfoldable pub close_if_valid : Option ℕ → (ℕ → Bool) → Option (ℕ → Bool)
unfolding close_descriptor
close_if_valid none is_open = some is_open
close_if_valid (some d) is_open = close_descriptor d is_open

-- A call on a handle that is not there is `none` too.
unfoldable pub close : ℕ → Process → Option Process
unfolding close_if_valid
close i p = do
  fd ← get_elem? p.handles i
  rest ← close_if_valid fd p.is_open
  some (record { handles = write p.handles i none; is_open = rest })

unfoldable pub default_construct : Process → Process
default_construct p = record p { handles = p.handles ++ none ∷ [] }

-- A handle around a descriptor that the system has just opened.
unfoldable pub construct : ℕ → Process → Process
construct d p = record {
  handles = p.handles ++ some d ∷ [];
  is_open = λ e. if d == e then true else p.is_open e;
}

unfoldable pub move_construct : ℕ → Process → Option Process
move_construct j p = do
  fd ← get_elem? p.handles j
  some (record p { handles = write p.handles j none ++ fd ∷ [] })

unfoldable pub move_assign : ℕ → ℕ → Process → Option Process
unfolding close
move_assign i j p =
    let moved = (do
      q ← close i p
      fd ← get_elem? q.handles j
      some (record q { handles = write (write q.handles i fd) j none })) in
    if i == j then some p else moved

unfoldable pub without_handle : List (Option ℕ) → ℕ → List (Option ℕ)
without_handle [] i = []
without_handle (h ∷ hs) zero = hs
without_handle (h ∷ hs) (suc i) = h ∷ without_handle hs i

-- The destructor, at the end of a handle's life.
unfoldable pub destroy : ℕ → Process → Option Process
unfolding close without_handle
destroy i p = do q ← close i p; some (record q { handles = without_handle q.handles i })

pub data Action : Type 0 where
  defaulted : Action
  opened : ℕ → Action
  moved : ℕ → Action
  assigned : ℕ → ℕ → Action
  closed : ℕ → Action
  destroyed : ℕ → Action

unfoldable pub act : Action → Process → Option Process
unfolding default_construct construct
act defaulted p = some (default_construct p)
act (opened d) p = some (construct d p)
act (moved j) p = move_construct j p
act (assigned i j) p = move_assign i j p
act (closed i) p = close i p
act (destroyed i) p = destroy i p

unfoldable pub act_all : List Action → Process → Option Process
unfolding act
act_all [] p = some p
act_all (a ∷ rest) p = do q ← act a p; act_all rest q
