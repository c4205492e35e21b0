-- ===== src/Socket/Tests.antt =====
-- The theorems about sockets at small inputs.
use cache_x.Base.{◌≡◌, refl, [], ◌∷◌, List, some, codes, arith, false}
use cache_x.Socket.{Sent, wrote, interrupted, send_all}
use cache_x.Socket.Send.{IsSent, send_all-IsSent}
use cache_x.Socket.Connect.{Candidate, no_socket, unreachable, reachable}
use cache_x.Socket.Handle.{
  Process, Action, opened, defaulted, assigned, destroyed, act, act_all, move_assign, destroy,
}
use cache_x.Socket.Handle.Owned.{owners, IsOwned, AllAllowed, act_all-IsOwned}

abbrev results : List Sent
results = wrote 2 ∷ interrupted ∷ wrote 3 ∷ []

send_all-IsSent_example : IsSent (codes "+PONG") (send_all results (codes "+PONG"))
send_all-IsSent_example = send_all-IsSent results (codes "+PONG") (omega arith, (omega arith, tt))

-- A handle that is filled, moved, moved to itself, moved into and destroyed.
abbrev actions : List Action
actions = opened 7 ∷ defaulted ∷ assigned 0 0 ∷ assigned 1 0 ∷ destroyed 0 ∷ []

abbrev started : Process
started = record { handles = []; is_open = λ d. false }

actions-AllAllowed : AllAllowed actions started
unfolding act move_assign destroy
actions-AllAllowed =
    (refl, (tt, ((omega arith, omega arith), ((omega arith, omega arith), (omega arith, tt)))))

started-IsOwned : IsOwned started
unfolding owners
started-IsOwned = λ d. refl

act_all-IsOwned_example : (q : Process) × (act_all actions started ≡ some q) × IsOwned q
act_all-IsOwned_example = act_all-IsOwned actions started actions-AllAllowed started-IsOwned

-- Two candidates fail before one is connected.
abbrev candidates : List Candidate
candidates = no_socket ∷ unreachable 3 (codes "refused") ∷ reachable 4 ∷ reachable 5 ∷ []
