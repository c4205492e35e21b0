-- ===== src/Socket/Connect/First.antt =====
-- Which candidate is taken, and what becomes of the others.
use cache_x.Base.{ℕ, ◌≡◌, ◌≢◌, ◌⊎◌, List, [], ◌∷◌, ◌++◌, none, some}
use cache_x.Socket.Connect.{Candidate, no_socket, unreachable, reachable, Connected}

abbrev pub AllFail : List Candidate → Type 0
AllFail [] = Unit {0}
AllFail (no_socket ∷ rest) = AllFail rest
AllFail (unreachable fd reason ∷ rest) = AllFail rest
AllFail (reachable fd ∷ rest) = ⊥

-- The descriptors that the system has opened for some candidates.
abbrev pub descriptors : List Candidate → List ℕ
descriptors [] = []
descriptors (no_socket ∷ rest) = descriptors rest
descriptors (unreachable fd reason ∷ rest) = fd ∷ descriptors rest
descriptors (reachable fd ∷ rest) = fd ∷ descriptors rest

-- The first candidate that can be reached, or none.
abbrev pub TakesFirst : List Candidate → Connected → Type 0
TakesFirst candidates c =
    ((fd : ℕ) × (before : List Candidate) × (later : List Candidate) × (candidates
        ≡ before ++ reachable fd ∷ later)
      × AllFail before
      × (c.descriptor ≡ some fd)
      × (c.closed ≡ descriptors before))
    ⊎ (AllFail candidates
        × (c.descriptor ≡ none)
        × (c.closed ≡ descriptors candidates)
        × (c.error ≢ []))
