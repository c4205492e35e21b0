-- ===== src/LineBuffer/Short.antt =====
-- Streams without a line that is too long.
use cache_x.Base.{
  ℕ, ◌+◌, ◌≤◌, ◌≡◌, List, [], ◌∷◌, ◌++◌, Bytes, Bool, true, ◌&&◌, leb, ◌==◌, if◌then◌else◌, length,
  arith, Bool-cases, inl, inr,
}
use cache_x.LineBuffer.Lines.{HasNoNewline, joined, AllLines}

-- No line is longer than a bound, the bytes behind the last newline included; `k` bytes of the first
-- line have been seen.
unfoldable pub all_short : ℕ → ℕ → Bytes → Bool
all_short bound k [] = leb k bound
all_short bound k (c ∷ cs) =
    let last = leb k bound && all_short bound 0 cs in
    let more = all_short bound (k + 1) cs in if c == 10 then last else more

all_short-le : (bound k : ℕ) (text : Bytes) → all_short bound k text ≡ true → k ≤ bound
unfolding all_short
all_short-le bound k [] h = ground (arith, h)
all_short-le bound k (c ∷ cs) h = elim (Bool-cases (c == 10)) [
  | inl newline ↦ ground (arith, newline, h)
  | inr other ↦
      let more = all_short-le bound (k + 1) cs (ground (arith, other, h)) in omega (arith, more)
]

pub all_short-prefix :
    (bound k : ℕ) (text more : Bytes)
    → all_short bound k (text ++ more) ≡ true
    → all_short bound k text ≡ true
unfolding all_short
all_short-prefix bound k [] more h = ground (arith, all_short-le bound k more h)
all_short-prefix bound k (c ∷ cs) more h = elim (Bool-cases (c == 10)) [
  | inl newline ↦
      let rest = all_short-prefix bound 0 cs more (ground (arith, newline, h)) in
      ground (arith, newline, h, rest)
  | inr other ↦
      let rest = all_short-prefix bound (k + 1) cs more (ground (arith, other, h)) in
      ground (arith, other, rest)
]

pub all_short-length :
    (bound k : ℕ) (text : Bytes)
    → HasNoNewline text
    → all_short bound k text ≡ true
    → k + length text ≤ bound
unfolding all_short
all_short-length bound k [] n h = ground (arith, h)
all_short-length bound k (c ∷ cs) n h =
    let other = n.0 in
    omega (arith, all_short-length bound (k + 1) cs n.1 (ground (arith, other, h)))

all_short-line :
    (bound k : ℕ) (line rest : Bytes)
    → HasNoNewline line
    → all_short bound k (line ++ 10 ∷ rest) ≡ true
    → all_short bound 0 rest ≡ true
unfolding all_short
all_short-line bound k [] rest n h = ground (arith, h)
all_short-line bound k (c ∷ cs) rest n h =
    let other = n.0 in all_short-line bound (k + 1) cs rest n.1 (ground (arith, other, h))

pub all_short-joined :
    (bound : ℕ) (ls : List Bytes) (rest : Bytes)
    → AllLines ls
    → all_short bound 0 (joined ls rest) ≡ true
    → all_short bound 0 rest ≡ true
all_short-joined bound [] rest a h = h
all_short-joined bound (l ∷ ls) rest a h =
    all_short-joined bound ls rest a.1 (all_short-line bound 0 l (joined ls rest) a.0 h)
