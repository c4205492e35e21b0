-- ===== src/LineBuffer.antt =====
-- src/net/line_buffer.cpp and include/cachex/line_buffer.hpp: a byte stream cut into lines.
pub mod Lines
pub mod Next
pub mod Short
mod Tests
use cache_x.Base.{
  ℕ, zero, suc, List, [], ◌∷◌, ◌++◌, Option, none, some, Bytes, Bool, true, false, ◌==◌,
  if◌then◌else◌, length,
}

pub record LineBuffer : Type 0 where
  pub buffer : Bytes

abbrev pub empty_buffer : LineBuffer
empty_buffer = record { buffer = [] }

unfoldable pub append : Bytes → LineBuffer → LineBuffer
append bytes b = record { buffer = b.buffer ++ bytes }

-- `find('\n')`, with the text before and behind it.
unfoldable pub cut : Bytes → Option (Bytes × Bytes)
cut [] = none
cut (c ∷ cs) =
    let rest = cut cs in
    if c == 10
    then some ([], cs)
    else elim rest [ none ↦ none | some (line, more) ↦ some (c ∷ line, more) ]

-- The line without a carriage return at its end.
unfoldable pub strip_cr : Bytes → Bytes
strip_cr [] = []
strip_cr (c ∷ []) = if c == 13 then [] else c ∷ []
strip_cr (c ∷ d ∷ cs) = c ∷ strip_cr (d ∷ cs)

unfoldable pub next_line : LineBuffer → Option (Bytes × LineBuffer)
unfolding cut strip_cr
next_line b = elim (cut b.buffer) [
  | none ↦ none
  | some (line, more) ↦ some (strip_cr line, record { buffer = more })
]

unfoldable pub buffered : LineBuffer → ℕ
buffered b = length b.buffer

unfoldable pub empty : LineBuffer → Bool
empty b = elim b.buffer [ [] ↦ true | _ ∷ _ ↦ false ]

unfoldable pub clear : LineBuffer → LineBuffer
clear b = empty_buffer

-- `while (line = next_line())`: the lines, and the buffer that has none left. Every line takes at
-- least its newline from the buffer, so the bytes buffered are fuel enough.
unfoldable pub drain_within : ℕ → LineBuffer → List Bytes × LineBuffer
unfolding next_line
drain_within zero b = ([], b)
drain_within (suc fuel) b = elim (next_line b) [
  | none ↦ ([], b)
  | some (line, more) ↦ (line ∷ (drain_within fuel more).0, (drain_within fuel more).1)
]

unfoldable pub drain : LineBuffer → List Bytes × LineBuffer
unfolding drain_within
drain b = drain_within (length b.buffer) b

-- The chunks of a stream in turn, with the lines taken out after each.
unfoldable pub feed : List Bytes → LineBuffer → List Bytes × LineBuffer
unfolding append drain
feed [] b = ([], b)
feed (chunk ∷ chunks) b =
    let (lines, b') = drain (append chunk b) in
    let (more, b'') = feed chunks b' in (lines ++ more, b'')
