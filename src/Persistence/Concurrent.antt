-- ===== src/Persistence/Concurrent.antt =====
-- Saves at the same time: clients that send SAVE and the periodic saver. Each makes its calls of the
-- file system in order; between two of them any other save may make its own.
pub mod TempPath
pub mod Stage
pub mod Complete
use cache_x.Base.{
  ℕ, ◌%◌, ◌^◌, List, [], ◌∷◌, ◌++◌, Option, Bytes, codes, Bool, true, false, ◌==◌, if◌then◌else◌,
}
use cache_x.Decimal.{print_ℕ}
use cache_x.Persistence.Disk.{Disk, Call, perform, Answers, save_text}

-- The name of the temporary file, by the number of the process and the value of the counter.
unfoldable pub unique_temp_path : Bytes → ℕ → ℕ → Bytes
unique_temp_path path pid counter =
    path ++ (codes ".tmp." ++ (print_ℕ pid ++ (codes "." ++ print_ℕ counter)))

-- What a save writes, and what the operating system answers to it.
pub record Save : Type 0 where
  pub entries : ℕ
  pub text : Bytes
  pub answers : Answers

-- The calls of the save that is the `i`-th to take a number; the counter is an `unsigned long`.
unfoldable pub calls_of : Bytes → ℕ → ℕ → Save → List Call
calls_of path pid i s =
    (save_text (record (s.answers) { temp_path = unique_temp_path path pid (i % 2 ^ 64) }) path
      s.entries s.text).1

abbrev pub update : (ℕ → List Call) → ℕ → List Call → ℕ → List Call
update f i calls j = if i == j then calls else f j

-- The calls that every save has left, by its number, and the files.
pub record System : Type 0 where
  pub pending : ℕ → List Call
  pub disk : Disk

-- One call of a save, if it has any left.
unfoldable pub advance : ℕ → System → System
advance i s = elim (s.pending i) [
  | [] ↦ s
  | call ∷ calls ↦ record { pending = update s.pending i calls; disk = perform call s.disk }
]

-- The saves make their calls in the order of a schedule.
unfoldable pub interleave : List ℕ → System → System
unfolding advance
interleave [] s = s
interleave (i ∷ schedule) s = interleave schedule (advance i s)

unfoldable pub begin : Bytes → ℕ → (ℕ → Save) → Disk → System
unfolding calls_of
begin path pid saves disk = record { pending = λ i. calls_of path pid i (saves i); disk = disk }
