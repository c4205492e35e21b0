-- ===== src/Persistence/Concurrent/Complete.antt =====
-- At every moment of any number of saves the snapshot is complete.
use mathlib.Core.Path.{subst}
use cache_x.Base.{
  ℕ, ◌%◌, ◌^◌, ◌<◌, ◌≡◌, ◌≢◌, ◌⊎◌, inl, inr, refl, sym, ◌∙◌, List, [], ◌∷◌, Option, some, Bytes,
  ◌==◌, ==_iff, arith, Bool-cases,
}
use cache_x.Persistence.Disk.{Disk, Call, perform, Answers, save_text}
use cache_x.Persistence.Atomic.{save_text-Way}
use cache_x.Persistence.Concurrent.{
  unique_temp_path, Save, calls_of, update, System, advance, interleave, begin,
}
use cache_x.Persistence.Concurrent.TempPath.{unique_temp_path-ne, unique_temp_path-apart}
use cache_x.Persistence.Concurrent.Stage.{Stage, Advances, Way-Stage, Stage-same, Stage-Advances}

-- The numbers of a schedule.
abbrev pub AllBelow : List ℕ → Type 0
AllBelow [] = Unit {0}
AllBelow (i ∷ schedule) = (i < 2 ^ 64) × AllBelow schedule

-- What holds between the calls of the saves with numbers below the wrap of the counter.
pub record IsComplete (path : Bytes) (pid : ℕ) (saves : ℕ → Save) (before : Option Bytes)
    (s : System) : Type 0 where
  pub stage :
      (i : ℕ)
      → i < 2 ^ 64
      → Stage (unique_temp_path path pid (i % 2 ^ 64)) path (saves i).text (s.pending i) s.disk
  pub snapshot : (s.disk path ≡ before) ⊎ ((i : ℕ) × (s.disk path ≡ some (saves i).text))

module _ (path : Bytes) (pid : ℕ) (saves : ℕ → Save) (before : Option Bytes) where
  abbrev temp : ℕ → Bytes
  temp i = unique_temp_path path pid (i % 2 ^ 64)

  begin-IsComplete :
      (disk : Disk)
      → disk path ≡ before
      → IsComplete path pid saves before (begin path pid saves disk)
  unfolding begin calls_of
  begin-IsComplete disk h = record {
    stage = λ i _.
        let a : Answers = record ((saves i).answers) {
          temp_path = unique_temp_path path pid (i % 2 ^ 64);
        } in
        Way-Stage a path (saves i).text (save_text a path (saves i).entries (saves i).text) disk
          (save_text-Way a path (saves i).entries (saves i).text);
    snapshot = inl h;
  }

  -- A call of the save `i` leaves the others where they were.
  performed-Stage :
      (i j : ℕ) (s : System) (call : Call) (calls : List Call)
      → i < 2 ^ 64
      → j < 2 ^ 64
      → Stage (temp j) path (saves j).text (s.pending j) s.disk
      → Advances (temp i) path (saves i).text call calls s.disk
      → Stage (temp j) path (saves j).text (update s.pending i calls j) (perform call s.disk)
  performed-Stage i j s call calls below small h a = elim (Bool-cases (i == j)) [
    | inl here ↦
        let eq : i ≡ j = (==_iff i j).0 here in
        rw here
          (subst (λ k. Stage (temp k) path (saves k).text calls (perform call s.disk)) eq a.next)
    | inr other ↦
        let ne : i % 2 ^ 64 ≢ j % 2 ^ 64 = λ e. absurd (ground (arith, other, e)) in
        rw other (
          Stage-same (temp j) path (saves j).text (s.pending j) s.disk (perform call s.disk)
            (a.others (temp j) (unique_temp_path-ne path pid (i % 2 ^ 64) (j % 2 ^ 64) ne)
              (λ e. unique_temp_path-apart path pid (j % 2 ^ 64) (sym e)))
            h)
  ]

  perform-IsComplete :
      (i : ℕ) (s : System) (call : Call) (calls : List Call)
      → i < 2 ^ 64
      → s.pending i ≡ call ∷ calls
      → IsComplete path pid saves before s
      → IsComplete path pid saves before
          (record { pending = update s.pending i calls; disk = perform call s.disk })
  perform-IsComplete i s call calls below e h =
      let a : Advances (temp i) path (saves i).text call calls s.disk =
        Stage-Advances (temp i) path (saves i).text call calls s.disk
          (unique_temp_path-apart path pid (i % 2 ^ 64))
          (subst (λ xs. Stage (temp i) path (saves i).text xs s.disk) e (h.stage i below)) in
      record {
        stage = λ j small. performed-Stage i j s call calls below small (h.stage j small) a;
        snapshot = elim a.snapshot [
          | inr new ↦ inr (i, new)
          | inl same ↦ elim h.snapshot [
            | inl old ↦ inl (same ∙ old)
            | inr (j, new) ↦ inr (j, same ∙ new)
          ]
        ];
      }

  advance-IsComplete :
      (i : ℕ) (s : System)
      → i < 2 ^ 64
      → IsComplete path pid saves before s
      → IsComplete path pid saves before (advance i s)
  unfolding advance
  advance-IsComplete i s below h = go (s.pending i) refl
    where
      go :
          (left : List Call)
          → s.pending i ≡ left
          → IsComplete path pid saves before (elim left [
            | [] ↦ s
            | call ∷ calls ↦ record {
              pending = update s.pending i calls;
              disk = perform call s.disk;
            }
          ])
      go [] e = h
      go (call ∷ calls) e = perform-IsComplete i s call calls below e h

  interleave-IsComplete :
      (schedule : List ℕ) (s : System)
      → AllBelow schedule
      → IsComplete path pid saves before s
      → IsComplete path pid saves before (interleave schedule s)
  unfolding interleave
  interleave-IsComplete [] s below h = h
  interleave-IsComplete (i ∷ schedule) s below h =
      interleave-IsComplete schedule (advance i s) below.1 (advance-IsComplete i s below.0 h)

-- However many saves run at the same time, in whatever order their calls of the file system come,
-- however each of them goes and wherever all of it is cut off: the snapshot is the old one, or the
-- whole text of one of the saves, never a mixture and never a part. The saves are fewer than the
-- values of the counter that names their temporary files.
pub interleave_complete :
    (path : Bytes) (pid : ℕ) (saves : ℕ → Save) (schedule : List ℕ) (disk : Disk)
    → AllBelow schedule
    → ((interleave schedule (begin path pid saves disk)).disk path ≡ disk path)
      ⊎ ((i : ℕ) × ((interleave schedule (begin path pid saves disk)).disk path
            ≡ some (saves i).text))
interleave_complete path pid saves schedule disk below =
    (interleave-IsComplete path pid saves (disk path) schedule (begin path pid saves disk) below
      (begin-IsComplete path pid saves (disk path) disk refl)).snapshot
