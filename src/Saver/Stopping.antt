-- ===== src/Saver/Stopping.antt =====
-- How the saver stops, and what it counts.
use cache_x.Base.{
  ℕ, ◌+◌, ◌%◌, ◌^◌, ◌≡◌, refl, ◌∙◌, List, [], ◌∷◌, Bool, true, false, if◌then◌else◌, length, arith,
}
use cache_x.Saver.{
  Phase, waiting, saving, ended, PeriodicSaver, create, request_stop, wake, finish_save, join, Step,
  asked, woken, saved, joining, Steps, here, next,
}

abbrev pub in_save : Phase → ℕ
in_save saving = 1
in_save _ = 0

-- The saves that are done, and one that has begun.
abbrev pub begun : PeriodicSaver → ℕ
begun s = length s.results + in_save s.phase

step-stopping : (s t : PeriodicSaver) → s.stopping ≡ true → Step s t → t.stopping ≡ true
unfolding request_stop wake finish_save join
step-stopping s t h asked = refl
step-stopping s t h (woken at) = ground arith
step-stopping s t h (saved ok at) = ground arith
step-stopping s t h (joining stop at) = h

step-begun : (s t : PeriodicSaver) → s.stopping ≡ true → Step s t → begun t ≡ begun s
unfolding request_stop wake finish_save join
step-begun s t h asked = refl
step-begun s t h (woken at) = ground (arith, h, at)
step-begun s t h (saved ok at) = ground (arith, h, at)
step-begun s t h (joining stop at) = refl

Steps-stopping :
    (s t : PeriodicSaver)
    → s.stopping ≡ true
    → Steps s t
    → (t.stopping ≡ true) × (begun t ≡ begun s)
Steps-stopping s t h here = (h, refl)
Steps-stopping s t h (next {t = u} before step) =
    let (still, same) = Steps-stopping s u h before in
    (step-stopping u t still step, omega (arith, same, step-begun u t still step))

then-Steps : {s t u : PeriodicSaver} → Steps s t → Steps t u → Steps s u
then-Steps a here = a
then-Steps a (next b step) = next (then-Steps a b) step

wake-ended : (s : PeriodicSaver) → s.stopping ≡ true → (wake s).phase ≡ ended
unfolding wake
wake-ended s h = ground (arith, h)

finish_save-waiting :
    (s : PeriodicSaver)
    → ((finish_save true s).phase ≡ waiting) × ((finish_save true s).stopping ≡ s.stopping)
unfolding finish_save
finish_save-waiting s = (refl, refl)

can_end :
    (s : PeriodicSaver) (p : Phase)
    → s.phase ≡ p
    → s.stopping ≡ true
    → (t : PeriodicSaver) × Steps s t × (t.phase ≡ ended)
can_end s ended at h = (s, here, at)
can_end s waiting at h = (wake s, next here (woken at), wake-ended s h)
can_end s saving at h =
    let t = finish_save true s in
    let (free, same) = finish_save-waiting s in
    (wake t, next (next here (saved true at)) (woken free), wake-ended t (ground (arith, same, h)))

-- Once a stop is asked for, no save begins: whatever the threads do from then on, the saves are
-- those that had begun; and the thread can end from every state.
pub Steps-begun :
    (s t : PeriodicSaver)
    → s.stopping ≡ true
    → Steps s t
    → (begun t ≡ begun s) × ((u : PeriodicSaver) × Steps t u × (u.phase ≡ ended))
Steps-begun s t h steps =
    let (still, same) = Steps-stopping s t h steps in (same, can_end t t.phase refl still)

-- The saves that have succeeded, and those that have failed.
unfoldable pub count : Bool → List Bool → ℕ
count b [] = 0
count true (r ∷ rs) = (if r then 1 else 0) + count true rs
count false (r ∷ rs) = (if r then 0 else 1) + count false rs

pub record IsTallied (s : PeriodicSaver) : Type 0 where
  pub right_saves : s.saves ≡ count true s.results % 2 ^ 64
  pub right_failures : s.failures ≡ count false s.results % 2 ^ 64
  pub joined_ended : s.joined ≡ true → s.phase ≡ ended

wake_joined : (s : PeriodicSaver) → s.joined ≡ (wake s).joined
unfolding wake
wake_joined s = ground arith

step-IsTallied : (s t : PeriodicSaver) → IsTallied s → Step s t → IsTallied t
unfolding request_stop wake finish_save join count
step-IsTallied s t c asked = record {
  right_saves = c.right_saves;
  right_failures = c.right_failures;
  joined_ended = c.joined_ended;
}
step-IsTallied s t c (woken at) = record {
  right_saves = ground (arith, c.right_saves);
  right_failures = ground (arith, c.right_failures);
  joined_ended = λ e. absurd (ground (arith, c.joined_ended (wake_joined s ∙ e), at));
}
step-IsTallied s t c (saved true at) = record {
  right_saves = omega (arith, c.right_saves);
  right_failures = omega (arith, c.right_failures);
  joined_ended = λ e. absurd (ground (arith, c.joined_ended e, at));
}
step-IsTallied s t c (saved false at) = record {
  right_saves = omega (arith, c.right_saves);
  right_failures = omega (arith, c.right_failures);
  joined_ended = λ e. absurd (ground (arith, c.joined_ended e, at));
}
step-IsTallied s t c (joining stop at) = record {
  right_saves = c.right_saves;
  right_failures = c.right_failures;
  joined_ended = λ _. at;
}

-- The counters are the numbers of the saves that have succeeded and that have failed, and a `stop`
-- that has joined the thread has waited for its end.
pub Steps-IsTallied : (s : PeriodicSaver) → Steps create s → IsTallied s
unfolding count
Steps-IsTallied s here = record {
  right_saves = refl;
  right_failures = refl;
  joined_ended = λ e. absurd (ground (arith, e));
}
Steps-IsTallied s (next {t} before step) = step-IsTallied t s (Steps-IsTallied t before) step
