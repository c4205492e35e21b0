-- ===== src/Saver.antt =====
-- `PeriodicSaver` of src/persistence.cpp and include/cachex/persistence.hpp: the thread that saves
-- at intervals, and those who stop it. A step is what one thread does under the mutex, or a save.
pub mod Stopping
mod Tests
use cache_x.Base.{ℕ, ◌+◌, ◌%◌, ◌^◌, ◌≡◌, List, [], ◌∷◌, Bool, true, false, if◌then◌else◌}

-- Where the thread is: in `wait_for`, in `save`, or at the end of `run`.
pub data Phase : Type 0 where
  waiting saving ended : Phase

-- `results` has what the saves so far have answered, the last one first.
pub record PeriodicSaver : Type 0 where
  pub stopping : Bool
  pub saves : ℕ
  pub failures : ℕ
  pub joined : Bool
  pub phase : Phase
  pub results : List Bool

abbrev pub create : PeriodicSaver
create = record {
  stopping = false;
  saves = 0;
  failures = 0;
  joined = false;
  phase = waiting;
  results = [];
}

-- The first part of `stop`, under the mutex.
unfoldable pub request_stop : PeriodicSaver → PeriodicSaver
request_stop s = record s { stopping = true }

-- `wait_for` is over: the interval has passed, or `stop` has notified the thread.
unfoldable pub wake : PeriodicSaver → PeriodicSaver
wake s = if s.stopping then record s { phase = ended } else record s { phase = saving }

unfoldable pub finish_save : Bool → PeriodicSaver → PeriodicSaver
finish_save ok s =
    if ok
    then record s { saves = (s.saves + 1) % 2 ^ 64; phase = waiting; results = true ∷ s.results }
    else record s {
      failures = (s.failures + 1) % 2 ^ 64;
      phase = waiting;
      results = false ∷ s.results;
    }

-- The last part of `stop`.
unfoldable pub join : PeriodicSaver → PeriodicSaver
join s = record s { joined = true }

pub data Step (s : PeriodicSaver) : PeriodicSaver → Type 0 where
  asked : Step s (request_stop s)
  woken : s.phase ≡ waiting → Step s (wake s)
  saved : (ok : Bool) → s.phase ≡ saving → Step s (finish_save ok s)
  joining : s.stopping ≡ true → s.phase ≡ ended → Step s (join s)

pub data Steps (s : PeriodicSaver) : PeriodicSaver → Type 0 where
  here : Steps s s
  next : {t u : PeriodicSaver} → Steps s t → Step t u → Steps s u
