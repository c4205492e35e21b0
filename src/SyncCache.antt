-- ===== src/SyncCache.antt =====
-- include/cachex/sync_cache.hpp: threads that call one cache behind a mutex. A step is what one
-- thread does between two moments at which another may come in. A method works on what it has read
-- of the cache, and what it writes stands for all of its stores: two threads at it at once would
-- lose what one of them does.
pub mod History
pub mod Linear
mod Tests
use cache_x.Base.{
  ℕ, List, [], ◌∷◌, ◌++◌, Option, none, some, ◌≡◌, Bool, true, false, ◌==◌, if◌then◌else◌,
}
use cache_x.Cache.{Cache}
use cache_x.Cache.Op
use cache_x.Cache.Op.{Op, Reply}

-- Where a thread is: outside of every method, behind the `lock_guard`, in the body with what it has
-- read, or at the end of the method.
pub data Phase : Type 0 where
  outside locked : Phase
  working : Cache → Phase
  leaving : Phase

-- A thread with the calls that it has yet to make, and the replies to those that it has made.
pub record Thread : Type 0 where
  pub phase : Phase
  pub calls : List Op
  pub replies : List Reply

-- A body that has ended: whose, when, and what it was.
pub record Event : Type 0 where
  pub thread : ℕ
  pub now : ℕ
  pub op : Op
  pub reply : Reply

-- `owner` is the thread that holds the mutex. `history` has the bodies in the order of their ends.
pub record SyncCache : Type 0 where
  pub owner : Option ℕ
  pub cache : Cache
  pub threads : ℕ → Thread
  pub history : List Event

abbrev pub update : (ℕ → Thread) → ℕ → Thread → ℕ → Thread
update f i t j = if i == j then t else f j

abbrev pub with_phase : Phase → ℕ → SyncCache → ℕ → Thread
with_phase p i s = update s.threads i (record (s.threads i) { phase = p })

-- The `lock_guard` has the mutex.
unfoldable pub lock : ℕ → SyncCache → SyncCache
lock i s = record s { owner = some i; threads = with_phase locked i s }

unfoldable pub enter : ℕ → SyncCache → SyncCache
enter i s = record s { threads = with_phase (working s.cache) i s }

unfoldable pub finish : ℕ → ℕ → Op → List Op → Cache → Reply → SyncCache → SyncCache
finish i now op rest c r s = record s {
  cache = c;
  threads =
      update s.threads i
        (record { phase = leaving; calls = rest; replies = (s.threads i).replies ++ r ∷ [] });
  history = s.history ++ record { thread = i; now = now; op = op; reply = r } ∷ [];
}

-- The destructor of the `lock_guard`.
unfoldable pub unlock : ℕ → SyncCache → SyncCache
unlock i s = record s { owner = none; threads = with_phase outside i s }

pub data Step (s : SyncCache) : SyncCache → Type 0 where
  locks :
      (i : ℕ) (op : Op) (rest : List Op)
      → (s.threads i).phase ≡ outside
      → (s.threads i).calls ≡ op ∷ rest
      → s.owner ≡ none
      → Step s (lock i s)
  enters : (i : ℕ) → (s.threads i).phase ≡ locked → Step s (enter i s)
  finishes :
      (i now : ℕ) (op : Op) (rest : List Op) (c c' : Cache) (r : Reply)
      → (s.threads i).phase ≡ working c
      → (s.threads i).calls ≡ op ∷ rest
      → Op.step now op c ≡ some (c', r)
      → Step s (finish i now op rest c' r s)
  unlocks : (i : ℕ) → (s.threads i).phase ≡ leaving → Step s (unlock i s)

pub data Steps (s : SyncCache) : SyncCache → Type 0 where
  here : Steps s s
  next : {t u : SyncCache} → Steps s t → Step t u → Steps s u

-- Threads with their programs, before any of them has begun.
abbrev pub begin : Cache → (ℕ → List Op) → SyncCache
begin c programs = record {
  owner = none;
  cache = c;
  threads = λ i. record { phase = outside; calls = programs i; replies = [] };
  history = [];
}
