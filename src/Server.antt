-- ===== src/Server.antt =====
-- src/net/server.cpp and include/cachex/server.hpp: the accept loop and its workers. A step is what
-- one thread does between two moments at which another may come in; the threads share the atomic
-- counters and the flags, and only the accept loop uses the list of workers.
pub mod Counted
pub mod Start
mod Tests
use cache_x.Base.{
  ℕ, ◌+◌, ◌-◌, ◌%◌, ◌^◌, ◌≡◌, List, [], ◌∷◌, ◌++◌, Option, none, some, Bool, true, false, leb, ◌&&◌,
  if◌then◌else◌, get_elem?, set as write,
}

-- Where a worker's thread is: in `serve`, behind its `fetch_sub`, or behind the store of its flag.
pub data Stage : Type 0 where
  serving leaving finished : Stage

-- Where the accept loop is: at its head, past the check of the limit, past the `fetch_add`, behind
-- the loop, or at the end of `run`.
pub data Phase : Type 0 where
  polling admitted counted joining returned : Phase

pub record Server : Type 0 where
  pub max_connections : ℕ
  pub stop_requested : Bool
  pub connections_served : ℕ
  pub active_connections : ℕ
  pub workers : List Stage
  pub phase : Phase

abbrev pub create : ℕ → Server
create max_connections = record {
  max_connections = max_connections;
  stop_requested = false;
  connections_served = 0;
  active_connections = 0;
  workers = [];
  phase = polling;
}

abbrev pub is_finished : Stage → Bool
is_finished finished = true
is_finished _ = false

-- `fetch_add(1)` and `fetch_sub(1)` of a `std::size_t`
unfoldable pub fetch_add : ℕ → ℕ
fetch_add n = (n + 1) % 2 ^ 64

unfoldable pub fetch_sub : ℕ → ℕ
fetch_sub n = (n + (2 ^ 64 - 1)) % 2 ^ 64

unfoldable pub stop : Server → Server
stop s = record s { stop_requested = true }

-- The loop of `reap_finished_workers`.
unfoldable pub without_finished : List Stage → List Stage
without_finished [] = []
without_finished (w ∷ ws) =
    let rest = without_finished ws in if is_finished w then rest else w ∷ rest

unfoldable pub reap_finished_workers : Server → Server
unfolding without_finished
reap_finished_workers s = record s { workers = without_finished s.workers }

-- What `poll` and `accept` give.
pub data Polled : Type 0 where
  interrupted failed timeout vanished client : Polled

-- A round of the loop, up to `spawn_worker`. A client over the limit is told so and dropped.
unfoldable pub poll_round : Polled → Server → Server
unfolding reap_finished_workers
poll_round interrupted s = s
poll_round failed s = record s { phase = joining }
poll_round timeout s = reap_finished_workers s
poll_round vanished s = reap_finished_workers s
poll_round client s =
    let r = reap_finished_workers s in
    if leb r.max_connections r.active_connections then r else record r { phase = admitted }

-- `spawn_worker` counts the connection, and then starts a thread, or cannot.
unfoldable pub count_worker : Server → Server
unfolding fetch_add
count_worker s = record s {
  connections_served = fetch_add s.connections_served;
  active_connections = fetch_add s.active_connections;
  phase = counted;
}

unfoldable pub start_worker : Server → Server
start_worker s = record s { workers = s.workers ++ serving ∷ []; phase = polling }

unfoldable pub fail_worker : Server → Server
unfolding fetch_sub
fail_worker s = record s { active_connections = fetch_sub s.active_connections; phase = polling }

-- The end of a worker's thread.
unfoldable pub leave : ℕ → Server → Server
unfolding fetch_sub
leave i s = record s {
  active_connections = fetch_sub s.active_connections;
  workers = write s.workers i leaving;
}

unfoldable pub finish : ℕ → Server → Server
finish i s = record s { workers = write s.workers i finished }

unfoldable pub all_finished : List Stage → Bool
all_finished [] = true
all_finished (w ∷ ws) = is_finished w && all_finished ws

-- `join_all_workers` waits for every thread, and `run` returns.
unfoldable pub join_all_workers : Server → Server
join_all_workers s = record s { workers = []; phase = returned }

-- The steps of the threads: a client of `stop`, the accept loop, and the workers.
pub data Step (s : Server) : Server → Type 0 where
  stopped : Step s (stop s)
  polled : (p : Polled) → s.phase ≡ polling → s.stop_requested ≡ false → Step s (poll_round p s)
  left_loop : s.phase ≡ polling → s.stop_requested ≡ true → Step s (record s { phase = joining })
  counted_in : s.phase ≡ admitted → Step s (count_worker s)
  started : s.phase ≡ counted → Step s (start_worker s)
  not_started : s.phase ≡ counted → Step s (fail_worker s)
  left : (i : ℕ) → get_elem? s.workers i ≡ some serving → Step s (leave i s)
  ended : (i : ℕ) → get_elem? s.workers i ≡ some leaving → Step s (finish i s)
  joined : s.phase ≡ joining → all_finished s.workers ≡ true → Step s (join_all_workers s)

pub data Steps (s : Server) : Server → Type 0 where
  here : Steps s s
  next : {t u : Server} → Steps s t → Step t u → Steps s u
