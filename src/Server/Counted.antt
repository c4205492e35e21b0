-- ===== src/Server/Counted.antt =====
-- What holds of the server in every state that it can reach.
use cache_x.Base.{
  ℕ, zero, suc, ◌+◌, ◌^◌, ◌≤◌, ◌<◌, ◌≡◌, refl, List, [], ◌∷◌, ◌++◌, some, true, leb, get_elem?,
  set as write, arith, Bool-cases, inl, inr,
}
use cache_x.Server.{
  Stage, serving, leaving, finished, Phase, polling, admitted, counted, returned, Server, create,
  fetch_add, fetch_sub, stop, without_finished, reap_finished_workers, Polled, interrupted, failed,
  timeout, vanished, client, poll_round, count_worker, start_worker, fail_worker, leave, finish,
  all_finished, join_all_workers, Step, stopped, polled, left_loop, counted_in, started,
  not_started, left, ended, joined, Steps, here, next,
}

abbrev one_if_serving : Stage → ℕ
one_if_serving serving = 1
one_if_serving _ = 0

-- The workers in `serve`.
unfoldable pub serving_count : List Stage → ℕ
serving_count [] = 0
serving_count (w ∷ ws) = one_if_serving w + serving_count ws

serving_count-nil : serving_count [] ≡ 0
unfolding serving_count
serving_count-nil = refl

serving_count-start : (ws : List Stage) → serving_count (ws ++ serving ∷ []) ≡ serving_count ws + 1
unfolding serving_count
serving_count-start [] = refl
serving_count-start (w ∷ ws) = omega (arith, serving_count-start ws)

serving_count-without_finished :
    (ws : List Stage) → serving_count (without_finished ws) ≡ serving_count ws
unfolding serving_count without_finished
serving_count-without_finished [] = refl
serving_count-without_finished (serving ∷ ws) = omega (arith, serving_count-without_finished ws)
serving_count-without_finished (leaving ∷ ws) = omega (arith, serving_count-without_finished ws)
serving_count-without_finished (finished ∷ ws) = omega (arith, serving_count-without_finished ws)

serving_count-leave :
    (ws : List Stage) (i : ℕ)
    → get_elem? ws i ≡ some serving
    → serving_count (write ws i leaving) + 1 ≡ serving_count ws
unfolding serving_count
serving_count-leave [] i h = absurd (ground (arith, h))
serving_count-leave (w ∷ ws) zero h =
    let same : w ≡ serving = ground (arith, h) in ground (arith, same)
serving_count-leave (w ∷ ws) (suc i) h = omega (arith, serving_count-leave ws i h)

serving_count-finish :
    (ws : List Stage) (i : ℕ)
    → get_elem? ws i ≡ some leaving
    → serving_count (write ws i finished) ≡ serving_count ws
unfolding serving_count
serving_count-finish [] i h = absurd (ground (arith, h))
serving_count-finish (w ∷ ws) zero h =
    let same : w ≡ leaving = ground (arith, h) in ground (arith, same)
serving_count-finish (w ∷ ws) (suc i) h = omega (arith, serving_count-finish ws i h)

serving_count-all_finished : (ws : List Stage) → all_finished ws ≡ true → serving_count ws ≡ 0
unfolding serving_count all_finished
serving_count-all_finished [] h = refl
serving_count-all_finished (serving ∷ ws) h = absurd (ground (arith, h))
serving_count-all_finished (leaving ∷ ws) h = absurd (ground (arith, h))
serving_count-all_finished (finished ∷ ws) h =
    omega (arith, serving_count-all_finished ws (ground (arith, h)))

abbrev pub starting : Phase → ℕ
starting counted = 1
starting _ = 0

-- The counter is the number of the connections that are served, and the one that is being started;
-- it keeps within the limit, and there is no worker when `run` has returned.
pub record IsCounted (s : Server) : Type 0 where
  pub exact : s.active_connections ≡ serving_count s.workers + starting s.phase
  pub limited : s.active_connections ≤ s.max_connections
  pub below : s.phase ≡ admitted → s.active_connections < s.max_connections
  pub none_after : s.phase ≡ returned → s.workers ≡ []

fetch_add_lem : (n : ℕ) → n + 1 < 2 ^ 64 → fetch_add n ≡ n + 1
unfolding fetch_add
fetch_add_lem n h = omega arith

fetch_sub_lem : (n : ℕ) → 1 ≤ n → n < 2 ^ 64 → fetch_sub n + 1 ≡ n
unfolding fetch_sub
fetch_sub_lem n low h = omega arith

reap-IsCounted :
    (s : Server) → IsCounted s → s.phase ≡ polling → IsCounted (reap_finished_workers s)
unfolding reap_finished_workers
reap-IsCounted s c at = record {
  exact = ground (arith, c.exact, serving_count-without_finished s.workers);
  limited = c.limited;
  below = c.below;
  none_after = λ e. absurd (ground (arith, e, at));
}

poll_round-max : (p : Polled) (s : Server) → (poll_round p s).max_connections ≡ s.max_connections
unfolding poll_round
poll_round-max interrupted s = refl
poll_round-max failed s = refl
poll_round-max timeout s = refl
poll_round-max vanished s = refl
poll_round-max client s = ground arith

poll_round-IsCounted :
    (p : Polled) (s : Server) → IsCounted s → s.phase ≡ polling → IsCounted (poll_round p s)
unfolding poll_round
poll_round-IsCounted interrupted s c at = c
poll_round-IsCounted failed s c at = record {
  exact = ground (arith, c.exact, at);
  limited = c.limited;
  below = λ e. absurd (ground (arith, e));
  none_after = λ e. absurd (ground (arith, e));
}
poll_round-IsCounted timeout s c at = reap-IsCounted s c at
poll_round-IsCounted vanished s c at = reap-IsCounted s c at
poll_round-IsCounted client s c at =
    let r = reap-IsCounted s c at in
    elim (Bool-cases (leb s.max_connections s.active_connections)) [
      | inl full ↦ rw full r
      | inr free ↦ rw free (record {
        exact = ground (arith, r.exact, at);
        limited = c.limited;
        below = λ _. ground (arith, free);
        none_after = λ e. absurd (ground (arith, e));
      })
    ]

-- One step keeps this, and the limit.
step-IsCounted :
    (s t : Server)
    → s.max_connections < 2 ^ 64
    → IsCounted s
    → Step s t
    → IsCounted t × (t.max_connections ≡ s.max_connections)
unfolding stop count_worker start_worker fail_worker leave finish join_all_workers
step-IsCounted s t m c stopped = (
  record { exact = c.exact; limited = c.limited; below = c.below; none_after = c.none_after },
  refl,
)
step-IsCounted s t m c (polled p at run) = (poll_round-IsCounted p s c at, poll_round-max p s)
step-IsCounted s t m c (left_loop at asked) = (
  record {
    exact = ground (arith, c.exact, at);
    limited = c.limited;
    below = λ e. absurd (ground (arith, e));
    none_after = λ e. absurd (ground (arith, e));
  },
  refl,
)
step-IsCounted s t m c (counted_in at) =
    let low = c.below at in
    let one = fetch_add_lem s.active_connections (omega arith) in
    (
      record {
        exact = ground (arith, c.exact, at, one);
        limited = omega (arith, low, one);
        below = λ e. absurd (ground (arith, e));
        none_after = λ e. absurd (ground (arith, e));
      },
      refl,
    )
step-IsCounted s t m c (started at) = (
  record {
    exact = ground (arith, c.exact, at, serving_count-start s.workers);
    limited = c.limited;
    below = λ e. absurd (ground (arith, e));
    none_after = λ e. absurd (ground (arith, e));
  },
  refl,
)
step-IsCounted s t m c (not_started at) =
    let some_one : 1 ≤ s.active_connections = ground (arith, c.exact, at) in
    let one = fetch_sub_lem s.active_connections some_one (omega (arith, c.limited)) in
    (
      record {
        exact = ground (arith, c.exact, at, one);
        limited = omega (arith, c.limited, one);
        below = λ e. absurd (ground (arith, e));
        none_after = λ e. absurd (ground (arith, e));
      },
      refl,
    )
step-IsCounted s t m c (left i at) =
    let fewer = serving_count-leave s.workers i at in
    let some_one : 1 ≤ s.active_connections = ground (arith, c.exact, fewer) in
    let one = fetch_sub_lem s.active_connections some_one (omega (arith, c.limited)) in
    (
      record {
        exact = ground (arith, c.exact, fewer, one);
        limited = omega (arith, c.limited, one);
        below = λ e. omega (arith, c.below e, one);
        none_after = λ e. absurd (ground (arith, c.none_after e, at));
      },
      refl,
    )
step-IsCounted s t m c (ended i at) = (
  record {
    exact = ground (arith, c.exact, serving_count-finish s.workers i at);
    limited = c.limited;
    below = c.below;
    none_after = λ e. absurd (ground (arith, c.none_after e, at));
  },
  refl,
)
step-IsCounted s t m c (joined at all) = (
  record {
    exact =
        ground (arith, c.exact, at, serving_count-all_finished s.workers all, serving_count-nil);
    limited = c.limited;
    below = λ e. absurd (ground (arith, e));
    none_after = λ _. refl;
  },
  refl,
)

create-IsCounted : (max : ℕ) → IsCounted (create max)
unfolding serving_count
create-IsCounted max = record {
  exact = refl;
  limited = omega arith;
  below = λ e. absurd (ground (arith, e));
  none_after = λ _. refl;
}

-- In every state that the threads can bring the server into, in any order of their steps, the
-- counter of the active connections is exact and within the limit, and a `run` that has returned
-- has left no worker behind.
pub Steps-IsCounted :
    (max : ℕ) (s : Server)
    → max < 2 ^ 64
    → Steps (create max) s
    → IsCounted s × (s.max_connections ≡ max)
Steps-IsCounted max s m here = (create-IsCounted max, refl)
Steps-IsCounted max s m (next {t} before step) =
    let (c, same) = Steps-IsCounted max t m before in
    let (c', same') = step-IsCounted t s (omega (arith, m, same)) c step in
    (c', omega (arith, same, same'))
