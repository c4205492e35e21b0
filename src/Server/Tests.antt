-- ===== src/Server/Tests.antt =====
-- The theorem about the server at a short run.
use cache_x.Base.{◌≡◌, refl, arith}
use cache_x.Server.{
  Server, create, count_worker, start_worker, leave, poll_round, client, polled, counted_in,
  started, left, Steps, here, next,
}
use cache_x.Server.Counted.{IsCounted, Steps-IsCounted}

-- A client is served, and leaves.
abbrev accepted : Server
accepted = poll_round client (create 1)

abbrev served : Server
served = leave 0 (start_worker (count_worker accepted))

served-Steps : Steps (create 1) served
unfolding poll_round count_worker start_worker
served-Steps =
    next (next (next (next here (polled client refl refl)) (counted_in refl)) (started refl))
      (left 0 refl)

Steps-IsCounted_example : IsCounted served × (served.max_connections ≡ 1)
Steps-IsCounted_example = Steps-IsCounted 1 served (omega arith) served-Steps
