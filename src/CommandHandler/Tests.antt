-- ===== src/CommandHandler/Tests.antt =====
-- The theorems about commands at small inputs.
use cache_x.Base.{
  ℕ, some, ltb, pos, if◌then◌else◌, ◌-◌, ◌*◌, ◌/◌, ◌≤◌, ◌≡◌, ◌+◌, refl, [], ◌∷◌, none, Bytes, codes,
  length, true, arith,
}
use cache_x.Cache.{unbounded}
use cache_x.Cache.Run.{unbounded-IsValid}
use cache_x.Recency.{entries}
use cache_x.Protocol.{parse_command, set_command, reply_ok, reply_value, reply_integer, reply_nil}
use cache_x.CommandHandler.{Moment, World, execute}
use cache_x.CommandHandler.Deadlines.{AllSound}
use cache_x.CommandHandler.Defined.{Done, execute-parse_command}
use cache_x.Sharded.Home.{IsSettled}
use cache_x.CommandHandler.Settled.{execute-IsSettled}
use cache_x.CommandHandler.Readback.{
  AllRoom, get_command, ttl_command, execute-get_set, execute-ttl_set,
}

abbrev moment : Moment
moment = record {
  now = 1000;
  clock = λ i. 1000 + i;
  wall_clock = 5;
  answers = record {
    temp_path = codes "t";
    opens = true;
    pieces = [];
    renames = true;
    reason = [];
  };
}

abbrev world : World
world = record { cache = record { shards = unbounded ∷ unbounded ∷ [] }; disk = λ _. none }

abbrev line : Bytes
line = codes "set a 1 60"

line-ok : (parse_command line).ok ≡ true
unfolding parse_command
line-ok = refl

world-AllSound : AllSound world.cache.shards
unfolding entries
world-AllSound = ((unbounded-IsValid, tt), ((unbounded-IsValid, tt), tt))

execute-parse_command_example :
    Done (execute (λ k. length k) moment none (parse_command line).command world) world
execute-parse_command_example =
    execute-parse_command (λ k. length k) moment none line world line-ok (λ _. refl) (omega arith)
      world-AllSound (omega arith)

world-AllRoom : AllRoom world.cache.shards
world-AllRoom = (λ e. absurd (ground (arith, e)), (λ e. absurd (ground (arith, e)), tt))

-- The same moment, half a second on.
abbrev half_second_on : Moment
half_second_on = record moment { now = 500001000 }

execute-get_set_example :
    (w' : World) × (w'' : World) × (execute
        (λ k. length k)
        moment
        none
        (set_command (codes "a") (codes "1") none)
        world
      ≡ some (w', reply_ok))
    × (execute (λ k. length k) half_second_on none (get_command (codes "a")) w'
        ≡ some (w'', reply_value (codes "1")))
execute-get_set_example =
    execute-get_set (λ k. length k) moment half_second_on none (codes "a") (codes "1") world
      (unbounded-IsValid, (unbounded-IsValid, tt)) world-AllRoom (omega arith)

execute-ttl_set_example :
    (w' : World) × (w'' : World) × (left : ℕ) × (execute
        (λ k. length k)
        moment
        none
        (set_command (codes "a") (codes "1") (some (pos 60)))
        world
      ≡ some (w', reply_ok))
    × (execute (λ k. length k) half_second_on none (ttl_command (codes "a")) w'
        ≡ some (
          w'',
          if ltb 500001000 (1000 + 60 * 1000000000) then reply_integer (pos left) else reply_nil,
        ))
    × (left ≡ ((1000 + 60 * 1000000000 - 500001000) / 1000000 + 999) / 1000)
    × (left ≤ 60)
execute-ttl_set_example =
    execute-ttl_set (λ k. length k) moment half_second_on none (codes "a") (codes "1") 59 world
      (omega arith) (omega arith) (omega arith) (unbounded-IsValid, (unbounded-IsValid, tt))
      world-AllRoom (omega arith)

ran : Done (execute (λ k. length k) moment none (parse_command line).command world) world
ran =
    execute-parse_command (λ k. length k) moment none line world line-ok (λ _. refl) (omega arith)
      world-AllSound (omega arith)

world-IsSettled : IsSettled (λ k. length k) (none ∷ none ∷ []) world.cache
unfolding entries
world-IsSettled = record {
  valid = (unbounded-IsValid, (unbounded-IsValid, tt));
  home = (tt, (tt, tt));
  shape = refl;
}

execute-IsSettled_example : IsSettled (λ k. length k) (none ∷ none ∷ []) ran.0.cache
execute-IsSettled_example =
    execute-IsSettled (λ k. length k) (none ∷ none ∷ []) moment none (parse_command line).command
      world ran.0 ran.1 world-IsSettled ran.2
