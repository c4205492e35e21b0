-- ===== src/Connection/Tests.antt =====
-- The theorems about a connection at a small input.
use cache_x.Base.{◌≡◌, ◌≤◌, ◌+◌, refl, List, [], ◌∷◌, ◌++◌, some, none, codes, true, length, arith}
use cache_x.Cache.{unbounded}
use cache_x.LineBuffer.{empty_buffer, append, next_line}
use cache_x.Protocol.{max_line_bytes, parse_command, reply_error, reply_pong}
use cache_x.CommandHandler.{Moment, execute}
use cache_x.Connection.{
  Received, bytes, interrupted, Session, Surroundings, serve, read_chunk_bytes,
}
use cache_x.Recency.{entries}
use cache_x.Cache.Run.{unbounded-IsValid}
use cache_x.Connection.Defined.{IsSoundWorld, Served, serve-Served}
use cache_x.LineBuffer.Next.{lines, rest_of}
use cache_x.LineBuffer.Short.{all_short}
use cache_x.Connection.Answers.{with_buffer, Follows, answer_lines}
use cache_x.Connection.Stream.{arrived, serve-Follows}
use cache_x.Connection.Limit.{kept, serve-bounded}
use cache_x.Connection.Framed.{IsFramed, serve-IsFramed}
use cache_x.Connection.Replies.{OnePerLine, serve-OnePerLine}

abbrev moment : Moment
moment = record {
  now = 1000;
  clock = λ i. 1000 + i;
  wall_clock = 5;
  answers = record {
    temp_path = codes "t";
    opens = true;
    pieces = [];
    renames = true;
    reason = [];
  };
}

abbrev around : Surroundings
around = record { moment = λ _. moment; sends = λ _. true; sends_last = true }

abbrev opened : Session
opened = record {
  connection = record { buffer = empty_buffer; commands_handled = 0; sent = [] };
  world = record { cache = record { shards = unbounded ∷ [] }; disk = λ _. none };
  lines = 0;
}

-- Two commands, cut in the middle of the second.
abbrev chunks : List Received
chunks = bytes (codes "PING" ++ 10 ∷ codes "no") ∷ bytes (codes "pe" ++ 10 ∷ codes "GE") ∷ []

abbrev served : Session
served = record {
  connection = record {
    buffer = record { buffer = codes "GE" };
    commands_handled = 1;
    sent = reply_pong ∷ reply_error (codes "unknown command 'nope'") ∷ [];
  };
  world = opened.world;
  lines = 2;
}

serve-chunks : serve (λ k. length k) none around chunks opened ≡ some (served, true)
unfolding serve parse_command execute append next_line
serve-chunks = refl

serve-bounded_example :
    (kept served ≤ max_line_bytes + read_chunk_bytes) × (true ≡ true → kept served ≤ max_line_bytes)
serve-bounded_example =
    serve-bounded (λ k. length k) none around chunks opened served true
      (omega arith, (omega arith, tt)) (omega arith) serve-chunks

serve-OnePerLine_example : OnePerLine opened served true
serve-OnePerLine_example =
    serve-OnePerLine (λ k. length k) none around chunks opened served true (λ i. refl, refl)
      serve-chunks

opened-IsSoundWorld : IsSoundWorld opened.world
unfolding entries
opened-IsSoundWorld = (((unbounded-IsValid, tt), tt), omega arith)

serve-Served_example : Served (serve (λ k. length k) none around chunks opened)
serve-Served_example =
    serve-Served (λ k. length k) around chunks opened (λ i. omega arith) opened-IsSoundWorld

-- The same commands, with an interruption and a line that is never completed.
abbrev in_pieces : List Received
in_pieces = bytes (codes "PI") ∷ interrupted ∷ bytes (codes "NG" ++ 10 ∷ codes "GET") ∷ []

in_pieces-short : all_short max_line_bytes 0 ([] ++ arrived in_pieces) ≡ true
unfolding all_short
in_pieces-short = refl

serve-Follows_example :
    Follows
      (rest_of ([] ++ arrived in_pieces))
      (serve (λ k. length k) none around in_pieces (with_buffer [] opened))
      (answer_lines (λ k. length k) none around (lines ([] ++ arrived in_pieces)) opened)
serve-Follows_example =
    serve-Follows (λ k. length k) none around in_pieces [] opened tt in_pieces-short

opened-IsFramed : IsFramed opened
unfolding entries
opened-IsFramed = (tt, ((unbounded-IsValid, tt), (tt, tt)))

serve-IsFramed_example : IsFramed served
serve-IsFramed_example =
    serve-IsFramed (λ k. length k) around chunks opened served true opened-IsFramed serve-chunks
