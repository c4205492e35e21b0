-- ===== src/ClientMain/Tests.antt =====
-- The theorem about the client at a small input.
use cache_x.Base.{
  ◌+◌, ◌≡◌, refl, List, [], ◌∷◌, ◌++◌, none, some, Bytes, bytes_eq, codes, true, false, length,
}
use cache_x.Cache
use cache_x.Cache.{unbounded}
use cache_x.Sharded
use cache_x.Index
use cache_x.Recency
use cache_x.CommandHandler.{Moment, execute}
use cache_x.Recency.{entries}
use cache_x.Cache.Run.{unbounded-IsValid}
use cache_x.CommandHandler.Framed.{IsPlainWorld}
use cache_x.Connection.Answers.{with_buffer}
use cache_x.Connection.Stream.{arrived}
use cache_x.LineBuffer.Lines.{AllLines}
use cache_x.LineBuffer.Short.{all_short}
use cache_x.Protocol.{max_line_bytes, parse_command, reply_ok, reply_value, reply_bye}
use cache_x.Protocol.Format.{NoNewline-checked}
use cache_x.ClientMain.Conversation.{conversation}
use cache_x.ClientMain.Conversation.Together.{talk-conversation}
use cache_x.Connection.{Received, bytes, Session, Surroundings, serve}
use cache_x.LineBuffer.{empty_buffer, append, next_line}
use cache_x.LineBuffer.Next.{lines}
use cache_x.Socket.{Sent, wrote, send_all}
use cache_x.ClientMain.{Reading, talk, read_reply}
use cache_x.ClientMain.Talk.{AllTaken, typed, unread, dialogue, talk-dialogue}

-- A request, a blank line and the end; the first goes out in two parts.
abbrev requests : List (Bytes × List Sent)
requests =
    (codes "PING", wrote 2 ∷ wrote 3 ∷ []) ∷ ([], wrote 1 ∷ []) ∷ (codes "QUIT", wrote 5 ∷ []) ∷ []

-- Two replies, the first in pieces.
abbrev arriving : Reading
arriving = record {
  buffer = empty_buffer;
  chunks = codes "+PO" ∷ (codes "NG" ++ 10 ∷ codes "+BYE") ∷ (10 ∷ []) ∷ [];
}

requests-AllTaken : AllTaken requests
unfolding send_all
requests-AllTaken = (refl, (refl, (refl, tt)))

talk-dialogue_example : talk requests arriving ≡ dialogue (typed requests) (lines (unread arriving))
talk-dialogue_example = talk-dialogue requests arriving requests-AllTaken

-- Three requests and a blank line; the carriage return of the second is the user's.
abbrev typed_lines : List (Bytes × List Sent)
typed_lines =
    (codes "SET a 1", wrote 8 ∷ [])
    ∷ (codes "GET a" ++ 13 ∷ [], wrote 3 ∷ wrote 4 ∷ [])
    ∷ ([], wrote 1 ∷ [])
    ∷ (codes "QUIT", wrote 5 ∷ [])
    ∷ []

-- What arrives at the server, and at the client, in pieces.
abbrev upward : List Received
upward =
    bytes (codes "SET a 1" ++ 10 ∷ codes "GE")
    ∷ bytes (codes "T a" ++ 13 ∷ 10 ∷ [])
    ∷ bytes (codes "QUIT" ++ 10 ∷ [])
    ∷ []

abbrev downward : Reading
downward = record {
  buffer = empty_buffer;
  chunks = (codes "+OK" ++ 10 ∷ []) ∷ codes "=" ∷ (codes "1" ++ 10 ∷ codes "+BYE" ++ 10 ∷ []) ∷ [];
}

abbrev moment : Moment
moment = record {
  now = 1000;
  clock = λ i. 1000 + i;
  wall_clock = 5;
  answers = record {
    temp_path = codes "t";
    opens = true;
    pieces = [];
    renames = true;
    reason = [];
  };
}

abbrev around : Surroundings
around = record { moment = λ _. moment; sends = λ _. true; sends_last = true }

abbrev opened : Session
opened = record {
  connection = record { buffer = empty_buffer; commands_handled = 0; sent = [] };
  world = record { cache = record { shards = unbounded ∷ [] }; disk = λ _. none };
  lines = 0;
}

-- The session behind the three requests.
abbrev answered : Session
answered = record {
  connection = record {
    buffer = empty_buffer;
    commands_handled = 3;
    sent = (codes "+OK" ++ 10 ∷ []) ∷ (codes "=1" ++ 10 ∷ []) ∷ (codes "+BYE" ++ 10 ∷ []) ∷ [];
  };
  world = record {
    cache = record {
      shards =
          (record {
            list = record {
              nodes =
                  (record {
                    address = 0;
                    entry = record { key = codes "a"; value = codes "1"; expires_at = none };
                  })
                  ∷ [];
              fresh = 1;
            };
            index = (codes "a", 0) ∷ [];
            capacity = none;
            evictions = 0;
            expired_removals = 0;
          })
          ∷ [];
    };
    disk = λ _. none;
  };
  lines = 3;
}

serve-upward : serve length none around upward (with_buffer [] opened) ≡ some (answered, false)
unfolding serve append next_line parse_command execute Sharded.set Sharded.get Cache.set Cache.get
    Cache.trim Sharded.shard_index_for Cache.store Index.find Index.emplace Recency.deref
    Recency.insert_newest Recency.mark_used reply_ok reply_value reply_bye
serve-upward = refl

opened-IsPlainWorld : IsPlainWorld opened.world
unfolding entries
opened-IsPlainWorld = ((unbounded-IsValid, tt), (tt, tt))

typed_lines-AllTaken : AllTaken typed_lines
unfolding send_all
typed_lines-AllTaken = (refl, (refl, (refl, (refl, tt))))

typed_lines-AllLines : AllLines (typed typed_lines)
typed_lines-AllLines = (
  NoNewline-checked (codes "SET a 1") refl,
  (
    NoNewline-checked (codes "GET a" ++ 13 ∷ []) refl,
    (tt, (NoNewline-checked (codes "QUIT") refl, tt)),
  ),
)

upward-short : all_short max_line_bytes 0 (arrived upward) ≡ true
unfolding all_short
upward-short = refl

upward-arrives : arrived upward ≡ (talk typed_lines downward).wire
unfolding talk send_all read_reply next_line append bytes_eq
upward-arrives = refl

talk-conversation_example :
    conversation length around (typed typed_lines) opened ≡ some (talk typed_lines downward)
talk-conversation_example =
    talk-conversation length around typed_lines downward upward opened answered false
      typed_lines-AllTaken typed_lines-AllLines tt (λ i. refl) refl opened-IsPlainWorld serve-upward
      upward-short upward-arrives refl
