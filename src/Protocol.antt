-- ===== src/Protocol.antt =====
-- src/net/protocol.cpp and include/cachex/protocol.hpp: the request parser and the replies.
-- A line is a list of bytes. A parsed command has the fields of the `Command` struct.
pub mod Tokens
pub mod Parse
pub mod Verbs
pub mod Accept
pub mod Format
pub mod Plain
mod Tests
use cache_x.Base.{
  ℕ, zero, suc, ◌+◌, ◌-◌, ◌*◌, ◌^◌, List, [], ◌∷◌, ◌++◌, map, Option, none, some, Bytes, bytes_eq,
  codes, Bool, true, false, ◌&&◌, ◌||◌, leb, ltb, ◌==◌, if◌then◌else◌, length, take, ℤ, pos, negsuc,
}
use cache_x.Decimal.{print_ℕ, print_ℤ, from_chars}

abbrev pub max_line_bytes : ℕ
max_line_bytes = 64 * 1024

abbrev pub max_ttl_seconds : ℕ
max_ttl_seconds = 315360000

pub data CommandType : Type 0 where
  set get delete exists ttl ping save load quit : CommandType

-- `ttl` is in seconds.
pub record Command : Type 0 where
  pub type : CommandType
  pub key : Bytes
  pub value : Bytes
  pub ttl : Option ℤ

-- The members of a `Command` before the parser fills them in.
abbrev pub no_command : Command
no_command = record { type = ping; key = []; value = []; ttl = none }

pub record ParseResult : Type 0 where
  pub ok : Bool
  pub command : Command
  pub error : Bytes

unfoldable pub is_separator : ℕ → Bool
is_separator c = c == b' ' || c == 9

-- The two inner loops of `tokenize`.
unfoldable pub skip_separators : Bytes → Bytes
unfolding is_separator
skip_separators [] = []
skip_separators (c ∷ cs) = if is_separator c then skip_separators cs else c ∷ cs

unfoldable pub split_token : Bytes → Bytes × Bytes
unfolding is_separator
split_token [] = ([], [])
split_token (c ∷ cs) =
    let (token, rest) = split_token cs in if is_separator c then ([], c ∷ cs) else (c ∷ token, rest)

-- The outer loop. Each round takes at least one byte, so the length of the line is fuel enough.
unfoldable pub tokenize_within : ℕ → Bytes → List Bytes
unfolding skip_separators split_token
tokenize_within zero line = []
tokenize_within (suc fuel) line = elim (skip_separators line) [
  | [] ↦ []
  | c ∷ cs ↦ (split_token (c ∷ cs)).0 ∷ tokenize_within fuel (split_token (c ∷ cs)).1
]

unfoldable pub tokenize : Bytes → List Bytes
unfolding tokenize_within
tokenize line = tokenize_within (length line) line

unfoldable pub upper : ℕ → ℕ
upper c = if leb b'a' c && leb c b'z' then c - b'a' + b'A' else c

unfoldable pub to_upper : Bytes → Bytes
unfolding upper
to_upper text = map upper text

unfoldable pub fail : Bytes → ParseResult
fail message = record { ok = false; command = no_command; error = message }

unfoldable pub succeed : Command → ParseResult
succeed command = record { ok = true; command = command; error = [] }

abbrev pub apostrophe : ℕ
apostrophe = 39

-- At most 32 bytes of a token are echoed.
unfoldable pub quoted : Bytes → Bytes
quoted text =
    apostrophe ∷ take 32 text
    ++ (if ltb 32 (length text) then codes "..." else [])
    ++ apostrophe ∷ []

unfoldable pub parse_integer : Bytes → Option ℤ
unfolding from_chars
parse_integer text = elim (from_chars text) [
  | none ↦ none
  | some (n, []) ↦ some n
  | some (n, _ ∷ _) ↦ none
]

unfoldable pub wrong_arguments : Bytes → Bytes → Bytes
wrong_arguments name usage =
    codes "wrong number of arguments for '" ++ name ++ codes "' (expected '" ++ usage ++ codes "')"

unfoldable pub parse_key_only : CommandType → Bytes → List Bytes → ParseResult
unfolding fail succeed wrong_arguments
parse_key_only type name (_ ∷ key ∷ []) = succeed (record no_command { type = type; key = key })
parse_key_only type name _ = fail (wrong_arguments name (name ++ codes " key"))

unfoldable pub parse_no_args : CommandType → Bytes → List Bytes → ParseResult
unfolding fail succeed wrong_arguments
parse_no_args type name (_ ∷ []) = succeed (record no_command { type = type })
parse_no_args type name _ = fail (wrong_arguments name name)

abbrev pub set_command : Bytes → Bytes → Option ℤ → Command
set_command key value seconds = record { type = set; key = key; value = value; ttl = seconds }

unfoldable pub set_seconds : Bytes → Bytes → ℤ → ParseResult
unfolding fail succeed print_ℕ
set_seconds key value (negsuc n) = fail (codes "TTL must not be negative")
set_seconds key value (pos n) =
    if ltb max_ttl_seconds n
    then fail (codes "TTL too large (maximum " ++ print_ℕ max_ttl_seconds ++ codes " seconds)")
    else succeed (set_command key value (some (pos n)))

unfoldable pub set_ttl_token : Bytes → Bytes → Bytes → ParseResult
unfolding fail quoted parse_integer set_seconds
set_ttl_token key value text = elim (parse_integer text) [
  | none ↦
      fail (codes "invalid TTL " ++ quoted text ++ codes " (expected a whole number of seconds)")
  | some seconds ↦ set_seconds key value seconds
]

unfoldable pub parse_set : List Bytes → ParseResult
unfolding succeed fail wrong_arguments set_ttl_token
parse_set (_ ∷ key ∷ value ∷ []) = succeed (set_command key value none)
parse_set (_ ∷ key ∷ value ∷ text ∷ []) = set_ttl_token key value text
parse_set _ = fail (wrong_arguments (codes "SET") (codes "SET key value [ttl_seconds]"))

unfoldable pub parse_verb : Bytes → Bytes → List Bytes → ParseResult
unfolding parse_set parse_key_only parse_no_args fail quoted bytes_eq
parse_verb verb first tokens =
    if bytes_eq verb (codes "SET")
    then parse_set tokens
    else if bytes_eq verb (codes "GET")
    then parse_key_only get (codes "GET") tokens
    else if bytes_eq verb (codes "DELETE") || bytes_eq verb (codes "DEL")
    then parse_key_only delete (codes "DELETE") tokens
    else if bytes_eq verb (codes "EXISTS")
    then parse_key_only exists (codes "EXISTS") tokens
    else if bytes_eq verb (codes "TTL")
    then parse_key_only ttl (codes "TTL") tokens
    else if bytes_eq verb (codes "PING")
    then parse_no_args ping (codes "PING") tokens
    else if bytes_eq verb (codes "SAVE")
    then parse_no_args save (codes "SAVE") tokens
    else if bytes_eq verb (codes "LOAD")
    then parse_no_args load (codes "LOAD") tokens
    else if bytes_eq verb (codes "QUIT")
    then parse_no_args quit (codes "QUIT") tokens
    else fail (codes "unknown command " ++ quoted first)

unfoldable pub parse_tokens : List Bytes → ParseResult
unfolding to_upper parse_verb
parse_tokens [] = fail (codes "empty command")
parse_tokens (first ∷ rest) = parse_verb (to_upper first) first (first ∷ rest)

unfoldable pub parse_command : Bytes → ParseResult
unfolding tokenize parse_tokens
parse_command line = parse_tokens (tokenize line)

unfoldable pub command_name : CommandType → Bytes
command_name set = codes "SET"
command_name get = codes "GET"
command_name delete = codes "DELETE"
command_name exists = codes "EXISTS"
command_name ttl = codes "TTL"
command_name ping = codes "PING"
command_name save = codes "SAVE"
command_name load = codes "LOAD"
command_name quit = codes "QUIT"

abbrev pub newline : ℕ
newline = 10

unfoldable pub reply_ok : Bytes
reply_ok = codes "+OK" ++ newline ∷ []

unfoldable pub reply_pong : Bytes
reply_pong = codes "+PONG" ++ newline ∷ []

unfoldable pub reply_bye : Bytes
reply_bye = codes "+BYE" ++ newline ∷ []

unfoldable pub reply_no_expiry : Bytes
reply_no_expiry = codes "+NOEXPIRE" ++ newline ∷ []

unfoldable pub reply_value : Bytes → Bytes
reply_value value = codes "=" ++ value ++ newline ∷ []

unfoldable pub reply_nil : Bytes
reply_nil = codes "_" ++ newline ∷ []

unfoldable pub reply_integer : ℤ → Bytes
unfolding print_ℤ
reply_integer value = codes ":" ++ print_ℤ value ++ newline ∷ []

unfoldable pub reply_error : Bytes → Bytes
reply_error message = codes "-ERR " ++ message ++ newline ∷ []
