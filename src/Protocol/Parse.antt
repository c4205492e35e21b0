-- ===== src/Protocol/Parse.antt =====
-- Every command can be sent: the parser reads it from a line with its name and its arguments.
use mathlib.Core.List.{append-nil}
use cache_x.Base.{
  ℕ, ◌^◌, ◌≤◌, ◌<◌, ◌≡◌, refl, ap, sym, ◌∙◌, List, [], ◌∷◌, Option, none, some, Bytes, arith, ℤ,
  pos, negsuc,
}
use cache_x.Decimal.{print_ℤ, print_ℕ, from_chars}
use cache_x.Decimal.Laws.{from_chars-print_ℤ}
use cache_x.Protocol.{
  CommandType, Command, succeed, parse_integer, set_seconds, set_ttl_token, parse_set, parse_tokens,
  parse_command, command_name, max_ttl_seconds, set, get, delete, exists, ttl, ping, save, load,
  quit,
}
use cache_x.Protocol.Tokens.{IsToken, HasTokens, tokenize-eq_iff}

-- A time to live that a client may ask for: none, or at most the maximum of seconds.
abbrev pub TtlAllowed : Option ℤ → Type 0
TtlAllowed none = Unit {0}
TtlAllowed (some (pos n)) = n ≤ max_ttl_seconds
TtlAllowed (some (negsuc n)) = ⊥

-- The fields of a command, by its type: what the command has, and nothing in the others.
abbrev pub KeyOnly : Command → Type 0
KeyOnly c = IsToken c.key × (c.value ≡ []) × (c.ttl ≡ none)

abbrev pub NoArguments : Command → Type 0
NoArguments c = (c.key ≡ []) × (c.value ≡ []) × (c.ttl ≡ none)

abbrev pub HasFields : CommandType → Command → Type 0
HasFields set c = IsToken c.key × IsToken c.value × TtlAllowed c.ttl
HasFields get c = KeyOnly c
HasFields delete c = KeyOnly c
HasFields exists c = KeyOnly c
HasFields ttl c = KeyOnly c
HasFields ping c = NoArguments c
HasFields save c = NoArguments c
HasFields load c = NoArguments c
HasFields quit c = NoArguments c

abbrev pub Sendable : Command → Type 0
Sendable c = HasFields c.type c

-- The tokens with which a client sends a command.
abbrev pub seconds_token : Option ℤ → List Bytes
seconds_token (some (pos n)) = print_ℕ n ∷ []
seconds_token _ = []

abbrev pub arguments : CommandType → Command → List Bytes
arguments set c = c.key ∷ c.value ∷ seconds_token c.ttl
arguments get c = c.key ∷ []
arguments delete c = c.key ∷ []
arguments exists c = c.key ∷ []
arguments ttl c = c.key ∷ []
arguments _ c = []

abbrev pub request : Command → List Bytes
request c = command_name c.type ∷ arguments c.type c

parse_integer-print_ℕ : (n : ℕ) → n < 2 ^ 63 → parse_integer (print_ℕ n) ≡ some (pos n)
unfolding parse_integer
parse_integer-print_ℕ n h =
    let e : from_chars (print_ℕ n) ≡ some (pos n, []) =
      ap from_chars (sym (append-nil (print_ℕ n)))
      ∙ (unfold print_ℤ in from_chars-print_ℤ (pos n) [] h tt) in
    ground (arith, e)

parse_set-request :
    (c : Command) (name : Bytes) (seconds : Option ℤ)
    → c.type ≡ set
    → c.ttl ≡ seconds
    → TtlAllowed seconds
    → parse_set (name ∷ c.key ∷ c.value ∷ seconds_token seconds) ≡ succeed c
unfolding parse_set set_ttl_token set_seconds
parse_set-request c name none t e h = ground arith
parse_set-request c name (some (pos n)) t e h =
    ground (arith, parse_integer-print_ℕ n (omega arith))
parse_set-request c name (some (negsuc n)) t e h = absurd h

parse_tokens-request :
    (t : CommandType) (c : Command)
    → c.type ≡ t
    → HasFields t c
    → parse_tokens (command_name t ∷ arguments t c) ≡ succeed c
unfolding parse_tokens command_name
parse_tokens-request get c e h = ground arith
parse_tokens-request set c e h = parse_set-request c (command_name set) c.ttl e refl h.2
parse_tokens-request _ c e h = ground arith

-- Every command with the fields of its type is parsed from a line that has its name and its
-- arguments as tokens, however these are spaced.
pub parse_command-request :
    (c : Command) (line : Bytes)
    → Sendable c
    → HasTokens (request c) line
    → parse_command line ≡ succeed c
unfolding parse_command
parse_command-request c line h tokens =
    ap parse_tokens ((tokenize-eq_iff line (request c)).1 tokens)
    ∙ parse_tokens-request c.type c refl h
