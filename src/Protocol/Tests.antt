-- ===== src/Protocol/Tests.antt =====
-- The theorems about the protocol at small inputs.
use cache_x.Base.{◌≡◌, ◌↔◌, refl, [], ◌∷◌, some, Bytes, codes, true, pos, arith}
use cache_x.Decimal.{print_ℕ}
use cache_x.Protocol.{
  Command, tokenize, parse_command, succeed, set_command, is_separator, command_name,
}
use cache_x.Protocol.Tokens.{HasTokens, tokenize-eq_iff}
use cache_x.Protocol.Parse.{Sendable, request, parse_command-request}
use cache_x.Protocol.Accept.{parse_command-Sendable}

abbrev spaced : Bytes
spaced = codes "  GET   a "

tokenize-eq_iff_example :
    (tokenize spaced ≡ codes "GET" ∷ codes "a" ∷ [])
    ↔ HasTokens (codes "GET" ∷ codes "a" ∷ []) spaced
tokenize-eq_iff_example = tokenize-eq_iff spaced (codes "GET" ∷ codes "a" ∷ [])

abbrev set_a : Command
set_a = set_command (codes "a") (codes "1") (some (pos 60))

abbrev set_line : Bytes
set_line = codes "SET a 1 60"

set_a-HasTokens : HasTokens (request set_a) set_line
unfolding tokenize print_ℕ command_name
set_a-HasTokens = (tokenize-eq_iff set_line (request set_a)).0 refl

set_a-Sendable : Sendable set_a
unfolding is_separator
set_a-Sendable = ((refl, tt), (refl, tt), omega arith)

parse_command-request_example : parse_command set_line ≡ succeed set_a
parse_command-request_example = parse_command-request set_a set_line set_a-Sendable set_a-HasTokens

set_line-ok : (parse_command set_line).ok ≡ true
unfolding parse_command
set_line-ok = refl

parse_command-Sendable_example : Sendable (parse_command set_line).command
parse_command-Sendable_example = parse_command-Sendable set_line set_line-ok
