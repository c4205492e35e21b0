-- ===== src/Protocol/Accept.antt =====
-- What the parser accepts has the form of a command.
use mathlib.Core.Path.{subst}
use cache_x.Base.{
  ◌≡◌, refl, sym, List, [], ◌∷◌, ◌++◌, Bytes, codes, true, ltb, arith, Bool-cases, Option-cases,
  inl, inr, ℤ, pos, negsuc,
}
use cache_x.Protocol.{
  quoted, CommandType, Command, ParseResult, tokenize, to_upper, fail, parse_integer,
  parse_key_only, parse_no_args, set_seconds, set_ttl_token, parse_set, parse_verb, parse_tokens,
  parse_command, max_ttl_seconds, set, get, delete, exists, ttl, ping, save, load, quit,
}
use cache_x.Protocol.Tokens.{IsToken, HasTokens, tokenize-eq_iff}
use cache_x.Protocol.Verbs.{parse_verb-cases}
use cache_x.Protocol.Parse.{KeyOnly, NoArguments, HasFields, Sendable}

abbrev AllTokens : List Bytes → Type 0
AllTokens [] = Unit {0}
AllTokens (t ∷ ts) = IsToken t × AllTokens ts

HasTokens-AllTokens : (ts : List Bytes) (line : Bytes) → HasTokens ts line → AllTokens ts
HasTokens-AllTokens [] line h = tt
HasTokens-AllTokens (t ∷ ts) line (_, rest, _, token, _, _, more) =
    (token, HasTokens-AllTokens ts rest more)

parse_key_only_sound :
    (t : CommandType) (name : Bytes) (ts : List Bytes)
    → AllTokens ts
    → (parse_key_only t name ts).ok ≡ true
    → KeyOnly (parse_key_only t name ts).command × ((parse_key_only t name ts).command.type ≡ t)
unfolding parse_key_only
parse_key_only_sound t name [] h e = absurd (ground arith)
parse_key_only_sound t name (v ∷ []) h e = absurd (ground arith)
parse_key_only_sound t name (v ∷ key ∷ []) h e = ((h.1.0, refl, refl), refl)
parse_key_only_sound t name (v ∷ key ∷ w ∷ ts) h e = absurd (ground arith)

parse_no_args_sound :
    (t : CommandType) (name : Bytes) (ts : List Bytes)
    → (parse_no_args t name ts).ok ≡ true
    → NoArguments (parse_no_args t name ts).command × ((parse_no_args t name ts).command.type ≡ t)
unfolding parse_no_args
parse_no_args_sound t name [] e = absurd (ground arith)
parse_no_args_sound t name (v ∷ []) e = ((refl, refl, refl), refl)
parse_no_args_sound t name (v ∷ w ∷ ts) e = absurd (ground arith)

set_seconds_sound :
    (key value : Bytes) (seconds : ℤ)
    → IsToken key
    → IsToken value
    → (set_seconds key value seconds).ok ≡ true
    → HasFields set (set_seconds key value seconds).command
      × ((set_seconds key value seconds).command.type ≡ set)
unfolding set_seconds
set_seconds_sound key value (negsuc n) k v e = absurd (ground arith)
set_seconds_sound key value (pos n) k v e = elim (Bool-cases (ltb max_ttl_seconds n)) [
  | inl large ↦ absurd (ground (arith, large))
  | inr small ↦ rw small ((k, v, ground arith), refl)
]

parse_set_sound :
    (ts : List Bytes)
    → AllTokens ts
    → (parse_set ts).ok ≡ true
    → HasFields set (parse_set ts).command × ((parse_set ts).command.type ≡ set)
unfolding parse_set set_ttl_token
parse_set_sound [] h e = absurd (ground arith)
parse_set_sound (v ∷ []) h e = absurd (ground arith)
parse_set_sound (v ∷ key ∷ []) h e = absurd (ground arith)
parse_set_sound (v ∷ key ∷ value ∷ []) h e = ((h.1.0, h.1.1.0, tt), refl)
parse_set_sound (v ∷ key ∷ value ∷ text ∷ []) h e = elim (Option-cases (parse_integer text)) [
  | inl bad ↦ absurd (ground (arith, bad))
  | inr (n, good) ↦
      let same : set_ttl_token key value text ≡ set_seconds key value n =
        rw (good, set_ttl_token) in
      rw same (set_seconds_sound key value n h.1.0 h.1.1.0 (rw same at e))
]
parse_set_sound (v ∷ key ∷ value ∷ text ∷ w ∷ ts) h e = absurd (ground arith)

-- A result that is an error, or a command with the fields of its type.
abbrev Accepts : ParseResult → Type 0
Accepts r = r.ok ≡ true → Sendable r.command

Sendable-at : (t : CommandType) (c : Command) → HasFields t c → c.type ≡ t → Sendable c
Sendable-at t c h e = subst (λ u. HasFields u c) (sym e) h

accept_fail : (message : Bytes) → Accepts (fail message)
unfolding fail
accept_fail message e = absurd (ground arith)

module _ (ts : List Bytes) (h : AllTokens ts) where
  accept_key :
      (t : CommandType) (name : Bytes)
      → ((c : Command) → KeyOnly c → HasFields t c)
      → Accepts (parse_key_only t name ts)
  accept_key t name key e =
      let (f, same) = parse_key_only_sound t name ts h e in
      Sendable-at t (parse_key_only t name ts).command (key (parse_key_only t name ts).command f)
        same

  accept_plain :
      (t : CommandType) (name : Bytes)
      → ((c : Command) → NoArguments c → HasFields t c)
      → Accepts (parse_no_args t name ts)
  accept_plain t name plain e =
      let (f, same) = parse_no_args_sound t name ts e in
      Sendable-at t (parse_no_args t name ts).command (plain (parse_no_args t name ts).command f)
        same

  accept_set : Accepts (parse_set ts)
  accept_set e =
      let (f, same) = parse_set_sound ts h e in Sendable-at set (parse_set ts).command f same

  accept_verb : (verb first : Bytes) → Accepts (parse_verb verb first ts)
  accept_verb verb first =
      parse_verb-cases Accepts verb first ts accept_set (accept_key get (codes "GET") (λ c f. f))
        (accept_key delete (codes "DELETE") (λ c f. f))
        (accept_key exists (codes "EXISTS") (λ c f. f)) (accept_key ttl (codes "TTL") (λ c f. f))
        (accept_plain ping (codes "PING") (λ c f. f)) (accept_plain save (codes "SAVE") (λ c f. f))
        (accept_plain load (codes "LOAD") (λ c f. f)) (accept_plain quit (codes "QUIT") (λ c f. f))
        (accept_fail (codes "unknown command " ++ quoted first))

accept_tokens : (ts : List Bytes) → AllTokens ts → Accepts (parse_tokens ts)
unfolding parse_tokens
accept_tokens [] h e = absurd (ground arith)
accept_tokens (t ∷ ts) h e = accept_verb (t ∷ ts) h (to_upper t) t e

-- A command that the parser accepts has the fields of its type and no others: a key and a value
-- without separators, and a time to live between zero and the maximum.
pub parse_command-Sendable :
    (line : Bytes) → (parse_command line).ok ≡ true → Sendable (parse_command line).command
unfolding parse_command
parse_command-Sendable line ok =
    accept_tokens (tokenize line)
      (HasTokens-AllTokens (tokenize line) line ((tokenize-eq_iff line (tokenize line)).0 refl)) ok
