-- ===== src/Protocol/Plain.antt =====
-- A line without a newline is parsed to a command, or to an error, without one.
use cache_x.Base.{
  ℕ, zero, suc, ◌≡◌, refl, List, [], ◌∷◌, ◌++◌, Bytes, codes, Bool, true, false, if◌then◌else◌, ltb,
  length, take, ℤ, pos, negsuc, Bool-cases, Option-cases, inl, inr,
}
use cache_x.Decimal.{print_ℕ}
use cache_x.Protocol.{
  CommandType, ParseResult, is_separator, skip_separators, split_token, tokenize_within, tokenize,
  quoted, fail, wrong_arguments, parse_integer, parse_key_only, parse_no_args, set_seconds,
  set_ttl_token, parse_set, parse_verb, parse_tokens, parse_command, to_upper, max_ttl_seconds, get,
  delete, exists, ttl, ping, save, load, quit,
}
use cache_x.Protocol.Verbs.{parse_verb-cases}
use cache_x.Protocol.Format.{
  NoNewline, no_newline, NoNewline-checked, NoNewline-append, NoNewline-take, NoNewline-print_ℕ,
}

abbrev AllPlain : List Bytes → Type 0
AllPlain [] = Unit {0}
AllPlain (t ∷ ts) = NoNewline t × AllPlain ts

skip_separators-NoNewline : (text : Bytes) → NoNewline text → NoNewline (skip_separators text)
unfolding skip_separators
skip_separators-NoNewline [] h = tt
skip_separators-NoNewline (c ∷ cs) h = elim (Bool-cases (is_separator c)) [
  | inl separator ↦ rw separator (skip_separators-NoNewline cs h.1)
  | inr other ↦ rw other h
]

split_token-NoNewline :
    (text : Bytes)
    → NoNewline text
    → NoNewline (split_token text).0 × NoNewline (split_token text).1
unfolding split_token
split_token-NoNewline [] h = (tt, tt)
split_token-NoNewline (c ∷ cs) h = elim (Bool-cases (is_separator c)) [
  | inl separator ↦ rw separator (tt, h)
  | inr other ↦ let rest = split_token-NoNewline cs h.1 in rw other ((h.0, rest.0), rest.1)
]

-- A token and what follows it.
token-AllPlain :
    (fuel : ℕ) (text : Bytes)
    → NoNewline text
    → ((rest : Bytes) → NoNewline rest → AllPlain (tokenize_within fuel rest))
    → AllPlain (elim text [
      | [] ↦ []
      | c ∷ cs ↦ (split_token (c ∷ cs)).0 ∷ tokenize_within fuel (split_token (c ∷ cs)).1
    ])
token-AllPlain fuel [] n later = tt
token-AllPlain fuel (c ∷ cs) n later =
    let parts = split_token-NoNewline (c ∷ cs) n in
    (parts.0, later (split_token (c ∷ cs)).1 parts.1)

tokenize_within-AllPlain :
    (fuel : ℕ) (line : Bytes) → NoNewline line → AllPlain (tokenize_within fuel line)
unfolding tokenize_within
tokenize_within-AllPlain zero line h = tt
tokenize_within-AllPlain (suc fuel) line h =
    token-AllPlain fuel (skip_separators line) (skip_separators-NoNewline line h)
      (tokenize_within-AllPlain fuel)

-- No newline in the error, and none in the value.
abbrev pub IsPlain : ParseResult → Type 0
IsPlain r = NoNewline r.error × NoNewline r.command.value

fail-IsPlain : (message : Bytes) → NoNewline message → IsPlain (fail message)
unfolding fail
fail-IsPlain message h = (h, tt)

dots-NoNewline : (long : Bool) → NoNewline (if long then codes "..." else [])
dots-NoNewline true = NoNewline-checked (codes "...") refl
dots-NoNewline false = tt

quoted-NoNewline : (text : Bytes) → NoNewline text → NoNewline (quoted text)
unfolding quoted
quoted-NoNewline text h =
    let long = ltb 32 (length text) in
    let dots = if long then codes "..." else [] in
    let start =
      NoNewline-append (take 32 text) dots (NoNewline-take 32 text h) (dots-NoNewline long) in
    (refl, NoNewline-append (take 32 text ++ dots) (codes "'") start (refl, tt))

-- Text between two texts that are written out.
between-NoNewline :
    (before text after : Bytes)
    → NoNewline before
    → NoNewline text
    → NoNewline after
    → NoNewline (before ++ text ++ after)
between-NoNewline before text after b t a =
    NoNewline-append (before ++ text) after (NoNewline-append before text b t) a

wrong_arguments-NoNewline :
    (name usage : Bytes) → NoNewline name → NoNewline usage → NoNewline (wrong_arguments name usage)
unfolding wrong_arguments
wrong_arguments-NoNewline name usage n u =
    let start = codes "wrong number of arguments for '" in
    let middle = codes "' (expected '" in
    let named =
      between-NoNewline start name middle (NoNewline-checked start refl) n
        (NoNewline-checked middle refl) in
    between-NoNewline (start ++ name ++ middle) usage (codes "')") named u (refl, (refl, tt))

parse_key_only-IsPlain :
    (t : CommandType) (name : Bytes) (ts : List Bytes)
    → NoNewline name
    → IsPlain (parse_key_only t name ts)
unfolding parse_key_only
parse_key_only-IsPlain t name ts n = go ts
  where
    refused : IsPlain (fail (wrong_arguments name (name ++ codes " key")))
    refused =
        let usage =
          NoNewline-append name (codes " key") n (NoNewline-checked (codes " key") refl) in
        fail-IsPlain (wrong_arguments name (name ++ codes " key"))
          (wrong_arguments-NoNewline name (name ++ codes " key") n usage)

    go : (xs : List Bytes) → IsPlain (parse_key_only t name xs)
    go [] = refused
    go (_ ∷ []) = refused
    go (_ ∷ key ∷ []) = (tt, tt)
    go (_ ∷ _ ∷ _ ∷ _) = refused

parse_no_args-IsPlain :
    (t : CommandType) (name : Bytes) (ts : List Bytes)
    → NoNewline name
    → IsPlain (parse_no_args t name ts)
unfolding parse_no_args
parse_no_args-IsPlain t name [] n =
    fail-IsPlain (wrong_arguments name name) (wrong_arguments-NoNewline name name n n)
parse_no_args-IsPlain t name (_ ∷ []) n = (tt, tt)
parse_no_args-IsPlain t name (_ ∷ _ ∷ _) n =
    fail-IsPlain (wrong_arguments name name) (wrong_arguments-NoNewline name name n n)

set_seconds-IsPlain :
    (key value : Bytes) (seconds : ℤ) → NoNewline value → IsPlain (set_seconds key value seconds)
unfolding set_seconds
set_seconds-IsPlain key value (negsuc n) v =
    (NoNewline-checked (codes "TTL must not be negative") refl, tt)
set_seconds-IsPlain key value (pos n) v = elim (Bool-cases (ltb max_ttl_seconds n)) [
  | inl large ↦ rw large (
    between-NoNewline (codes "TTL too large (maximum ") (print_ℕ max_ttl_seconds)
        (codes " seconds)") (NoNewline-checked (codes "TTL too large (maximum ") refl)
        (NoNewline-print_ℕ max_ttl_seconds) (NoNewline-checked (codes " seconds)") refl),
    tt,
  )
  | inr small ↦ rw small (tt, v)
]

set_ttl_token-IsPlain :
    (key value text : Bytes)
    → NoNewline value
    → NoNewline text
    → IsPlain (set_ttl_token key value text)
unfolding set_ttl_token
set_ttl_token-IsPlain key value text v t = elim (Option-cases (parse_integer text)) [
  | inr (n, good) ↦ rw (good, set_ttl_token) (set_seconds-IsPlain key value n v)
  | inl bad ↦
      rw (bad, set_ttl_token)
        (
          between-NoNewline (codes "invalid TTL ") (quoted text)
              (codes " (expected a whole number of seconds)")
              (NoNewline-checked (codes "invalid TTL ") refl) (quoted-NoNewline text t)
              (NoNewline-checked (codes " (expected a whole number of seconds)") refl),
          tt,
        )
]

parse_set-IsPlain : (ts : List Bytes) → AllPlain ts → IsPlain (parse_set ts)
unfolding parse_set
parse_set-IsPlain ts h = go ts h
  where
    refused : IsPlain (fail (wrong_arguments (codes "SET") (codes "SET key value [ttl_seconds]")))
    refused = fail-IsPlain (wrong_arguments (codes "SET") (codes "SET key value [ttl_seconds]")) (
        wrong_arguments-NoNewline (codes "SET") (codes "SET key value [ttl_seconds]")
          (NoNewline-checked (codes "SET") refl)
          (NoNewline-checked (codes "SET key value [ttl_seconds]") refl))

    go : (xs : List Bytes) → AllPlain xs → IsPlain (parse_set xs)
    go [] a = refused
    go (_ ∷ []) a = refused
    go (_ ∷ _ ∷ []) a = refused
    go (_ ∷ key ∷ value ∷ []) a = (tt, a.1.1.0)
    go (_ ∷ key ∷ value ∷ text ∷ []) a = set_ttl_token-IsPlain key value text a.1.1.0 a.1.1.1.0
    go (_ ∷ _ ∷ _ ∷ _ ∷ _ ∷ _) a = refused

parse_verb-IsPlain :
    (verb first : Bytes) (ts : List Bytes)
    → NoNewline first
    → AllPlain ts
    → IsPlain (parse_verb verb first ts)
parse_verb-IsPlain verb first ts f h =
    let key = λ (t : CommandType) (name : Bytes) (n : no_newline name ≡ true).
      parse_key_only-IsPlain t name ts (NoNewline-checked name n) in
    let plain = λ (t : CommandType) (name : Bytes) (n : no_newline name ≡ true).
      parse_no_args-IsPlain t name ts (NoNewline-checked name n) in
    let unknown = codes "unknown command " in
    parse_verb-cases IsPlain verb first ts (parse_set-IsPlain ts h) (key get (codes "GET") refl)
      (key delete (codes "DELETE") refl) (key exists (codes "EXISTS") refl)
      (key ttl (codes "TTL") refl) (plain ping (codes "PING") refl) (plain save (codes "SAVE") refl)
      (plain load (codes "LOAD") refl) (plain quit (codes "QUIT") refl)
      (fail-IsPlain (unknown ++ quoted first) (
        NoNewline-append unknown (quoted first) (NoNewline-checked unknown refl)
          (quoted-NoNewline first f)))

parse_tokens-IsPlain : (ts : List Bytes) → AllPlain ts → IsPlain (parse_tokens ts)
unfolding parse_tokens
parse_tokens-IsPlain [] h =
    fail-IsPlain (codes "empty command") (NoNewline-checked (codes "empty command") refl)
parse_tokens-IsPlain (t ∷ ts) h = parse_verb-IsPlain (to_upper t) t (t ∷ ts) h.0 h

-- Neither the error nor the value of a line without a newline has one, whatever the line is.
pub parse_command-IsPlain : (line : Bytes) → NoNewline line → IsPlain (parse_command line)
unfolding parse_command tokenize
parse_command-IsPlain line h =
    parse_tokens-IsPlain (tokenize line) (tokenize_within-AllPlain (length line) line h)
