-- ===== src/Protocol/Verbs.antt =====
-- The branches of `parse_verb`, for a property that each of them has.
use cache_x.Base.{
  List, [], ◌∷◌, ◌++◌, Bytes, bytes_eq, codes, Bool, true, false, ◌||◌, if◌then◌else◌,
}
use cache_x.Protocol.{
  quoted, ParseResult, fail, parse_key_only, parse_no_args, parse_set, parse_verb, get, delete,
  exists, ttl, ping, save, load, quit,
}

-- The first result whose test passes.
abbrev first_match : List (Bool × ParseResult) → ParseResult → ParseResult
first_match [] r = r
first_match ((b, r) ∷ rest) last = if b then r else first_match rest last

module _ (P : ParseResult → Type 0) where
  abbrev AllResults : List (Bool × ParseResult) → Type 0
  AllResults [] = Unit {0}
  AllResults ((b, r) ∷ rest) = P r × AllResults rest

  first_match-holds :
      (rs : List (Bool × ParseResult)) (last : ParseResult)
      → AllResults rs
      → P last
      → P (first_match rs last)
  first_match-holds [] last h k = k
  first_match-holds ((true, r) ∷ rest) last h k = h.0
  first_match-holds ((false, r) ∷ rest) last h k = first_match-holds rest last h.1 k

  pub parse_verb-cases :
      (verb first : Bytes) (ts : List Bytes)
      → P (parse_set ts)
      → P (parse_key_only get (codes "GET") ts)
      → P (parse_key_only delete (codes "DELETE") ts)
      → P (parse_key_only exists (codes "EXISTS") ts)
      → P (parse_key_only ttl (codes "TTL") ts)
      → P (parse_no_args ping (codes "PING") ts)
      → P (parse_no_args save (codes "SAVE") ts)
      → P (parse_no_args load (codes "LOAD") ts)
      → P (parse_no_args quit (codes "QUIT") ts)
      → P (fail (codes "unknown command " ++ quoted first))
      → P (parse_verb verb first ts)
  unfolding parse_verb
  parse_verb-cases verb first ts s g d e t p v l q u =
      first_match-holds
        ((bytes_eq verb (codes "SET"), parse_set ts)
          ∷ (bytes_eq verb (codes "GET"), parse_key_only get (codes "GET") ts)
          ∷ (
            bytes_eq verb (codes "DELETE") || bytes_eq verb (codes "DEL"),
            parse_key_only delete (codes "DELETE") ts,
          )
          ∷ (bytes_eq verb (codes "EXISTS"), parse_key_only exists (codes "EXISTS") ts)
          ∷ (bytes_eq verb (codes "TTL"), parse_key_only ttl (codes "TTL") ts)
          ∷ (bytes_eq verb (codes "PING"), parse_no_args ping (codes "PING") ts)
          ∷ (bytes_eq verb (codes "SAVE"), parse_no_args save (codes "SAVE") ts)
          ∷ (bytes_eq verb (codes "LOAD"), parse_no_args load (codes "LOAD") ts)
          ∷ (bytes_eq verb (codes "QUIT"), parse_no_args quit (codes "QUIT") ts)
          ∷ [])
        (fail (codes "unknown command " ++ quoted first))
        (s, (g, (d, (e, (t, (p, (v, (l, (q, tt))))))))) u
