-- ===== src/CommandHandler/Deadlines.antt =====
-- Deadlines that stay in range.
use mathlib.Core.Path.{subst}
use cache_x.Base.{
  ℕ, zero, suc, ◌+◌, ◌*◌, ◌^◌, ◌<◌, ◌≡◌, sym, List, [], ◌∷◌, Option, none, some, Bytes, ℤ, pos,
  negsuc, arith, leb, length, get_elem?, set as write, take, Option-cases, Bool-cases, bytes_eq,
  inl, inr,
}
use cache_x.Recency.{Entry}
use cache_x.Recency.Order.{lookup, without}
use cache_x.Cache.{Cache, is_expired}
use cache_x.Cache.Model.{Lru, push, put, put_ttl, drop_key, expire, discard, read, query}
use cache_x.Cache.Valid.{IsValid, view}
use cache_x.Cache.Run.{Fits}

-- The deadlines of the entries are counts of nanoseconds in a signed 64-bit integer.
abbrev pub DeadlineFits : Option ℕ → Type 0
DeadlineFits none = Unit {0}
DeadlineFits (some t) = t < 2 ^ 63

abbrev pub DeadlinesFit : List Entry → Type 0
DeadlinesFit [] = Unit {0}
DeadlinesFit (e ∷ es) = DeadlineFits e.expires_at × DeadlinesFit es

pub lookup-DeadlineFits :
    (k : Bytes) (es : List Entry) (e : Entry)
    → DeadlinesFit es
    → lookup k es ≡ some e
    → DeadlineFits e.expires_at
unfolding lookup
lookup-DeadlineFits k [] e h found = absurd (ground arith)
lookup-DeadlineFits k (d ∷ es) e h found = elim (Bool-cases (bytes_eq d.key k)) [
  | inl here ↦ let same : d ≡ e = ground (arith, here, found) in rw (← same) h.0
  | inr there ↦ lookup-DeadlineFits k es e h.1 (ground (arith, there, found))
]

without-DeadlinesFit : (k : Bytes) (es : List Entry) → DeadlinesFit es → DeadlinesFit (without k es)
unfolding without
without-DeadlinesFit k [] h = tt
without-DeadlinesFit k (e ∷ es) h = elim (Bool-cases (bytes_eq e.key k)) [
  | inl here ↦ rw here h.1
  | inr there ↦ rw there (h.0, without-DeadlinesFit k es h.1)
]

take-DeadlinesFit : (n : ℕ) (es : List Entry) → DeadlinesFit es → DeadlinesFit (take n es)
take-DeadlinesFit zero es h = tt
take-DeadlinesFit (suc n) [] h = tt
take-DeadlinesFit (suc n) (e ∷ es) h = (h.0, take-DeadlinesFit n es h.1)

same-DeadlinesFit : (xs ys : List Entry) → xs ≡ ys → DeadlinesFit ys → DeadlinesFit xs
same-DeadlinesFit xs ys e h = subst DeadlinesFit (sym e) h

push-DeadlinesFit :
    (e : Entry) (s : Lru)
    → DeadlineFits e.expires_at
    → DeadlinesFit s.items
    → DeadlinesFit (push e s).items
unfolding push
push-DeadlinesFit e s h hs = elim (Option-cases s.capacity) [
  | inl c ↦ rw c (h, hs)
  | inr (n, c) ↦ elim (Bool-cases (leb (suc (length s.items)) n)) [
    | inl room ↦ rw (c, room) (h, hs)
    | inr full ↦ rw (c, full) (take-DeadlinesFit n (e ∷ s.items) (h, hs))
  ]
]

pub put-DeadlinesFit :
    (e : Entry) (s : Lru)
    → DeadlineFits e.expires_at
    → DeadlinesFit s.items
    → DeadlinesFit (put e s).items
unfolding put
put-DeadlinesFit e s h hs = elim (Option-cases (lookup e.key s.items)) [
  | inl absent ↦
      same-DeadlinesFit (put e s).items (push e s).items (ground (arith, absent))
        (push-DeadlinesFit e s h hs)
  | inr (d, found) ↦
      same-DeadlinesFit (put e s).items (e ∷ without e.key s.items) (ground (arith, found))
        (h, without-DeadlinesFit e.key s.items hs)
]

pub discard-DeadlinesFit :
    (now : ℕ) (k : Bytes) (s : Lru) → DeadlinesFit s.items → DeadlinesFit (discard now k s).0.items
unfolding discard drop_key expire
discard-DeadlinesFit now k s h = elim (Option-cases (lookup k s.items)) [
  | inl absent ↦ same-DeadlinesFit (discard now k s).0.items s.items (ground (arith, absent)) h
  | inr (e, found) ↦ elim (Bool-cases (is_expired now e)) [
    | inl old ↦
        same-DeadlinesFit (discard now k s).0.items (without k s.items) (ground (arith, found, old))
          (without-DeadlinesFit k s.items h)
    | inr new ↦
        same-DeadlinesFit (discard now k s).0.items (without k s.items) (ground (arith, found, new))
          (without-DeadlinesFit k s.items h)
  ]
]

pub read-DeadlinesFit :
    (now : ℕ) (k : Bytes) (s : Lru) → DeadlinesFit s.items → DeadlinesFit (read now k s).0.items
unfolding read expire
read-DeadlinesFit now k s h = elim (Option-cases (lookup k s.items)) [
  | inl absent ↦ same-DeadlinesFit (read now k s).0.items s.items (ground (arith, absent)) h
  | inr (e, found) ↦ elim (Bool-cases (is_expired now e)) [
    | inl old ↦
        same-DeadlinesFit (read now k s).0.items (without k s.items) (ground (arith, found, old))
          (without-DeadlinesFit k s.items h)
    | inr new ↦
        same-DeadlinesFit (read now k s).0.items (e ∷ without k s.items)
          (ground (arith, found, new))
          (lookup-DeadlineFits k s.items e h found, without-DeadlinesFit k s.items h)
  ]
]

pub query-DeadlinesFit :
    (now : ℕ) (k : Bytes) (s : Lru) → DeadlinesFit s.items → DeadlinesFit (query now k s).0.items
unfolding query expire
query-DeadlinesFit now k s h = elim (Option-cases (lookup k s.items)) [
  | inl absent ↦ same-DeadlinesFit (query now k s).0.items s.items (ground (arith, absent)) h
  | inr (e, found) ↦ elim (Bool-cases (is_expired now e)) [
    | inl old ↦
        same-DeadlinesFit (query now k s).0.items (without k s.items) (ground (arith, found, old))
          (without-DeadlinesFit k s.items h)
    | inr new ↦ same-DeadlinesFit (query now k s).0.items s.items (ground (arith, found, new)) h
  ]
]

pub put_ttl-DeadlinesFit :
    (now : ℕ) (k v : Bytes) (t : ℤ) (s : Lru)
    → Fits now t
    → DeadlinesFit s.items
    → DeadlinesFit (put_ttl now k v t s).items
unfolding put_ttl
put_ttl-DeadlinesFit now k v (pos zero) s f h = discard-DeadlinesFit now k s h
put_ttl-DeadlinesFit now k v (negsuc n) s f h = discard-DeadlinesFit now k s h
put_ttl-DeadlinesFit now k v (pos (suc n)) s f h =
    put-DeadlinesFit (record { key = k; value = v; expires_at = some (now + suc n * 1000000) }) s f
      h

-- A valid cache with deadlines in range.
abbrev pub IsSound : Cache → Type 0
IsSound c = IsValid c × DeadlinesFit (view c).items

abbrev pub AllSound : List Cache → Type 0
AllSound [] = Unit {0}
AllSound (c ∷ cs) = IsSound c × AllSound cs

-- The deadlines of a cache that is seen as a list with deadlines in range.
pub DeadlinesFit-view :
    (c : Cache) (s : Lru) → view c ≡ s → DeadlinesFit s.items → DeadlinesFit (view c).items
DeadlinesFit-view c s same h = subst (λ (l : Lru). DeadlinesFit l.items) (sym same) h

pub AllSound-get :
    (cs : List Cache) (i : ℕ) (c : Cache) → AllSound cs → get_elem? cs i ≡ some c → IsSound c
AllSound-get [] i c h e = absurd (ground arith)
AllSound-get (d ∷ cs) zero c h e = let same : d ≡ c = ground arith in rw (← same) h.0
AllSound-get (d ∷ cs) (suc i) c h e = AllSound-get cs i c h.1 e

pub AllSound-set :
    (cs : List Cache) (i : ℕ) (c : Cache) → AllSound cs → IsSound c → AllSound (write cs i c)
AllSound-set [] i c h v = h
AllSound-set (d ∷ cs) zero c h v = (v, h.1)
AllSound-set (d ∷ cs) (suc i) c h v = (h.0, AllSound-set cs i c h.1 v)
