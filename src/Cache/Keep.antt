-- ===== src/Cache/Keep.antt =====
-- What `set` leaves of the other keys, and how long `ttl` says that a key will stay.
use mathlib.Core.Logic.{◌≢◌}
use cache_x.Base.{
  ℕ, zero, suc, ◌≤◌, ◌≡◌, ◌+◌, ◌*◌, ◌-◌, ◌/◌, refl, ap, sym, ◌∙◌, List, [], ◌∷◌, Option, none, some,
  Bytes, length, take, take_self, arith, Option-cases, inl, inr, if◌then◌else◌, ltb, bytes_eq_iff,
  pos,
}
use cache_x.Recency
use cache_x.Recency.{Entry, Node, entries, back}
use cache_x.Recency.Order.{lookup, without}
use cache_x.Cache.{
  Cache, TtlInfo, expiring, set, set_ttl, ttl, contains, is_expired, remaining_ms, no_ttl,
}
use cache_x.Cache.Model.{Lru, push, put, query}
use cache_x.Cache.Valid.{Within, IsValid, view}
use cache_x.Cache.Refine.{store-Implements}
use cache_x.Cache.Reads.{ttl-Implements}
use cache_x.Cache.Run.{set_ttl-Implements, Fits}
use cache_x.Cache.Entries.{EntriesDistinct, lookup-without}
use cache_x.Cache.Recent.{view_of}
use cache_x.Cache.Visible.{Within-view, distinct-view, contains_of, lookup-put_ttl, visible_until}

unfoldable pub last? : List Entry → Option Entry
last? [] = none
last? (e ∷ []) = some e
last? (e ∷ f ∷ es) = last? (f ∷ es)

back-last? : (ns : List Node) → back ns ≡ last? (entries ns)
unfolding back last? entries
back-last? [] = refl
back-last? (n ∷ []) = refl
back-last? (n ∷ m ∷ ns) = back-last? (m ∷ ns)

-- Cutting off at most the last entry hides at most the last key.
lookup-take :
    (j : Bytes) (n : ℕ) (es : List Entry)
    → length es ≤ suc n
    → ((v : Entry) → last? es ≡ some v → v.key ≢ j)
    → lookup j (take n es) ≡ lookup j es
unfolding lookup last?
lookup-take j zero [] s h = refl
lookup-take j (suc n) [] s h = refl
lookup-take j zero (e ∷ []) s h = ground (arith, h e, bytes_eq_iff e.key j)
lookup-take j zero (e ∷ f ∷ es) s h = absurd (omega arith)
lookup-take j (suc n) (e ∷ []) s h = ground (arith, take_self {A = Entry} n [])
lookup-take j (suc n) (e ∷ f ∷ es) s h = rw (lookup-take j n (f ∷ es) (omega arith) h)

last-cons :
    (e v : Entry) (es : List Entry)
    → last? (e ∷ es) ≡ some v
    → (j : Bytes) → e.key ≢ j
    → ((w : Entry) → last? es ≡ some w → w.key ≢ j)
    → v.key ≢ j
unfolding last?
last-cons e v [] h j ne old = ground arith
last-cons e v (f ∷ es) h j ne old = old v h

-- A `put` of one key keeps every other key but the one at the back.
lookup-put_ne :
    (e : Entry) (j : Bytes) (s : Lru) (cap : Option ℕ)
    → s.capacity ≡ cap
    → Within cap (length s.items)
    → EntriesDistinct s.items
    → e.key ≢ j
    → ((v : Entry) → last? s.items ≡ some v → v.key ≢ j)
    → lookup j (put e s).items ≡ lookup j s.items
unfolding put push
lookup-put_ne e j s none c w d ne old =
    unfold lookup in ground (arith, lookup-without e.key j s.items d, bytes_eq_iff e.key j)
lookup-put_ne e j s (some n) c w d ne old = elim (Option-cases (lookup e.key s.items)) [
  | inl new ↦
      let cut =
        lookup-take j n (e ∷ s.items) (omega arith)
          (λ v last. last-cons e v s.items last j ne old) in
      let first : lookup j (e ∷ s.items) ≡ lookup j s.items =
        unfold lookup in ground (arith, bytes_eq_iff e.key j) in
      ground (arith, new, cut, first)
  | inr (f, there) ↦
      let first : lookup j (e ∷ without e.key s.items) ≡ lookup j (without e.key s.items) =
        unfold lookup in ground (arith, bytes_eq_iff e.key j) in
      ground (arith, there, first, lookup-without e.key j s.items d, bytes_eq_iff e.key j)
]

-- `set` of one key leaves every other key as visible as it was, at any time, unless that is the
-- oldest.
pub contains-set_ne :
    (later : ℕ) (key value other : Bytes) (c c' : Cache)
    → IsValid c
    → set key value c ≡ some c'
    → key ≢ other
    → ((v : Entry) → Recency.oldest c.list ≡ some v → v.key ≢ other)
    → contains later other c' ≡ contains later other c
unfolding set Recency.oldest
contains-set_ne later key value other c c' h done ne old =
    let e : Entry = record { key = key; value = value; expires_at = none } in
    let (same, _, ok) = view_of (store-Implements key value none c h) c' tt (ground arith) in
    let kept =
      lookup-put_ne e other (view c) c.capacity refl (Within-view c h) (distinct-view c h) ne
        (λ v last. old v (back-last? c.list.nodes ∙ last)) in
    contains_of later other c' (lookup other (entries c.list.nodes)) ok
      (ap (λ (s : Lru). lookup other s.items) same ∙ kept)
    ∙ sym (contains_of later other c (lookup other (entries c.list.nodes)) h refl)

query_of :
    (later : ℕ) (k : Bytes) (t : ℕ) (e : Entry) (s : Lru)
    → lookup k s.items ≡ some e
    → e.expires_at ≡ some t
    → (query later k s).1 ≡ (
        if ltb later t
        then record { state = expiring; remaining = (t - later) / 1000000 }
        else no_ttl)
unfolding query is_expired remaining_ms
query_of later k t e s h x = ground (arith, h, x)

-- At a later instant at which a key with a time to live is visible, `ttl` reports the whole
-- milliseconds that are left,
-- never more than it was given. From the deadline on it reports a
-- missing key.
pub ttl-set_ttl :
    (now later : ℕ) (key value : Bytes) (ms : ℕ) (c : Cache)
    → IsValid c
    → c.capacity ≢ some 0
    → Fits now (pos (suc ms))
    → now ≤ later
    → (c' : Cache) × (c'' : Cache) × (info : TtlInfo) × (set_ttl now key value (pos (suc ms)) c
        ≡ some c')
      × (ttl later key c' ≡ some (c'', info))
      × (info ≡ (
          if ltb later (visible_until now (pos (suc ms)))
          then record {
            state = expiring;
            remaining = (visible_until now (pos (suc ms)) - later) / 1000000;
          }
          else no_ttl))
      × (info.remaining ≤ suc ms)
ttl-set_ttl now later key value ms c h room fits le =
    let i = set_ttl-Implements now key value (pos (suc ms)) c fits h in
    let j = ttl-Implements later key i.cache i.valid in
    let seen =
      ap (λ (s : Lru). lookup key s.items) i.same
      ∙ lookup-put_ttl now key value ms (view c) (Within-view c h) room in
    let told = query_of later key (now + suc ms * 1000000) _ (view i.cache) seen refl in
    (
      i.cache,
      j.cache,
      (query later key (view i.cache)).1,
      ground (arith, i.defined),
      j.defined,
      told,
      ground (arith, told),
    )
