-- ===== src/Cache/Visible.antt =====
-- What a reader of the cache sees: `get`, `contains` and `ttl` after a write, and against each
-- other.
use mathlib.Core.Logic.{◌≢◌}
use cache_x.Base.{
  ℕ, zero, suc, ◌≡◌, ◌+◌, ◌*◌, refl, ap, sym, ◌∙◌, Option, none, some, Bytes, length, arith, Bool,
  true, false, not, ltb, ◌&&◌, bytes_eq_iff, bytes_eq_refl, ℤ, pos, negsuc,
}
use cache_x.Recency.{Entry, entries}
use cache_x.Recency.Order.{lookup}
use cache_x.Cache.{
  Cache, TtlInfo, missing, set, set_ttl, get, get_into, erase, ttl, contains, is_expired,
}
use cache_x.Cache.Model.{
  Lru, put_ttl, read, live, expire, drop_key, discard, value_of, query, is_live,
}
use cache_x.Cache.Valid.{Within, IsValid, view}
use cache_x.Cache.Refine.{store-Implements, length-entries}
use cache_x.Cache.Reads.{
  erase-Implements, get-Implements, get_into-Implements, ttl-Implements, contains-live,
}
use cache_x.Cache.Run.{set_ttl-Implements, Fits}
use cache_x.Cache.Entries.{
  entries-EntriesDistinct, lookup-without, lookup-put_self, EntriesDistinct,
}
use cache_x.Cache.Recent.{view_of}

value-read : (now : ℕ) (k : Bytes) (s : Lru) → (read now k s).1 ≡ live now k s
unfolding read live
value-read now k s = ground arith

pub Within-view : (c : Cache) → IsValid c → Within c.capacity (length (entries c.list.nodes))
Within-view c h = rw (length-entries c.list.nodes) h.within

pub distinct-view : (c : Cache) → IsValid c → EntriesDistinct (entries c.list.nodes)
distinct-view c h = entries-EntriesDistinct c.list.nodes h.consistent.list.keys

-- Unless the capacity is 0, a `get` after a `set` returns the value, at any later time.
pub get-set :
    (now : ℕ) (key value : Bytes) (c c' : Cache)
    → IsValid c
    → c.capacity ≢ some 0
    → set key value c ≡ some c'
    → (c'' : Cache) × (get now key c' ≡ some (c'', some value))
unfolding set read is_expired
get-set now key value c c' h room done =
    let e : Entry = record { key = key; value = value; expires_at = none } in
    let (same, _, ok) = view_of (store-Implements key value none c h) c' tt (ground arith) in
    let i = get-Implements now key c' ok in
    let seen : lookup key (view c').items ≡ some e =
      ap (λ (s : Lru). lookup key s.items) same
      ∙ lookup-put_self e (view c) (Within-view c h) room in
    (i.cache, ground (arith, i.defined, seen))

-- The three readers agree: `get` has a value exactly when `contains` says so, `get_into` copies
-- that value and leaves the buffer alone on a miss, and `ttl` reports a missing key exactly when
-- `contains` denies it.
pub readers_agree :
    (now : ℕ) (key out : Bytes) (c : Cache)
    → IsValid c
    → (found : Option Bytes) × (info : TtlInfo) × (c₁ : Cache) × (c₂ : Cache) × (c₃ : Cache) × (get
          now key c
        ≡ some (c₁, found))
      × (get_into now key out c
          ≡ some (c₂, elim found [ none ↦ (false, out) | some v ↦ (true, v) ]))
      × (ttl now key c ≡ some (c₃, info))
      × (contains now key c ≡ some (elim found [ none ↦ false | some _ ↦ true ]))
      × (contains now key c ≡ some (elim info.state [ missing ↦ false | _ ↦ true ]))
unfolding read live query
readers_agree now key out c h =
    let i = get-Implements now key c h in
    let j = get_into-Implements now key c h out in
    let k = ttl-Implements now key c h in
    (
      value_of (read now key (view c)).1,
      (query now key (view c)).1,
      i.cache,
      j.cache,
      k.cache,
      i.defined,
      ground (arith, j.defined),
      k.defined,
      ground (arith, contains-live now key c h),
      ground (arith, contains-live now key c h),
    )

lookup-discard :
    (now : ℕ) (k : Bytes) (s : Lru)
    → EntriesDistinct s.items
    → lookup k (discard now k s).0.items ≡ none
unfolding discard expire drop_key
lookup-discard now k s d = ground (arith, lookup-without k k s.items d, bytes_eq_refl k)

lookup-discard_ne :
    (now : ℕ) (k j : Bytes) (s : Lru)
    → EntriesDistinct s.items
    → k ≢ j
    → lookup j (discard now k s).0.items ≡ lookup j s.items
unfolding discard expire drop_key
lookup-discard_ne now k j s d ne = ground (arith, lookup-without k j s.items d, bytes_eq_iff k j)

discard-live : (now : ℕ) (k : Bytes) (s : Lru) → (discard now k s).1 ≡ is_live (live now k s)
unfolding discard live
discard-live now k s = ground arith

-- `contains` depends on the entry that the list holds for the key.
pub contains_of :
    (later : ℕ) (k : Bytes) (c : Cache) (o : Option Entry)
    → IsValid c
    → lookup k (entries c.list.nodes) ≡ o
    → contains later k c ≡ some (elim o [ none ↦ false | some e ↦ not (is_expired later e) ])
unfolding live
contains_of later k c o h e = ground (arith, contains-live later k c h, e)

-- `erase` says whether the key was visible. Afterwards it is not, at any time, and every other key
-- is as visible as before.
pub contains-erase :
    (now later : ℕ) (key other : Bytes) (c c' : Cache) (was_visible : Bool)
    → IsValid c
    → key ≢ other
    → erase now key c ≡ some (c', was_visible)
    → (contains now key c ≡ some was_visible)
      × (contains later key c' ≡ some false)
      × (contains later other c' ≡ contains later other c)
contains-erase now later key other c c' was_visible h ne done =
    let (same, result, ok) = view_of (erase-Implements now key c h) c' was_visible done in
    let gone = lookup-discard now key (view c) (distinct-view c h) in
    let kept = lookup-discard_ne now key other (view c) (distinct-view c h) ne in
    (
      contains-live now key c h ∙ ap some (sym (result ∙ discard-live now key (view c))),
      contains_of later key c' none ok (ap (λ (s : Lru). lookup key s.items) same ∙ gone),
      contains_of later other c' (lookup other (entries c.list.nodes)) ok
            (ap (λ (s : Lru). lookup other s.items) same ∙ kept)
          ∙ sym (contains_of later other c (lookup other (entries c.list.nodes)) h refl),
    )

not_positive :
    (now later : ℕ) (key value : Bytes) (ttl : ℤ) (c : Cache)
    → IsValid c
    → Fits now ttl
    → put_ttl now key value ttl (view c) ≡ (discard now key (view c)).0
    → (c' : Cache) × (set_ttl now key value ttl c ≡ some c') × (contains later key c' ≡ some false)
not_positive now later key value ttl c h fits erases =
    let i = set_ttl-Implements now key value ttl c fits h in
    let gone = lookup-discard now key (view c) (distinct-view c h) in
    (
      i.cache,
      ground (arith, i.defined),
      contains_of later key i.cache none i.valid
          (ap (λ (s : Lru). lookup key s.items) (i.same ∙ erases) ∙ gone),
    )

-- The entry that `set` with a time to live leaves behind, if any.
pub lookup-put_ttl :
    (now : ℕ) (k v : Bytes) (n : ℕ) (s : Lru)
    → Within s.capacity (length s.items)
    → s.capacity ≢ some 0
    → lookup k (put_ttl now k v (pos (suc n)) s).items
      ≡ some (record { key = k; value = v; expires_at = some (now + suc n * 1000000) })
unfolding put_ttl
lookup-put_ttl now k v n s w room =
    lookup-put_self (record { key = k; value = v; expires_at = some (now + suc n * 1000000) }) s w
      room

-- The instant, in nanoseconds, up to which a key set at `now` for `ttl` milliseconds is visible:
-- none if the time to live is not positive.
abbrev pub visible_until : ℕ → ℤ → ℕ
visible_until now (pos ms) = now + ms * 1000000
visible_until now (negsuc _) = 0

abbrev pub is_positive : ℤ → Bool
is_positive (pos zero) = false
is_positive (pos (suc _)) = true
is_positive (negsuc _) = false

-- After `set` with a time to live the key is visible exactly if that is positive and has not run
-- out: with one that is zero or less it is gone at once.
pub contains-set_ttl :
    (now later : ℕ) (key value : Bytes) (ttl : ℤ) (c : Cache)
    → IsValid c
    → c.capacity ≢ some 0
    → Fits now ttl
    → (c' : Cache) × (set_ttl now key value ttl c ≡ some c')
      × (contains later key c' ≡ some (is_positive ttl && ltb later (visible_until now ttl)))
contains-set_ttl now later key value (pos (suc n)) c h room fits =
    let i = set_ttl-Implements now key value (pos (suc n)) c fits h in
    let seen = lookup-put_ttl now key value n (view c) (Within-view c h) room in
    (
      i.cache,
      ground (arith, i.defined),
      contains_of later key i.cache _ i.valid (ap (λ (s : Lru). lookup key s.items) i.same ∙ seen)
          ∙ (unfold is_expired in ground arith),
    )
contains-set_ttl now later key value (pos zero) c h room fits =
    not_positive now later key value (pos zero) c h fits (unfold put_ttl in refl)
contains-set_ttl now later key value (negsuc n) c h room fits =
    not_positive now later key value (negsuc n) c h fits (unfold put_ttl in refl)
