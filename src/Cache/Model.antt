-- ===== src/Cache/Model.antt =====
-- What the cache promises: a list of entries, most recently used first, with no index, no nodes
-- and no addresses.
use cache_x.Cache.Op.{Op, Reply}
use cache_x.Base.{
  zero, [], ◌+◌, ◌*◌, ℤ, pos, negsuc, ℕ, suc, List, ◌∷◌, Option, none, some, Bytes, Bool, true,
  false, leb, if◌then◌else◌, length, take,
}
use cache_x.Recency.{Entry}
use cache_x.Recency.Order.{lookup, without}
use cache_x.Cache.{TtlInfo, increment, is_expired, remaining_ms, no_ttl, persistent, expiring}

pub record Lru : Type 0 where
  pub items : List Entry
  pub capacity : Option ℕ
  pub evictions : ℕ
  pub expired_removals : ℕ

-- A new entry at the front; at capacity the entry at the back makes room for it.
unfoldable pub push : Entry → Lru → Lru
push e s = elim s.capacity [
  | none ↦ record s { items = e ∷ s.items }
  | some n ↦
      if leb (suc (length s.items)) n
      then record s { items = e ∷ s.items }
      else record s { items = take n (e ∷ s.items); evictions = increment s.evictions }
]

unfoldable pub put : Entry → Lru → Lru
unfolding push without
put e s = elim (lookup e.key s.items) [
  | none ↦ push e s
  | some _ ↦ record s { items = e ∷ without e.key s.items }
]

unfoldable pub drop_key : Bytes → Lru → Lru
unfolding without
drop_key k s = record s { items = without k s.items }

unfoldable pub expire : Bytes → Lru → Lru
unfolding drop_key
expire k s = record s { items = without k s.items; expired_removals = increment s.expired_removals }

-- An entry that a reader may see: present, and not expired.
unfoldable pub live : ℕ → Bytes → Lru → Option Entry
unfolding is_expired
live now k s = elim (lookup k s.items) [
  | none ↦ none
  | some e ↦ if is_expired now e then none else some e
]

unfoldable pub discard : ℕ → Bytes → Lru → Lru × Bool
unfolding expire drop_key is_expired
discard now k s = elim (lookup k s.items) [
  | none ↦ (s, false)
  | some e ↦ if is_expired now e then (expire k s, false) else (drop_key k s, true)
]

unfoldable pub read : ℕ → Bytes → Lru → Lru × Option Entry
unfolding expire is_expired
read now k s = elim (lookup k s.items) [
  | none ↦ (s, none)
  | some e ↦
      if is_expired now e
      then (expire k s, none)
      else (record s { items = e ∷ without k s.items }, some e)
]

abbrev pub ttl_of : ℕ → Option ℕ → TtlInfo
ttl_of now none = record { state = persistent; remaining = 0 }
ttl_of now (some t) = record { state = expiring; remaining = remaining_ms t now }

unfoldable pub query : ℕ → Bytes → Lru → Lru × TtlInfo
unfolding expire is_expired
query now k s = elim (lookup k s.items) [
  | none ↦ (s, no_ttl)
  | some e ↦ if is_expired now e then (expire k s, no_ttl) else (s, ttl_of now e.expires_at)
]

unfoldable pub put_ttl : ℕ → Bytes → Bytes → ℤ → Lru → Lru
unfolding put discard
put_ttl now k v (pos zero) s = (discard now k s).0
put_ttl now k v (negsuc _) s = (discard now k s).0
put_ttl now k v (pos (suc n)) s =
    put (record { key = k; value = v; expires_at = some (now + suc n * 1000000) }) s

abbrev pub value_of : Option Entry → Option Bytes
value_of none = none
value_of (some e) = some e.value

abbrev pub copied : Bytes → Option Entry → Bool × Bytes
copied out none = (false, out)
copied out (some e) = (true, e.value)

abbrev pub is_live : Option Entry → Bool
is_live none = false
is_live (some e) = true

unfoldable pub wipe : Lru → Lru
wipe s = record s { items = [] }

unfoldable pub model_step : ℕ → Op → Lru → Lru × Reply
unfolding put put_ttl read discard query live wipe
model_step now (Op.set k v) s =
    (put (record { key = k; value = v; expires_at = none }) s, Reply.done)
model_step now (Op.set_ttl k v t) s = (put_ttl now k v t s, Reply.done)
model_step now (Op.get k) s = let (s', e) = read now k s in (s', Reply.value (value_of e))
model_step now (Op.get_into k out) s =
    let (s', e) = read now k s in (s', Reply.buffer (copied out e))
model_step now (Op.erase k) s = let (s', b) = discard now k s in (s', Reply.flag b)
model_step now (Op.contains k) s = (s, Reply.flag (is_live (live now k s)))
model_step now (Op.ttl k) s = let (s', i) = query now k s in (s', Reply.info i)
model_step now Op.clear s = (wipe s, Reply.done)

-- Calls at given instants, with the replies in order.
unfoldable pub model_run : List (ℕ × Op) → Lru → Lru × List Reply
unfolding model_step
model_run [] s = (s, [])
model_run ((now, op) ∷ ops) s =
    let (s', r) = model_step now op s in let (s'', rs) = model_run ops s' in (s'', r ∷ rs)
