-- ===== src/Cache.antt =====
-- src/cache.cpp and include/cachex/cache.hpp: the single-threaded cache.
-- The clock is an argument: each operation reads `Clock::now()` at most once, and `now` is what it
-- reads, in nanoseconds (`std::chrono::steady_clock`). An operation returns the new cache beside
-- its result; `none` is undefined behaviour (a dangling iterator, the `back` of an empty list, a
-- deadline that overflows the clock's 64-bit count).

pub mod Model
pub mod Valid
pub mod Steps
pub mod Trim
pub mod Found
pub mod Refine
pub mod Reads
pub mod Op
pub mod Run
pub mod Entries
pub mod Recent
pub mod Visible
pub mod Keep
pub mod Keys
mod Tests
use cache_x.Base.{
  ℕ, zero, suc, ◌+◌, ◌-◌, ◌*◌, ◌/◌, ◌%◌, ◌^◌, List, [], ◌∷◌, map, Option, none, some, Bytes, Bool,
  true, false, not, ◌>>=◌, if◌then◌else◌, leb, ltb, length, ℤ, pos, negsuc,
}
use cache_x.Index
use cache_x.Index.{Index}
use cache_x.Recency
use cache_x.Recency.{Entry, Iterator, RecencyList, empty_list, deref, overwrite, entries}

pub data TtlState : Type 0 where
  missing persistent expiring : TtlState

-- `remaining` is in milliseconds.
pub record TtlInfo : Type 0 where
  pub state : TtlState
  pub remaining : ℕ

pub record EntrySnapshot : Type 0 where
  pub key : Bytes
  pub value : Bytes
  pub remaining_ttl : Option ℕ

pub record Cache : Type 0 where
  pub list : RecencyList
  pub index : Index Iterator
  pub capacity : Option ℕ
  pub evictions : ℕ
  pub expired_removals : ℕ

-- `Cache()` and `Cache(capacity)`
abbrev pub unbounded : Cache
unbounded = record {
  list = empty_list;
  index = [];
  capacity = none;
  evictions = 0;
  expired_removals = 0;
}

abbrev pub bounded : ℕ → Cache
bounded capacity = record {
  list = empty_list;
  index = [];
  capacity = some capacity;
  evictions = 0;
  expired_removals = 0;
}

-- `++n` on a `std::size_t`
unfoldable pub increment : ℕ → ℕ
increment n = (n + 1) % 2 ^ 64

unfoldable pub is_expired : ℕ → Entry → Bool
is_expired now e = elim e.expires_at [ none ↦ false | some deadline ↦ leb deadline now ]

-- `duration_cast<milliseconds>(deadline - now)`, for a deadline that has not passed
unfoldable pub remaining_ms : ℕ → ℕ → ℕ
remaining_ms deadline now = (deadline - now) / 1000000

unfoldable pub size : Cache → ℕ
size c = length c.index

unfoldable pub empty : Cache → Bool
empty c = elim c.index [ [] ↦ true | _ ∷ _ ↦ false ]

-- The iterator of the index is the pair of `key` and `node`.
unfoldable pub remove : Bytes → Iterator → Cache → Option Cache
remove key node c = do
  l ← Recency.erase node c.list
  some (record c { list = l; index = Index.erase key c.index })

unfoldable pub evict_oldest : Cache → Option Cache
evict_oldest c = do
  victim ← Recency.oldest c.list
  l ← Recency.pop_oldest c.list
  some (record c {
    list = l;
    index = Index.erase victim.key c.index;
    evictions = increment c.evictions;
  })

unfoldable pub over_capacity : Cache → Bool
unfolding size
over_capacity c = elim c.capacity [ none ↦ false | some n ↦ ltb n (size c) ]

-- The `while` loop of `store`, on fuel: `none` if the fuel runs out.
unfoldable pub trim : ℕ → Cache → Option Cache
unfolding evict_oldest over_capacity
trim zero c = none
trim (suc fuel) c =
    let rest = (do c' ← evict_oldest c; trim fuel c') in if over_capacity c then rest else some c

unfoldable pub update_entry : Iterator → Bytes → Option ℕ → Cache → Option Cache
update_entry node value expires_at c = do
  _ ← deref node c.list.nodes
  l ←
      Recency.mark_used node
        (record (c.list) { nodes = overwrite node value expires_at c.list.nodes })
  some (record c { list = l })

unfoldable pub insert_entry : Bytes → Bytes → Option ℕ → Cache → Cache
insert_entry key value expires_at c =
    let (l, node) =
      Recency.insert_newest (record { key = key; value = value; expires_at = expires_at }) c.list in
    record c { list = l; index = Index.emplace key node c.index }

unfoldable pub store : Bytes → Bytes → Option ℕ → Cache → Option Cache
unfolding update_entry insert_entry
store key value expires_at c = elim (Index.find key c.index) [
  | some node ↦ update_entry node value expires_at c
  | none ↦ let c' = insert_entry key value expires_at c in trim (suc (length c'.index)) c'
]

unfoldable pub set : Bytes → Bytes → Cache → Option Cache
set key value c = store key value none c

-- The entry is at hand and expired: it is removed and counted.
unfoldable pub reclaim : Bytes → Iterator → Cache → Option Cache
unfolding remove
reclaim key node c = do
  c' ← remove key node c
  some (record c' { expired_removals = increment c'.expired_removals })

unfoldable pub erase_found : ℕ → Bytes → Iterator → Cache → Option (Cache × Bool)
unfolding reclaim is_expired
erase_found now key node c = do
  e ← deref node c.list.nodes
  if is_expired now e
      then (do c' ← reclaim key node c; some (c', false))
      else (do c' ← remove key node c; some (c', true))

unfoldable pub erase : ℕ → Bytes → Cache → Option (Cache × Bool)
unfolding erase_found
erase now key c = elim (Index.find key c.index) [
  | none ↦ some (c, false)
  | some node ↦ erase_found now key node c
]

-- `Clock::now() + ttl`: the count of nanoseconds is a signed 64-bit integer.
unfoldable pub deadline : ℕ → ℕ → Option ℕ
deadline now ttl = let t = now + ttl * 1000000 in if ltb t (2 ^ 63) then some t else none

-- `set` with a time to live, in milliseconds.
unfoldable pub set_ttl : ℕ → Bytes → Bytes → ℤ → Cache → Option Cache
unfolding deadline
set_ttl now key value (pos zero) c = do (c', _) ← erase now key c; some c'
set_ttl now key value (negsuc _) c = do (c', _) ← erase now key c; some c'
set_ttl now key value (pos (suc n)) c = do t ← deadline now (suc n); store key value (some t) c

unfoldable pub find_found : ℕ → Bytes → Iterator → Cache → Option (Cache × Option Iterator)
unfolding reclaim is_expired
find_found now key node c = do
  e ← deref node c.list.nodes
  if is_expired now e then (do c' ← reclaim key node c; some (c', none)) else some (c, some node)

unfoldable pub find_live : ℕ → Bytes → Cache → Option (Cache × Option Iterator)
unfolding find_found
find_live now key c = elim (Index.find key c.index) [
  | none ↦ some (c, none)
  | some node ↦ find_found now key node c
]

unfoldable pub read_entry : Cache → Option Iterator → Option (Cache × Option Bytes)
read_entry c none = some (c, none)
read_entry c (some node) = do
  l ← Recency.mark_used node c.list
  e ← deref node l.nodes
  some (record c { list = l }, some e.value)

unfoldable pub get : ℕ → Bytes → Cache → Option (Cache × Option Bytes)
unfolding find_live read_entry
get now key c = do (c', it) ← find_live now key c; read_entry c' it

-- `out` is the caller's buffer: it comes back beside the result.
unfoldable pub read_into : Cache → Option Iterator → Bytes → Option (Cache × (Bool × Bytes))
read_into c none out = some (c, (false, out))
read_into c (some node) out = do
  l ← Recency.mark_used node c.list
  e ← deref node l.nodes
  some (record c { list = l }, (true, e.value))

unfoldable pub get_into : ℕ → Bytes → Bytes → Cache → Option (Cache × (Bool × Bytes))
unfolding find_live read_into
get_into now key out c = do (c', it) ← find_live now key c; read_into c' it out

abbrev pub no_ttl : TtlInfo
no_ttl = record { state = missing; remaining = 0 }

unfoldable pub ttl_found : ℕ → Bytes → Iterator → Option ℕ → Cache → Option (Cache × TtlInfo)
unfolding reclaim remaining_ms
ttl_found now key node none c = some (c, record { state = persistent; remaining = 0 })
ttl_found now key node (some t) c =
    if leb t now
    then (do c' ← reclaim key node c; some (c', no_ttl))
    else some (c, record { state = expiring; remaining = remaining_ms t now })

unfoldable pub ttl : ℕ → Bytes → Cache → Option (Cache × TtlInfo)
unfolding ttl_found
ttl now key c = elim (Index.find key c.index) [
  | none ↦ some (c, no_ttl)
  | some node ↦ do e ← deref node c.list.nodes; ttl_found now key node e.expires_at c
]

unfoldable pub contains : ℕ → Bytes → Cache → Option Bool
unfolding is_expired
contains now key c = elim (Index.find key c.index) [
  | none ↦ some false
  | some node ↦ do e ← deref node c.list.nodes; some (not (is_expired now e))
]

unfoldable pub clear : Cache → Cache
clear c = record c { list = Recency.clear c.list; index = [] }

unfoldable pub export_list : ℕ → List Entry → List EntrySnapshot
unfolding remaining_ms
export_list now [] = []
export_list now (e ∷ es) =
    let rest = export_list now es in
    elim e.expires_at [
      | none ↦ record { key = e.key; value = e.value; remaining_ttl = none } ∷ rest
      | some deadline ↦
          if leb deadline now
          then rest
          else record {
            key = e.key;
            value = e.value;
            remaining_ttl = some (remaining_ms deadline now);
          }
            ∷ rest
    ]

unfoldable pub export_entries : ℕ → Cache → List EntrySnapshot
unfolding export_list
export_entries now c = export_list now (entries c.list.nodes)

unfoldable pub keys_by_recency : Cache → List Bytes
keys_by_recency c = map (λ e. e.key) (entries c.list.nodes)
