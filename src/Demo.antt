-- ===== src/Demo.antt =====
-- src/main.cpp: the demonstration, as the text that it prints. `clock` gives the instants at which the
-- calls of the cache read the steady clock, by their number. `none` is undefined behaviour in the
-- cache.
mod Tests
use cache_x.Base.{
  ℕ, List, [], ◌∷◌, ◌++◌, Option, none, some, Bytes, codes, Bool, true, false, pos, ◌>>=◌,
}
use cache_x.Decimal.{print_ℕ}
use cache_x.Cache
use cache_x.Cache.{
  Cache, TtlInfo, TtlState, missing, persistent, expiring, unbounded, bounded, keys_by_recency,
}

abbrev or_nil : Option Bytes → Bytes
or_nil none = codes "(nil)"
or_nil (some value) = value

unfoldable pub print : Bytes → Option Bytes → Bytes
print label value = codes "  " ++ label ++ codes " -> " ++ or_nil value ++ 10 ∷ []

unfoldable pub spaced : List Bytes → Bytes
spaced [] = []
spaced (key ∷ keys) = key ++ codes " " ++ spaced keys

unfoldable pub print_order : Cache → Bytes
unfolding spaced
print_order c = codes "  order (newest first): " ++ spaced (keys_by_recency c) ++ 10 ∷ []

abbrev boolalpha : Bool → Bytes
boolalpha true = codes "true"
boolalpha false = codes "false"

unfoldable pub basic_operations : (ℕ → ℕ) → Option Bytes
unfolding print
basic_operations clock = do
  c₁ ← Cache.set (codes "user:1") (codes "ada") unbounded
  c₂ ← Cache.set (codes "user:2") (codes "grace") c₁
  c₃ ← Cache.set (codes "user:1") (codes "ada lovelace") c₂
  (c₄, found) ← Cache.get (clock 0) (codes "user:1") c₃
  (c₅, absent) ← Cache.get (clock 1) (codes "user:42") c₄
  (c₆, erased) ← Cache.erase (clock 2) (codes "user:2") c₅
  (c₇, again) ← Cache.erase (clock 3) (codes "user:2") c₆
  some (
      10 ∷ codes "[1] Basic operations (unbounded)"
      ++ 10 ∷ print (codes "get user:1 ") found
      ++ print (codes "get user:42") absent
      ++ codes "  erase user:2 -> "
      ++ boolalpha erased
      ++ codes ", again -> "
      ++ boolalpha again
      ++ codes ", size -> "
      ++ print_ℕ (Cache.size c₇)
      ++ 10 ∷ [])

unfoldable pub lru_eviction : (ℕ → ℕ) → Option Bytes
unfolding print_order
lru_eviction clock = do
  c₁ ← Cache.set (codes "a") (codes "1") (bounded 3)
  c₂ ← Cache.set (codes "b") (codes "2") c₁
  c₃ ← Cache.set (codes "c") (codes "3") c₂
  (c₄, _) ← Cache.get (clock 4) (codes "a") c₃
  c₅ ← Cache.set (codes "d") (codes "4") c₄
  has_b ← Cache.contains (clock 5) (codes "b") c₅
  has_a ← Cache.contains (clock 6) (codes "a") c₅
  some (
      10 ∷ codes "[2] LRU eviction (capacity 3)"
      ++ 10 ∷ print_order c₃
      ++ codes "  get(\"a\") -- reading it makes it the newest"
      ++ 10 ∷ print_order c₄
      ++ codes "  set(\"d\") -- at capacity, so the oldest (\"b\") is evicted"
      ++ 10 ∷ print_order c₅
      ++ codes "  contains b -> "
      ++ boolalpha has_b
      ++ codes ", contains a -> "
      ++ boolalpha has_a
      ++ codes ", evictions -> "
      ++ print_ℕ c₅.evictions
      ++ 10 ∷ [])

unfoldable pub describe_state : TtlState → ℕ → Bytes
describe_state missing remaining = codes "missing"
describe_state persistent remaining = codes "no expiry"
describe_state expiring remaining = print_ℕ remaining ++ codes " ms left"

unfoldable pub describe : ℕ → Bytes → Cache → Option (Cache × Bytes)
unfolding describe_state
describe now key c = do
  (c', info) ← Cache.ttl now key c
  some (
    c',
    codes "  ttl " ++ key ++ codes " -> " ++ describe_state info.state info.remaining ++ 10 ∷ [],
  )

-- The wait is over by the instant 10.
unfoldable pub lazy_expiration : (ℕ → ℕ) → Option Bytes
unfolding describe
lazy_expiration clock = do
  c₁ ← Cache.set (codes "permanent") (codes "stays") unbounded
  c₂ ← Cache.set_ttl (clock 7) (codes "fleeting") (codes "goes") (pos 50) c₁
  (c₃, text₁) ← describe (clock 8) (codes "permanent") c₂
  (c₄, text₂) ← describe (clock 9) (codes "fleeting") c₃
  (c₅, text₃) ← describe (clock 10) (codes "permanent") c₄
  (c₆, text₄) ← describe (clock 11) (codes "fleeting") c₅
  some (
      10 ∷ codes "[3] TTL (lazy expiration)"
      ++ 10 ∷ text₁
      ++ text₂
      ++ codes "  ... waiting 150 ms ..."
      ++ 10 ∷ text₃
      ++ text₄
      ++ codes "  size -> "
      ++ print_ℕ (Cache.size c₆)
      ++ codes ", expired removals -> "
      ++ print_ℕ c₆.expired_removals
      ++ 10 ∷ [])

unfoldable pub demo : Bytes → (ℕ → ℕ) → Option Bytes
demo version clock = do
  basic ← basic_operations clock
  lru ← lru_eviction clock
  ttl ← lazy_expiration clock
  some (
      codes "CacheX "
      ++ version
      ++ codes " -- in-process cache demo (no server yet)"
      ++ 10 ∷ basic
      ++ lru
      ++ ttl)
