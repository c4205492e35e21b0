-- ===== src/Index.antt =====
-- `std::unordered_map<std::string, Iterator>` as `Cache::index_` uses it (include/cachex/cache.hpp):
-- find, emplace, erase, clear and size. The iteration order is never observed, so the map is an
-- association list.
pub mod Laws
use cache_x.Base.{List, [], ◌∷◌, Option, none, some, Bytes, bytes_eq, if◌then◌else◌, ◌≡◌}

abbrev pub Index {ℓ} : Type ℓ → Type ℓ
Index V = List (Bytes × V)

module _ {ℓ} {V : Type ℓ} where
  unfoldable pub find : Bytes → Index V → Option V
  find k [] = none
  find k ((j, v) ∷ m) = if bytes_eq j k then some v else find k m

  -- `emplace` of a key that is absent; of a key that is present it changes nothing.
  unfoldable pub emplace : Bytes → V → Index V → Index V
  unfolding find
  emplace k v m = elim (find k m) [ none ↦ (k, v) ∷ m | some _ ↦ m ]

  unfoldable pub erase : Bytes → Index V → Index V
  erase k [] = []
  erase k ((j, v) ∷ m) = let rest = erase k m in if bytes_eq j k then m else (j, v) ∷ rest

  -- Every key has one entry.
  abbrev pub Distinct : Index V → Type ℓ
  Distinct [] = Unit
  Distinct ((k, v) ∷ m) = (find k m ≡ none) × Distinct m
