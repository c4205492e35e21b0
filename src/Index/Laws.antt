-- ===== src/Index/Laws.antt =====
-- The laws of `find`, `emplace` and `erase`.
use cache_x.Base.{
  suc, [], ◌∷◌, none, some, Bytes, bytes_eq, bytes_eq_iff, if◌then◌else◌, ◌≡◌, length, arith,
}
use cache_x.Index.{Index, find, emplace, erase, Distinct}

module _ {ℓ} {V : Type ℓ} where
  pub find-emplace :
      (k j : Bytes) (v : V) (m : Index V)
      → find k m ≡ none
      → find j (emplace k v m) ≡ (if bytes_eq k j then some v else find j m)
  unfolding emplace
  find-emplace k j v m absent = ground arith

  pub emplace-Distinct : (k : Bytes) (v : V) (m : Index V) → Distinct m → Distinct (emplace k v m)
  unfolding emplace
  emplace-Distinct k v m d = ground arith

  pub length-emplace :
      (k : Bytes) (v : V) (m : Index V) → find k m ≡ none → length (emplace k v m) ≡ suc (length m)
  unfolding emplace
  length-emplace k v m absent = ground arith

  pub find-erase :
      (k j : Bytes) (m : Index V)
      → Distinct m
      → find j (erase k m) ≡ (if bytes_eq k j then none else find j m)
  unfolding find erase
  find-erase k j [] d = ground arith
  find-erase k j ((i, v) ∷ m) d =
      ground (arith, bytes_eq_iff i k, bytes_eq_iff i j, bytes_eq_iff k j, find-erase k j m d.1)

  pub erase-Distinct : (k : Bytes) (m : Index V) → Distinct m → Distinct (erase k m)
  unfolding find erase
  erase-Distinct k [] d = d
  erase-Distinct k ((i, v) ∷ m) d = ground (arith, find-erase k i m d.1, erase-Distinct k m d.1)

  pub length-erase :
      (k : Bytes) (v : V) (m : Index V) → find k m ≡ some v → suc (length (erase k m)) ≡ length m
  unfolding find erase
  length-erase k v [] h = ground arith
  length-erase k v ((i, w) ∷ m) h = ground (arith, length-erase k v m)
