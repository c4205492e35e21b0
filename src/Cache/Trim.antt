-- ===== src/Cache/Trim.antt =====
-- The eviction loop of `Cache::store`: it ends, for every capacity, and keeps the newest entries.
use cache_x.Base.{
  ℕ, zero, suc, ◌-◌, ◌≤◌, ◌<◌, ◌≡◌, refl, ap, ◌∙◌, List, [], ◌∷◌, Option, none, some, true, false,
  Bool-cases, inl, inr, length, take, arith,
}
use cache_x.Recency.{Entry, Node, entries, back, drop_back}
use cache_x.Recency.Laws.{back-cons}
use cache_x.Cache.{Cache, increment, trim, over_capacity, size}
use cache_x.Cache.Valid.{IsConsistent, Within}
use cache_x.Cache.Steps.{evict_oldest_lem}

-- The first entries, as many as the capacity allows, and the number of the others.
abbrev pub fit {ℓ} : {A : Type ℓ} → Option ℕ → List A → List A
fit none es = es
fit (some n) es = take n es

abbrev pub excess : Option ℕ → ℕ → ℕ
excess none n = 0
excess (some capacity) n = n - capacity

-- The counter after a number of increments.
unfoldable pub increments : ℕ → ℕ → ℕ
increments zero n = n
increments (suc k) n = increments k (increment n)

length-drop_back : (n : Node) (ns : List Node) → length (drop_back (n ∷ ns)) ≡ length ns
unfolding drop_back
length-drop_back n [] = refl
length-drop_back n (m ∷ ns) = ap suc (length-drop_back m ns)

take-drop_back :
    (k : ℕ) (ns : List Node) → k < length ns → take k (entries (drop_back ns)) ≡ take k (entries ns)
unfolding drop_back entries
take-drop_back k [] h = absurd (omega arith)
take-drop_back zero (n ∷ ns) h = refl
take-drop_back (suc k) (n ∷ []) h = absurd (omega arith)
take-drop_back (suc k) (n ∷ m ∷ ns) h = ap (◌∷◌ n.entry) (take-drop_back k (m ∷ ns) (omega arith))

take-entries : (k : ℕ) (ns : List Node) → length ns ≤ k → take k (entries ns) ≡ entries ns
unfolding entries
take-entries zero [] h = refl
take-entries (suc k) [] h = refl
take-entries zero (n ∷ ns) h = absurd (omega arith)
take-entries (suc k) (n ∷ ns) h = ap (◌∷◌ n.entry) (take-entries k ns (omega arith))

-- What the loop leaves of a cache.
pub record IsTrimmed (c c' : Cache) : Type 0 where
  pub consistent : IsConsistent c'
  pub capacity : c'.capacity ≡ c.capacity
  pub within : Within c.capacity (length c'.list.nodes)
  pub newest : entries c'.list.nodes ≡ fit c.capacity (entries c.list.nodes)
  pub evictions : c'.evictions ≡ increments (excess c.capacity (length c.list.nodes)) c.evictions
  pub expired_removals : c'.expired_removals ≡ c.expired_removals

IsTrimmed-self :
    (c : Cache) (cap : Option ℕ)
    → c.capacity ≡ cap
    → IsConsistent c
    → over_capacity c ≡ false
    → IsTrimmed c c
unfolding over_capacity increments
IsTrimmed-self c none e h full = record {
  consistent = h;
  capacity = refl;
  within = ground arith;
  newest = ground arith;
  evictions = ground arith;
  expired_removals = refl;
}
IsTrimmed-self c (some n) e h full =
    let small : length c.list.nodes ≤ n = ground (arith, h.sizes) in
    let kept : length c.list.nodes - n ≡ 0 = omega arith in
    record {
      consistent = h;
      capacity = refl;
      within = ground arith;
      newest = ground (arith, take-entries n c.list.nodes small);
      evictions = ground (arith, kept);
      expired_removals = refl;
    }

-- A cache over its capacity has a node to evict.
has_oldest :
    (c : Cache) (n : ℕ) (ns : List Node)
    → c.list.nodes ≡ ns
    → n < length ns
    → (v : Entry) × (back ns ≡ some v) × (length (drop_back ns) ≡ length ns - 1)
has_oldest c n [] e h = absurd (omega arith)
has_oldest c n (m ∷ ns) e h =
    let (v, last) = back-cons m ns in (v, last, omega (arith, length-drop_back m ns))

over_lem :
    (c : Cache)
    → IsConsistent c
    → over_capacity c ≡ true
    → (n : ℕ) × (c.capacity ≡ some n) × (n < length c.list.nodes)
unfolding over_capacity size
over_lem c h full = go c.capacity refl
  where
    go :
        (cap : Option ℕ)
        → c.capacity ≡ cap
        → (n : ℕ) × (c.capacity ≡ some n) × (n < length c.list.nodes)
    go none e = absurd (ground arith)
    go (some n) e = (n, e, ground (arith, h.sizes))

IsTrimmed-step :
    (c c₁ c' : Cache) (n : ℕ)
    → c.capacity ≡ some n
    → n < length c.list.nodes
    → c₁.list.nodes ≡ drop_back c.list.nodes
    → length (drop_back c.list.nodes) ≡ length c.list.nodes - 1
    → c₁.capacity ≡ c.capacity
    → c₁.evictions ≡ increment c.evictions
    → c₁.expired_removals ≡ c.expired_removals
    → IsTrimmed c₁ c'
    → IsTrimmed c c'
unfolding increments
IsTrimmed-step c c₁ c' n cap more nodes shorter cap₁ ev₁ ex₁ t =
    let one : length c.list.nodes - n ≡ suc (length c₁.list.nodes - n) = rw nodes (omega arith) in
    record {
      consistent = t.consistent;
      capacity = t.capacity ∙ cap₁;
      within = rw (cap₁) at t.within;
      newest = t.newest ∙ (rw (cap₁, nodes, cap) (take-drop_back n c.list.nodes more));
      evictions = t.evictions ∙ (rw (cap₁, cap, one, ev₁));
      expired_removals = t.expired_removals ∙ ex₁;
    }

-- With more fuel than entries the loop ends, within the capacity.
pub trim-IsTrimmed :
    (fuel : ℕ) (c : Cache)
    → IsConsistent c
    → length c.index < fuel
    → (c' : Cache) × (trim fuel c ≡ some c') × IsTrimmed c c'
unfolding trim
trim-IsTrimmed zero c h f = absurd (omega arith)
trim-IsTrimmed (suc fuel) c h f = elim (Bool-cases (over_capacity c)) [
  | inl full ↦
      let (n, cap, more) = over_lem c h full in
      let (v, last, shorter) = has_oldest c n c.list.nodes refl more in
      let (c₁, step, h₁, nodes, cap₁, ev₁, ex₁) = evict_oldest_lem c h v last in
      let fewer : length c₁.index ≡ length c.list.nodes - 1 =
        ground (arith, h₁.sizes, nodes, shorter) in
      let (c', rest, t) = trim-IsTrimmed fuel c₁ h₁ (omega (arith, h.sizes)) in
      (
        c',
        ground (arith, full, step, rest),
        IsTrimmed-step c c₁ c' n cap more nodes shorter cap₁ ev₁ ex₁ t,
      )
  | inr fits ↦ (c, ground (arith, fits), IsTrimmed-self c c.capacity refl h fits)
]
