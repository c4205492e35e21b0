-- ===== src/SyncCache/History.antt =====
-- The history of the calls, and what holds of it between the steps of the threads.
use mathlib.Core.Path.{subst}
use cache_x.Base.{
  ℕ, ◌≡◌, refl, ap, sym, ◌∙◌, List, [], ◌∷◌, ◌++◌, map, none, some, true, false, ◌==◌, ==_iff, ◌⊎◌,
  if◌then◌else◌, arith, Bool-cases, Option-cases, inl, inr,
}
use cache_x.Cache.{Cache}
use cache_x.Cache.Op
use cache_x.Cache.Op.{Op, Reply}
use cache_x.SyncCache.{Phase, outside, locked, working, leaving, Thread, Event, SyncCache, update}

abbrev pub timed : List Event → List (ℕ × Op)
timed = map (λ e. (e.now, e.op))

abbrev pub replies : List Event → List Reply
replies = map (λ e. e.reply)

-- The events of one thread.
unfoldable pub events_of : ℕ → List Event → List Event
events_of i [] = []
events_of i (e ∷ es) = let rest = events_of i es in if e.thread == i then e ∷ rest else rest

abbrev pub ops : List Event → List Op
ops = map (λ e. e.op)

-- A thread inside a method holds the mutex, and the cache is as it has read it.
abbrev pub Holds : ℕ → Phase → SyncCache → Type 0
Holds i outside s = Unit {0}
Holds i locked s = s.owner ≡ some i
Holds i (working c) s = (s.owner ≡ some i) × (c ≡ s.cache)
Holds i leaving s = s.owner ≡ some i

pub record IsLinear (c : Cache) (programs : ℕ → List Op) (s : SyncCache) : Type 0 where
  pub holds : (i : ℕ) → Holds i (s.threads i).phase s
  pub sequential : Op.run (timed s.history) c ≡ some (s.cache, replies s.history)
  pub in_order : (i : ℕ) → ops (events_of i s.history) ++ (s.threads i).calls ≡ programs i
  pub answered : (i : ℕ) → (s.threads i).replies ≡ replies (events_of i s.history)

pub run-append :
    (xs : List (ℕ × Op)) (now : ℕ) (op : Op) (c c' c'' : Cache) (rs : List Reply) (r : Reply)
    → Op.run xs c ≡ some (c', rs)
    → Op.step now op c' ≡ some (c'', r)
    → Op.run (xs ++ (now, op) ∷ []) c ≡ some (c'', rs ++ r ∷ [])
unfolding Op.run
run-append [] now op c c' c'' rs r h k =
    let same : c ≡ c' = ground (arith, h) in
    let none_yet : rs ≡ [] = ground (arith, h) in
    let first : Op.step now op c ≡ some (c'', r) = ap (Op.step now op) same ∙ k in
    ground (arith, first, none_yet)
run-append ((t, x) ∷ xs) now op c c' c'' rs r h k = elim (Option-cases (Op.step t x c)) [
  | inl e ↦ absurd (ground (arith, h, e))
  | inr ((d, q), e) ↦ elim (Option-cases (Op.run xs d)) [
    | inl f ↦ absurd (ground (arith, h, e, f))
    | inr ((d', qs), f) ↦
        let same : d' ≡ c' = ground (arith, h, e, f) in
        let tail : q ∷ qs ≡ rs = ground (arith, h, e, f) in
        let more : Op.run (xs ++ (now, op) ∷ []) d ≡ some (c'', qs ++ r ∷ []) =
          run-append xs now op d c' c'' qs r (f ∙ ap (λ x. some (x, qs)) same) k in
        ground (arith, e, more, tail)
  ]
]

pub map-last {ℓ κ} :
    {A : Type ℓ} {B : Type κ} (f : A → B) (xs : List A) (x : A)
    → map f (xs ++ x ∷ []) ≡ map f xs ++ f x ∷ []
map-last f [] x = refl
map-last f (y ∷ xs) x = ap (◌∷◌ (f y)) (map-last f xs x)

pub events_of-last :
    (i : ℕ) (es : List Event) (e : Event)
    → events_of i (es ++ e ∷ [])
      ≡ (if e.thread == i then events_of i es ++ e ∷ [] else events_of i es)
unfolding events_of
events_of-last i [] e = ground arith
events_of-last i (d ∷ es) e = ground (arith, events_of-last i es e)

-- What a step of the thread `i` leaves to another.
update_self : (f : ℕ → Thread) (i : ℕ) (t : Thread) → update f i t i ≡ t
update_self f i t = ground (arith, (==_iff i i).1 refl)

update-ne : (f : ℕ → Thread) (i j : ℕ) (t : Thread) → (i == j) ≡ false → update f i t j ≡ f j
update-ne f i j t h = ground (arith, h)

pub phase_calls :
    (f : ℕ → Thread) (i j : ℕ) (p : Phase)
    → ((update f i (record (f i) { phase = p }) j).calls ≡ (f j).calls)
      × ((update f i (record (f i) { phase = p }) j).replies ≡ (f j).replies)
phase_calls f i j p = elim (Bool-cases (i == j)) [
  | inl same ↦
      let eq : i ≡ j = (==_iff i j).0 same in
      let calls : (f i).calls ≡ (f j).calls = ap (λ k. (f k).calls) eq in
      let told : (f i).replies ≡ (f j).replies = ap (λ k. (f k).replies) eq in
      (ground (arith, same, calls), ground (arith, same, told))
  | inr other ↦ (ground (arith, other), ground (arith, other))
]

-- Nobody but the owner is inside a method.
others_outside :
    (i j : ℕ) (p : Phase) (s : SyncCache)
    → (s.owner ≡ none) ⊎ (s.owner ≡ some i)
    → (i == j) ≡ false
    → Holds j p s
    → p ≡ outside
others_outside i j outside s o ne h = refl
others_outside i j locked s (inl o) ne h = absurd (ground (arith, o, h))
others_outside i j locked s (inr o) ne h = absurd (ground (arith, o, h, ne))
others_outside i j (working c) s (inl o) ne h = absurd (ground (arith, o, h.0))
others_outside i j (working c) s (inr o) ne h = absurd (ground (arith, o, h.0, ne))
others_outside i j leaving s (inl o) ne h = absurd (ground (arith, o, h))
others_outside i j leaving s (inr o) ne h = absurd (ground (arith, o, h, ne))

-- A step of the thread `i`, which has the mutex or takes it.
pub Holds-step :
    (i : ℕ) (t : Thread) (s s' : SyncCache)
    → ((j : ℕ) → s'.threads j ≡ update s.threads i t j)
    → (s.owner ≡ none) ⊎ (s.owner ≡ some i)
    → Holds i t.phase s'
    → ((j : ℕ) → Holds j (s.threads j).phase s)
    → (j : ℕ) → Holds j (s'.threads j).phase s'
Holds-step i t s s' threads o mine h j = elim (Bool-cases (i == j)) [
  | inl same ↦
      let eq : i ≡ j = (==_iff i j).0 same in
      let it : t ≡ s'.threads j = sym (update-at j same ∙ refl) in
      subst (λ k. Holds k (s'.threads j).phase s') eq
        (subst (λ (u : Thread). Holds i u.phase s') it mine)
  | inr other ↦
      let out : (s.threads j).phase ≡ outside =
        others_outside i j (s.threads j).phase s o other (h j) in
      let out' : (s'.threads j).phase ≡ outside =
        ap (λ (u : Thread). u.phase) (threads j ∙ update-ne s.threads i j t other) ∙ out in
      subst (λ p. Holds j p s') (sym out') tt
]
  where
    update-at : (k : ℕ) → (i == k) ≡ true → s'.threads k ≡ t
    update-at k same = threads k ∙ ground (arith, same)
