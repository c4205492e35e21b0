-- ===== src/Persistence/Shares.antt =====
-- Which calls of a replay are for which shard.
use mathlib.Core.List.{reverse-append, append-nil}
use mathlib.Core.Path.{subst}
use cache_x.Base.{
  ℕ, zero, suc, ◌+◌, ◌%◌, ◌<◌, ◌≡◌, refl, ap, sym, ◌∙◌, ◌≢◌, List, [], ◌∷◌, ◌++◌, reverse, some,
  Bytes, true, false, ◌==◌, leb, length, get_elem?, arith, Option-cases, Bool-cases, inl, inr,
}
use cache_x.Recency.{Entry, entries}
use cache_x.Cache
use cache_x.Cache.{Cache, EntrySnapshot, export_list}
use cache_x.Cache.Op.{Op}
use cache_x.Cache.Keys.{AllKeys}
use cache_x.Cache.Valid.{view}
use cache_x.Sharded.{shard_hash, export_from}
use cache_x.Sharded.Shards.{is_for, calls_for}
use cache_x.Sharded.Home.{IsHome, KeysHome}
use cache_x.Persistence.Load.{replay_ops}
use cache_x.Persistence.Survive.{replay_ops-append}

abbrev AllOf : (Bytes → Type 0) → List EntrySnapshot → Type 0
AllOf P [] = Unit {0}
AllOf P (e ∷ es) = P e.key × AllOf P es

export_list-AllOf :
    (P : Bytes → Type 0) (now : ℕ) (es : List Entry) → AllKeys P es → AllOf P (export_list now es)
unfolding export_list
export_list-AllOf P now [] h = tt
export_list-AllOf P now (e ∷ es) h =
    let rest = export_list-AllOf P now es h.1 in
    elim (Option-cases e.expires_at) [
      | inl n ↦ rw n (h.0, rest)
      | inr (t, n) ↦ elim (Bool-cases (leb t now)) [
        | inl dead ↦ rw (n, dead) rest
        | inr live ↦ rw (n, live) (h.0, rest)
      ]
    ]

AllOf-append :
    (P : Bytes → Type 0) (xs ys : List EntrySnapshot) → AllOf P xs → AllOf P ys → AllOf P (xs ++ ys)
AllOf-append P [] ys h k = k
AllOf-append P (x ∷ xs) ys h k = (h.0, AllOf-append P xs ys h.1 k)

AllOf-reverse : (P : Bytes → Type 0) (xs : List EntrySnapshot) → AllOf P xs → AllOf P (reverse xs)
AllOf-reverse P [] h = tt
AllOf-reverse P (x ∷ xs) h =
    subst (AllOf P) (sym (reverse-append (x ∷ []) xs))
      (AllOf-append P (reverse xs) (x ∷ []) (AllOf-reverse P xs h.1) (h.0, tt))

module _ (std_hash : Bytes → ℕ) where
  calls_for-append :
      (n i : ℕ) (xs ys : List (ℕ × Op))
      → calls_for std_hash n i (xs ++ ys) ≡ calls_for std_hash n i xs ++ calls_for std_hash n i ys
  unfolding calls_for
  calls_for-append n i [] ys = refl
  calls_for-append n i ((now, op) ∷ xs) ys = ground (arith, calls_for-append n i xs ys)

  -- All of a replay is for the shard where its keys belong, and nothing of it for another.
  calls_for_home :
      (n i : ℕ) (clock : ℕ → ℕ) (j elapsed : ℕ) (es : List EntrySnapshot)
      → AllOf (IsHome std_hash n i) es
      → calls_for std_hash n i (replay_ops clock j elapsed es) ≡ replay_ops clock j elapsed es
  unfolding calls_for replay_ops is_for
  calls_for_home n i clock j elapsed [] h = refl
  calls_for_home n i clock j elapsed (e ∷ es) h =
      let home : (shard_hash std_hash e.key % n == i) ≡ true = ground (arith, h.0) in
      ground (arith, home, calls_for_home n i clock (j + 1) elapsed es h.1)

  calls_for_other :
      (n i k : ℕ) (clock : ℕ → ℕ) (j elapsed : ℕ) (es : List EntrySnapshot)
      → i ≢ k
      → AllOf (IsHome std_hash n k) es
      → calls_for std_hash n i (replay_ops clock j elapsed es) ≡ []
  unfolding calls_for replay_ops is_for
  calls_for_other n i k clock j elapsed [] ne h = refl
  calls_for_other n i k clock j elapsed (e ∷ es) ne h =
      let other : (shard_hash std_hash e.key % n == i) ≡ false = ground (arith, h.0, ne) in
      ground (arith, other, calls_for_other n i k clock (j + 1) elapsed es ne h.1)

  abbrev pub snapshot_at : (ℕ → ℕ) → ℕ → Cache → List EntrySnapshot
  snapshot_at clk i c = Cache.export_entries (clk i) c

  snapshot_at-IsHome :
      (n i : ℕ) (clk : ℕ → ℕ) (c : Cache)
      → AllKeys (IsHome std_hash n i) (view c).items
      → AllOf (IsHome std_hash n i) (reverse (snapshot_at clk i c))
  unfolding Cache.export_entries
  snapshot_at-IsHome n i clk c h =
      AllOf-reverse (IsHome std_hash n i) (export_list (clk i) (entries c.list.nodes))
        (export_list-AllOf (IsHome std_hash n i) (clk i) (entries c.list.nodes) h)

  -- The replay of a row of shards: the last of them comes first.
  replay_ops-row :
      (clk clock : ℕ → ℕ) (i j elapsed : ℕ) (c : Cache) (cs : List Cache)
      → replay_ops clock j elapsed (reverse (export_from clk i (c ∷ cs)))
        ≡ replay_ops clock j elapsed (reverse (export_from clk (i + 1) cs))
          ++ replay_ops clock
              (length (reverse (export_from clk (i + 1) cs)) + j)
              elapsed
              (reverse (snapshot_at clk i c))
  unfolding export_from
  replay_ops-row clk clock i j elapsed c cs =
      ap (replay_ops clock j elapsed)
        (reverse-append (snapshot_at clk i c) (export_from clk (i + 1) cs))
      ∙ replay_ops-append clock j elapsed (reverse (export_from clk (i + 1) cs))
          (reverse (snapshot_at clk i c))

  calls_for_later :
      (n m : ℕ) (clk clock : ℕ → ℕ) (i j elapsed : ℕ) (cs : List Cache)
      → m < i
      → KeysHome std_hash n i cs
      → calls_for std_hash n m (replay_ops clock j elapsed (reverse (export_from clk i cs))) ≡ []
  unfolding export_from replay_ops calls_for
  calls_for_later n m clk clock i j elapsed [] h k = refl
  calls_for_later n m clk clock i j elapsed (c ∷ cs) h k =
      let at = length (reverse (export_from clk (i + 1) cs)) + j in
      let first =
        calls_for_later n m clk clock (i + 1) j elapsed cs (omega arith) (rw_home n i cs k.1) in
      let last =
        calls_for_other n m i clock at elapsed (reverse (snapshot_at clk i c)) (λ e. omega arith)
          (snapshot_at-IsHome n i clk c k.0) in
      ap (calls_for std_hash n m) (replay_ops-row clk clock i j elapsed c cs)
      ∙ calls_for-append n m (replay_ops clock j elapsed (reverse (export_from clk (i + 1) cs)))
          (replay_ops clock at elapsed (reverse (snapshot_at clk i c)))
      ∙ cc (first, last)
    where
      rw_home :
          (n i : ℕ) (cs : List Cache)
          → KeysHome std_hash n (suc i) cs
          → KeysHome std_hash n (i + 1) cs
      rw_home n i cs h = subst (λ a. KeysHome std_hash n a cs) (omega arith) h

  -- The calls for the shard that is `m` behind the first are a replay of its own entries.
  pub calls_for_own :
      (n m : ℕ) (clk clock : ℕ → ℕ) (i j elapsed : ℕ) (cs : List Cache) (c : Cache)
      → KeysHome std_hash n i cs
      → get_elem? cs m ≡ some c
      → (at : ℕ) × (calls_for std_hash n
            (m + i)
            (replay_ops clock j elapsed (reverse (export_from clk i cs)))
          ≡ replay_ops clock at elapsed (reverse (snapshot_at clk (m + i) c)))
  calls_for_own n m clk clock i j elapsed [] c k held = absurd (ground (arith, held))
  calls_for_own n zero clk clock i j elapsed (d ∷ cs) c k held =
      let same : d ≡ c = ground (arith, held) in
      let here : 0 + i ≡ i = omega arith in
      let at = length (reverse (export_from clk (i + 1) cs)) + j in
      let next : KeysHome std_hash n (i + 1) cs =
        subst (λ a. KeysHome std_hash n a cs) (omega arith) k.1 in
      let first = calls_for_later n i clk clock (i + 1) j elapsed cs (omega arith) next in
      let last =
        calls_for_home n i clock at elapsed (reverse (snapshot_at clk i d))
          (snapshot_at-IsHome n i clk d k.0) in
      (
        at,
        ap
              (λ a.
                calls_for std_hash n a
                  (replay_ops clock j elapsed (reverse (export_from clk i (d ∷ cs)))))
              here
            ∙ ap (calls_for std_hash n i) (replay_ops-row clk clock i j elapsed d cs)
            ∙ calls_for-append n i
                (replay_ops clock j elapsed (reverse (export_from clk (i + 1) cs)))
                (replay_ops clock at elapsed (reverse (snapshot_at clk i d)))
            ∙ cc (first, last)
            ∙ ap (λ x. replay_ops clock at elapsed (reverse (snapshot_at clk i x))) same
            ∙ ap (λ a. replay_ops clock at elapsed (reverse (snapshot_at clk a c))) (sym here),
      )
  calls_for_own n (suc m) clk clock i j elapsed (d ∷ cs) c k held =
      let there : m + (i + 1) ≡ suc m + i = omega arith in
      let at = length (reverse (export_from clk (i + 1) cs)) + j in
      let next : KeysHome std_hash n (i + 1) cs =
        subst (λ a. KeysHome std_hash n a cs) (omega arith) k.1 in
      let (own, first) = calls_for_own n m clk clock (i + 1) j elapsed cs c next held in
      let last =
        calls_for_other n (suc m + i) i clock at elapsed (reverse (snapshot_at clk i d))
          (λ e. omega arith) (snapshot_at-IsHome n i clk d k.0) in
      (
        own,
        ap (calls_for std_hash n (suc m + i)) (replay_ops-row clk clock i j elapsed d cs)
            ∙ calls_for-append n (suc m + i)
                (replay_ops clock j elapsed (reverse (export_from clk (i + 1) cs)))
                (replay_ops clock at elapsed (reverse (snapshot_at clk i d)))
            ∙ ap
                (λ xs.
                  calls_for std_hash n (suc m + i)
                    (replay_ops clock j elapsed (reverse (export_from clk (i + 1) cs)))
                  ++ xs)
                last
            ∙ append-nil (
                calls_for std_hash n (suc m + i)
                  (replay_ops clock j elapsed (reverse (export_from clk (i + 1) cs))))
            ∙ ap
                (λ a.
                  calls_for std_hash n a
                    (replay_ops clock j elapsed (reverse (export_from clk (i + 1) cs))))
                (sym there)
            ∙ first
            ∙ ap (λ a. replay_ops clock own elapsed (reverse (snapshot_at clk a c))) there,
      )
