-- ===== src/Cache/Refine.antt =====
-- `Cache::store` and `Cache::set` do what the list of `Model` does: no dangling iterator is met, and
-- the invariant is kept.
use cache_x.Base.{
  take_self, ℕ, suc, ◌-◌, ◌≡◌, refl, sym, ap, ◌∙◌, List, [], ◌∷◌, Option, none, some, Bytes,
  Bool-cases, Option-cases, inl, inr, ◌>>=◌, length, arith, leb,
}
use cache_x.Index
use cache_x.Recency
use cache_x.Recency.{Entry, Node, Iterator, deref, unlink, overwrite, entries, mark_used}
use cache_x.Recency.Laws.{lookup-locate-none}
use cache_x.Cache.{Cache, insert_entry, store}
use cache_x.Cache.Model.{push, put}
use cache_x.Cache.Valid.{Within, IsValid, view, Implements}
use cache_x.Cache.Steps.{entries-unlinked, moved, inserted, inserted-IsConsistent}
use cache_x.Cache.Found.{lookup_node, moved-IsValid, update_entry_lem}
use cache_x.Cache.Trim.{increments, IsTrimmed, trim-IsTrimmed}

abbrev pub no_result : Option Cache → Option (Cache × Unit {0})
no_result c = do c' ← c; some (c', tt)

pub length-entries : (ns : List Node) → length (entries ns) ≡ length ns
unfolding entries
length-entries [] = refl
length-entries (n ∷ ns) = ap suc (length-entries ns)

push-trimmed :
    (e : Entry) (c c₁ c' : Cache) (cap : Option ℕ)
    → c.capacity ≡ cap
    → Within cap (length c.list.nodes)
    → c₁.capacity ≡ c.capacity
    → c₁.evictions ≡ c.evictions
    → c₁.expired_removals ≡ c.expired_removals
    → length c₁.list.nodes ≡ suc (length c.list.nodes)
    → entries c₁.list.nodes ≡ e ∷ entries c.list.nodes
    → IsTrimmed c₁ c'
    → view c' ≡ push e (view c)
unfolding push increments
push-trimmed e c c₁ c' none ec w cap ev ex len es t =
    ground (arith, t.newest, t.evictions, t.capacity, t.expired_removals)
push-trimmed e c c₁ c' (some n) ec w cap ev ex len es t =
    elim (Bool-cases (leb (suc (length c.list.nodes)) n)) [
      | inl fits ↦
          let small : length c₁.list.nodes - n ≡ 0 = ground arith in
          ground (
            arith,
            t.newest,
            t.evictions,
            t.capacity,
            t.expired_removals,
            small,
            fits,
            length-entries c.list.nodes,
            length-entries c₁.list.nodes,
            take_self n (e ∷ entries c.list.nodes),
          )
      | inr full ↦
          let one : length c₁.list.nodes - n ≡ suc 0 = ground arith in
          ground (
            arith,
            t.newest,
            t.evictions,
            t.capacity,
            t.expired_removals,
            one,
            full,
            length-entries c.list.nodes,
          )
    ]

module _ (key value : Bytes) (x : Option ℕ) where
  abbrev new_entry : Entry
  new_entry = record { key = key; value = value; expires_at = x }

  pub store-Implements :
      (c : Cache)
      → IsValid c
      → Implements (no_result (store key value x c)) (put new_entry (view c), tt)
  unfolding store put entries insert_entry Recency.insert_newest
  store-Implements c h = elim (Option-cases (Index.find key c.index)) [
    | inr (node, found) ↦ record {
      cache = moved key node c h.consistent found new_entry refl;
      defined = ground (arith, found, update_entry_lem key node c h found value x);
      valid = moved-IsValid key node c h found new_entry refl;
      same =
          ground
            (arith, lookup_node key node c h found, entries-unlinked key node c h.consistent found);
    }
    | inl absent ↦
        let c₁ = inserted c h.consistent new_entry absent in
        let (c', done, t) =
          trim-IsTrimmed (suc (length c₁.index)) c₁
            (inserted-IsConsistent c h.consistent new_entry absent) (omega arith) in
        record {
          cache = c';
          defined = ground (arith, absent, done);
          valid = record { consistent = t.consistent; within = rw t.capacity t.within };
          same = ground (
            arith,
            lookup-locate-none key c.list.nodes (sym (h.consistent.agree key) ∙ absent),
            push-trimmed new_entry c c₁ c' c.capacity refl h.within refl refl refl refl refl t,
          );
        }
  ]
