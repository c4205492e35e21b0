-- ===== src/Cache/Reads.antt =====
-- `erase`, `get`, `get_into`, `ttl` and `contains` do what the list of `Model` does.
use cache_x.Base.{
  ℕ, ◌≡◌, sym, ◌∙◌, Option, none, some, Bytes, Bool-cases, Option-cases, inl, inr, arith,
}
use cache_x.Index
use cache_x.Recency.{Iterator, deref, entries}
use cache_x.Recency.Laws.{lookup-locate-none}
use cache_x.Recency.Order.{lookup}
use cache_x.Cache.{Cache, increment, is_expired, erase, get, get_into, ttl, contains}
use cache_x.Cache.Model.{value_of, copied, is_live, Lru, live, discard, read, query}
use cache_x.Cache.Valid.{IsValid, view, Implements}
use cache_x.Cache.Steps.{unlinked, entries-unlinked, remove_lem, moved}
use cache_x.Cache.Found.{
  at_node, lookup_node, unlinked-IsValid, moved-IsValid, reclaim_lem, mark_used_lem,
}

unchanged :
    {R : Type 0} {c : Cache} {done : Option (Cache × R)} {s : Lru × R}
    → IsValid c
    → done ≡ some (c, s.1)
    → view c ≡ s.0
    → Implements done s
unchanged {c = c} h defined same = record { cache = c; defined = defined; valid = h; same = same }

module _ (key : Bytes) (node : Iterator) (c : Cache) (h : IsValid c)
    (found : Index.find key c.index ≡ some node) where
  abbrev expired_cache : Cache
  expired_cache = record (unlinked key node c h.consistent found) {
    expired_removals = increment c.expired_removals;
  }

  reclaimed :
      {R : Type 0} {done : Option (Cache × R)} {s : Lru × R}
      → done ≡ some (expired_cache, s.1)
      → view expired_cache ≡ s.0
      → Implements done s
  reclaimed defined same =
      let v = unlinked-IsValid key node c h found in
      let k = v.consistent in
      record {
        cache = expired_cache;
        defined = defined;
        valid = record {
          consistent = record {
            list = k.list;
            distinct = k.distinct;
            agree = k.agree;
            sizes = k.sizes;
          };
          within = v.within;
        };
        same = same;
      }

module _ (now : ℕ) (key : Bytes) (c : Cache) (h : IsValid c) where
  absent_lookup : Index.find key c.index ≡ none → lookup key (entries c.list.nodes) ≡ none
  absent_lookup absent = lookup-locate-none key c.list.nodes (sym (h.consistent.agree key) ∙ absent)

  pub erase-Implements : Implements (erase now key c) (discard now key (view c))
  unfolding erase discard
  erase-Implements = elim (Option-cases (Index.find key c.index)) [
    | inl absent ↦
        unchanged h (ground (arith, absent, absent_lookup absent))
          (ground (arith, absent_lookup absent))
    | inr (node, found) ↦
        let (e, at, same) = at_node key node c h found in
        let seen = lookup_node key node c h found in
        let gone = entries-unlinked key node c h.consistent found in
        elim (Bool-cases (is_expired now e)) [
          | inl dead ↦
              reclaimed key node c h found
                (ground (arith, found, at, dead, seen, reclaim_lem key node c h found))
                (ground (arith, seen, dead, gone))
          | inr alive ↦ record {
            cache = unlinked key node c h.consistent found;
            defined =
                ground (arith, found, at, alive, seen, remove_lem key node c h.consistent found);
            valid = unlinked-IsValid key node c h found;
            same = ground (arith, seen, alive, gone);
          }
        ]
  ]

  pub get-Implements :
      Implements (get now key c) ((read now key (view c)).0, value_of (read now key (view c)).1)
  unfolding get read entries deref
  get-Implements = elim (Option-cases (Index.find key c.index)) [
    | inl absent ↦
        unchanged h (ground (arith, absent, absent_lookup absent))
          (ground (arith, absent_lookup absent))
    | inr (node, found) ↦
        let (e, at, same) = at_node key node c h found in
        let seen = lookup_node key node c h found in
        let gone = entries-unlinked key node c h.consistent found in
        elim (Bool-cases (is_expired now e)) [
          | inl dead ↦
              reclaimed key node c h found
                (ground (arith, found, at, dead, seen, reclaim_lem key node c h found))
                (ground (arith, seen, dead, gone))
          | inr alive ↦ record {
            cache = moved key node c h.consistent found e same;
            defined = ground (arith, found, at, alive, seen, mark_used_lem key node c h found);
            valid = moved-IsValid key node c h found e same;
            same = ground (arith, seen, alive, gone);
          }
        ]
  ]

  pub get_into-Implements :
      (out : Bytes)
      → Implements
          (get_into now key out c)
          ((read now key (view c)).0, copied out (read now key (view c)).1)
  unfolding get_into read entries deref
  get_into-Implements out = elim (Option-cases (Index.find key c.index)) [
    | inl absent ↦
        unchanged h (ground (arith, absent, absent_lookup absent))
          (ground (arith, absent_lookup absent))
    | inr (node, found) ↦
        let (e, at, same) = at_node key node c h found in
        let seen = lookup_node key node c h found in
        let gone = entries-unlinked key node c h.consistent found in
        elim (Bool-cases (is_expired now e)) [
          | inl dead ↦
              reclaimed key node c h found
                (ground (arith, found, at, dead, seen, reclaim_lem key node c h found))
                (ground (arith, seen, dead, gone))
          | inr alive ↦ record {
            cache = moved key node c h.consistent found e same;
            defined = ground (arith, found, at, alive, seen, mark_used_lem key node c h found);
            valid = moved-IsValid key node c h found e same;
            same = ground (arith, seen, alive, gone);
          }
        ]
  ]

  pub ttl-Implements : Implements (ttl now key c) (query now key (view c))
  unfolding ttl query is_expired
  ttl-Implements = elim (Option-cases (Index.find key c.index)) [
    | inl absent ↦
        unchanged h (ground (arith, absent, absent_lookup absent))
          (ground (arith, absent_lookup absent))
    | inr (node, found) ↦
        let (e, at, same) = at_node key node c h found in
        let seen = lookup_node key node c h found in
        let gone = entries-unlinked key node c h.consistent found in
        elim (Bool-cases (is_expired now e)) [
          | inl dead ↦
              reclaimed key node c h found
                (ground (arith, found, at, dead, seen, reclaim_lem key node c h found))
                (ground (arith, seen, dead, gone))
          | inr alive ↦ record {
            cache = c;
            defined = ground (arith, found, at, alive, seen);
            valid = h;
            same = ground (arith, seen, alive);
          }
        ]
  ]

  pub contains-live : contains now key c ≡ some (is_live (live now key (view c)))
  unfolding contains live
  contains-live = elim (Option-cases (Index.find key c.index)) [
    | inl absent ↦ ground (arith, absent, absent_lookup absent)
    | inr (node, found) ↦
        let (e, at, same) = at_node key node c h found in
        let seen = lookup_node key node c h found in ground (arith, found, at, seen)
  ]
