-- ===== src/Cache/Found.antt =====
-- What the steps compute at the node that the index gives for a key, in a valid cache.
use cache_x.Base.{ℕ, ◌≡◌, refl, sym, ◌∙◌, Option, none, some, Bytes, length, arith}
use cache_x.Index
use cache_x.Recency.{Entry, Iterator, deref, unlink, entries, mark_used}
use cache_x.Recency.Laws.{
  deref-locate, deref-locate_entry, deref-overwrite_self, unlink-overwrite, length-unlink,
}
use cache_x.Recency.Order.{lookup}
use cache_x.Cache.{Cache, increment, update_entry, reclaim}
use cache_x.Cache.Valid.{Within, IsValid}
use cache_x.Cache.Steps.{
  located, unlinked, unlinked-IsConsistent, remove_lem, moved, moved-IsConsistent,
}

module _ (key : Bytes) (node : Iterator) (c : Cache) (h : IsValid c)
    (found : Index.find key c.index ≡ some node) where
  pub at_node : (e : Entry) × (deref node c.list.nodes ≡ some e) × (e.key ≡ key)
  at_node =
      deref-locate key node c.list.nodes h.consistent.list.addresses
        (located key node c h.consistent found)

  pub lookup_node : lookup key (entries c.list.nodes) ≡ some at_node.0
  lookup_node =
      sym (
        deref-locate_entry key node c.list.nodes h.consistent.list.addresses
          (located key node c h.consistent found))
      ∙ at_node.1

  pub unlinked-IsValid : IsValid (unlinked key node c h.consistent found)
  unlinked-IsValid = record {
    consistent = unlinked-IsConsistent key node c h.consistent found;
    within = fewer c.capacity h.within;
  }
    where
      fewer :
          (cap : Option ℕ)
          → Within cap (length c.list.nodes)
          → Within cap (length (unlink node c.list.nodes))
      fewer none w = tt
      fewer (some n) w = omega (arith, length-unlink node at_node.0 c.list.nodes at_node.1)

  pub moved-IsValid :
      (e : Entry) (same : e.key ≡ key) → IsValid (moved key node c h.consistent found e same)
  moved-IsValid e same = record {
    consistent = moved-IsConsistent key node c h.consistent found e same;
    within = ground (arith, length-unlink node at_node.0 c.list.nodes at_node.1, h.within);
  }

  pub reclaim_lem :
      reclaim key node c
      ≡ some (record (unlinked key node c h.consistent found) {
        expired_removals = increment c.expired_removals;
      })
  unfolding reclaim
  reclaim_lem = ground (arith, remove_lem key node c h.consistent found)

  pub mark_used_lem :
      mark_used node c.list ≡ some (moved key node c h.consistent found at_node.0 at_node.2).list
  unfolding mark_used
  mark_used_lem = ground (arith, at_node.1)

  pub update_entry_lem :
      (value : Bytes) (expires_at : Option ℕ)
      → update_entry node value expires_at c
        ≡ some (
            moved key node c h.consistent found
              (record { key = key; value = value; expires_at = expires_at })
              refl)
  unfolding update_entry mark_used
  update_entry_lem value expires_at = ground (
    arith,
    at_node.1,
    at_node.2,
    deref-overwrite_self node value expires_at at_node.0 c.list.nodes at_node.1,
    unlink-overwrite node value expires_at c.list.nodes,
  )
