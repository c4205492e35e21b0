-- ===== src/Cache/Steps.antt =====
-- The private steps of the operations: unlinking a node, moving it to the front, overwriting it,
-- inserting a node and evicting the oldest.
use cache_x.Base.{◌+◌, ◌≡◌, refl, sym, ◌∙◌, ◌∷◌, none, some, Bytes, bytes_eq_iff, arith}
use cache_x.Index
use cache_x.Index.{Index}
use cache_x.Index.Laws.{
  find-emplace, emplace-Distinct, length-emplace, find-erase, erase-Distinct, length-erase,
}
use cache_x.Recency
use cache_x.Recency.{
  Entry, Node, Iterator, RecencyList, deref, unlink, overwrite, entries, back, drop_back,
}
use cache_x.Recency.Laws.{
  locate, deref-fresh, AllBelow-suc, deref-locate, deref-unlink_self, deref-lt,
  unlink-AddressesDistinct, unlink-AllBelow, locate-unlink, unlink-KeysDistinct, length-unlink,
  drop_back-unlink, entries-unlink,
}
use cache_x.Recency.Order.{without}
use cache_x.Cache.{Cache, increment, remove, evict_oldest}
use cache_x.Cache.Valid.{IsConsistent}

module _ (key : Bytes) (node : Iterator) (c : Cache) (h : IsConsistent c)
    (found : Index.find key c.index ≡ some node) where
  pub located : locate key c.list.nodes ≡ some node
  located = sym (h.agree key) ∙ found

  -- The cache without the node of a key.
  abbrev pub unlinked : Cache
  unlinked = record c {
    list = record (c.list) { nodes = unlink node c.list.nodes };
    index = Index.erase key c.index;
  }

  pub unlinked-IsConsistent : IsConsistent unlinked
  unlinked-IsConsistent = record {
    list = record {
      addresses = unlink-AddressesDistinct node c.list.nodes h.list.addresses;
      keys = unlink-KeysDistinct node c.list.nodes h.list.keys;
      below = unlink-AllBelow c.list.fresh node c.list.nodes h.list.below;
    };
    distinct = erase-Distinct key c.index h.distinct;
    agree = λ j. ground (
      arith,
      find-erase key j c.index h.distinct,
      locate-unlink key j node c.list.nodes h.list.addresses h.list.keys located,
      h.agree j,
    );
    sizes =
        let (e, at, _) = deref-locate key node c.list.nodes h.list.addresses located in
        ground (
          arith,
          length-erase key node c.index found,
          h.sizes,
          length-unlink node e c.list.nodes at,
        );
  }

  pub entries-unlinked : entries unlinked.list.nodes ≡ without key (entries c.list.nodes)
  entries-unlinked = entries-unlink key node c.list.nodes h.list.addresses located

  pub remove_lem : remove key node c ≡ some unlinked
  unfolding remove Recency.erase
  remove_lem =
      let (e, at, same) = deref-locate key node c.list.nodes h.list.addresses located in
      ground (arith, at)

  -- The cache with the node of a key at the front, holding the entry `e`.
  module _ (e : Entry) (same : e.key ≡ key) where
    abbrev pub moved : Cache
    moved = record c {
      list = record (c.list) {
        nodes = record { address = node; entry = e } ∷ unlink node c.list.nodes;
      };
    }

    pub moved-IsConsistent : IsConsistent moved
    unfolding locate
    moved-IsConsistent =
        let (old, at, _) = deref-locate key node c.list.nodes h.list.addresses located in
        let hidden = λ (j : Bytes).
          locate-unlink key j node c.list.nodes h.list.addresses h.list.keys located in
        record {
          list = record {
            addresses = (
              deref-unlink_self node c.list.nodes h.list.addresses,
              unlink-AddressesDistinct node c.list.nodes h.list.addresses,
            );
            keys = (
              ground (arith, hidden e.key, bytes_eq_iff key e.key),
              unlink-KeysDistinct node c.list.nodes h.list.keys,
            );
            below = (
              deref-lt c.list.fresh node old c.list.nodes h.list.below at,
              unlink-AllBelow c.list.fresh node c.list.nodes h.list.below,
            );
          };
          distinct = h.distinct;
          agree =
              λ j. ground (arith, hidden j, h.agree j, bytes_eq_iff key j, bytes_eq_iff e.key j);
          sizes = ground (arith, h.sizes, length-unlink node old c.list.nodes at);
        }

module _ (c : Cache) (h : IsConsistent c) where
  -- The cache with a new node at the front.
  module _ (e : Entry) (absent : Index.find e.key c.index ≡ none) where
    abbrev pub inserted : Cache
    inserted = record c {
      list = record {
        nodes = record { address = c.list.fresh; entry = e } ∷ c.list.nodes;
        fresh = c.list.fresh + 1;
      };
      index = Index.emplace e.key c.list.fresh c.index;
    }

    pub inserted-IsConsistent : IsConsistent inserted
    unfolding locate
    inserted-IsConsistent = record {
      list = record {
        addresses = (deref-fresh c.list.fresh c.list.nodes h.list.below, h.list.addresses);
        keys = (sym (h.agree e.key) ∙ absent, h.list.keys);
        below = (omega arith, AllBelow-suc c.list.fresh c.list.nodes h.list.below);
      };
      distinct = emplace-Distinct e.key c.list.fresh c.index h.distinct;
      agree = λ j. ground (arith, find-emplace e.key j c.list.fresh c.index absent, h.agree j);
      sizes = ground (arith, length-emplace e.key c.list.fresh c.index absent, h.sizes);
    }

  -- Eviction unlinks the node at the back, by way of its key.
  pub evict_oldest_lem :
      (v : Entry)
      → back c.list.nodes ≡ some v
      → (c' : Cache) × (evict_oldest c ≡ some c')
        × IsConsistent c'
        × (c'.list.nodes ≡ drop_back c.list.nodes)
        × (c'.capacity ≡ c.capacity)
        × (c'.evictions ≡ increment c.evictions)
        × (c'.expired_removals ≡ c.expired_removals)
  unfolding evict_oldest Recency.oldest Recency.pop_oldest
  evict_oldest_lem v last =
      let (it, found, dropped) =
        drop_back-unlink v c.list.nodes h.list.addresses h.list.keys last in
      let ok = unlinked-IsConsistent v.key it c h (h.agree v.key ∙ found) in
      (
        record (unlinked v.key it c h (h.agree v.key ∙ found)) {
          evictions = increment c.evictions;
        },
        ground (arith, last, dropped),
        record { list = ok.list; distinct = ok.distinct; agree = ok.agree; sizes = ok.sizes },
        sym dropped,
        refl,
        refl,
        refl,
      )
