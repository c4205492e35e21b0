-- ===== src/Recency.antt =====
-- src/recency_list.cpp and include/cachex/recency_list.hpp.
-- `std::list<Entry>` is a list of nodes, each at an address of its own; an iterator is an address.
-- A use of an iterator that points at no node is undefined behaviour, `none`.
pub mod Order
pub mod Laws
use cache_x.Base.{
  ℕ, ◌+◌, List, [], ◌∷◌, map, Option, none, some, Bytes, ◌==◌, ◌>>=◌, if◌then◌else◌, length, Bool,
  true, false,
}

-- `expires_at` is a point on the steady clock, in nanoseconds.
pub record Entry : Type 0 where
  pub key : Bytes
  pub value : Bytes
  pub expires_at : Option ℕ

abbrev pub Iterator : Type 0
Iterator = ℕ

pub record Node : Type 0 where
  pub address : Iterator
  pub entry : Entry

-- `fresh` is the address of the next allocation.
pub record RecencyList : Type 0 where
  pub nodes : List Node
  pub fresh : Iterator

abbrev pub empty_list : RecencyList
empty_list = record { nodes = []; fresh = 0 }

-- `*it`
unfoldable pub deref : Iterator → List Node → Option Entry
deref it [] = none
deref it (n ∷ ns) = if n.address == it then some n.entry else deref it ns

-- The nodes without the one at `it`.
unfoldable pub unlink : Iterator → List Node → List Node
unlink it [] = []
unlink it (n ∷ ns) = let rest = unlink it ns in if n.address == it then ns else n ∷ rest

-- `it->value = value; it->expires_at = expires_at`
unfoldable pub overwrite : Iterator → Bytes → Option ℕ → List Node → List Node
overwrite it value expires_at [] = []
overwrite it value expires_at (n ∷ ns) =
    let rest = overwrite it value expires_at ns in
    if n.address == it
    then record n { entry = record (n.entry) { value = value; expires_at = expires_at } } ∷ ns
    else n ∷ rest

unfoldable pub insert_newest : Entry → RecencyList → RecencyList × Iterator
insert_newest e l = (
  record { nodes = record { address = l.fresh; entry = e } ∷ l.nodes; fresh = l.fresh + 1 },
  l.fresh,
)

-- `splice` relinks the node: it keeps its address.
unfoldable pub mark_used : Iterator → RecencyList → Option RecencyList
unfolding deref unlink
mark_used it l = do
  e ← deref it l.nodes
  some (record l { nodes = record { address = it; entry = e } ∷ unlink it l.nodes })

unfoldable pub erase : Iterator → RecencyList → Option RecencyList
unfolding deref unlink
erase it l = do _ ← deref it l.nodes; some (record l { nodes = unlink it l.nodes })

unfoldable pub back : List Node → Option Entry
back [] = none
back (n ∷ []) = some n.entry
back (n ∷ m ∷ ns) = back (m ∷ ns)

unfoldable pub drop_back : List Node → List Node
drop_back [] = []
drop_back (n ∷ []) = []
drop_back (n ∷ m ∷ ns) = n ∷ drop_back (m ∷ ns)

unfoldable pub oldest : RecencyList → Option Entry
unfolding back
oldest l = back l.nodes

unfoldable pub pop_oldest : RecencyList → Option RecencyList
unfolding back drop_back
pop_oldest l = do _ ← back l.nodes; some (record l { nodes = drop_back l.nodes })

unfoldable pub clear : RecencyList → RecencyList
clear l = record l { nodes = [] }

unfoldable pub size : RecencyList → ℕ
size l = length l.nodes

unfoldable pub empty : RecencyList → Bool
empty l = elim l.nodes [ [] ↦ true | _ ∷ _ ↦ false ]

-- The entries from most to least recently used: what an iteration from `begin()` to `end()` sees.
unfoldable pub entries : List Node → List Entry
entries = map (λ n. n.entry)
