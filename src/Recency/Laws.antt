-- ===== src/Recency/Laws.antt =====
-- What holds of the nodes of a list: an iterator finds its node, and the operations keep that.
use cache_x.Base.{
  ℕ, suc, Bool-cases, inl, inr, bytes_eq_refl, [], ◌∷◌, List, Option, none, some, Bytes, bytes_eq,
  bytes_eq_iff, if◌then◌else◌, ◌≡◌, length, arith, refl, ◌<◌, ◌+◌,
}
use cache_x.Recency.{Entry, Node, Iterator, deref, unlink, overwrite, back, drop_back, entries}
use cache_x.Recency.Order.{lookup, without}

-- The address of the node that holds a key.
unfoldable pub locate : Bytes → List Node → Option Iterator
locate k [] = none
locate k (n ∷ ns) = if bytes_eq n.entry.key k then some n.address else locate k ns

abbrev pub AddressesDistinct : List Node → Type 0
AddressesDistinct [] = Unit
AddressesDistinct (n ∷ ns) = (deref n.address ns ≡ none) × AddressesDistinct ns

abbrev pub KeysDistinct : List Node → Type 0
KeysDistinct [] = Unit
KeysDistinct (n ∷ ns) = (locate n.entry.key ns ≡ none) × KeysDistinct ns

abbrev pub AllBelow : ℕ → List Node → Type 0
AllBelow f [] = Unit
AllBelow f (n ∷ ns) = (n.address < f) × AllBelow f ns

pub record IsWellFormed (ns : List Node) (fresh : ℕ) : Type 0 where
  pub addresses : AddressesDistinct ns
  pub keys : KeysDistinct ns
  pub below : AllBelow fresh ns

pub deref-fresh : (f : ℕ) (ns : List Node) → AllBelow f ns → deref f ns ≡ none
unfolding deref
deref-fresh f [] h = refl
deref-fresh f (n ∷ ns) h = ground (arith, deref-fresh f ns h.1)

pub AllBelow-suc : (f : ℕ) (ns : List Node) → AllBelow f ns → AllBelow (f + 1) ns
AllBelow-suc f [] h = h
AllBelow-suc f (n ∷ ns) h = (omega arith, AllBelow-suc f ns h.1)

-- The iterator of a key can be dereferenced, and leads to an entry with that key.
pub deref-locate :
    (k : Bytes) (it : Iterator) (ns : List Node)
    → AddressesDistinct ns
    → locate k ns ≡ some it
    → (e : Entry) × (deref it ns ≡ some e) × (e.key ≡ k)
unfolding locate deref
deref-locate k it [] d h = ground arith
deref-locate k it (n ∷ ns) d h = elim (Bool-cases (bytes_eq n.entry.key k)) [
  | inl same ↦ (n.entry, ground arith, (bytes_eq_iff n.entry.key k).0 same)
  | inr other ↦
      let (e, found, key) = deref-locate k it ns d.1 (ground arith) in (e, ground arith, key)
]

deref-unlink :
    (it a : Iterator) (ns : List Node) → deref a ns ≡ none → deref a (unlink it ns) ≡ none
unfolding deref unlink
deref-unlink it a [] h = refl
deref-unlink it a (n ∷ ns) h = ground (arith, deref-unlink it a ns)

pub deref-unlink_self :
    (it : Iterator) (ns : List Node) → AddressesDistinct ns → deref it (unlink it ns) ≡ none
unfolding deref unlink
deref-unlink_self it [] d = refl
deref-unlink_self it (n ∷ ns) d = ground (arith, deref-unlink_self it ns d.1)

pub unlink-AddressesDistinct :
    (it : Iterator) (ns : List Node) → AddressesDistinct ns → AddressesDistinct (unlink it ns)
unfolding unlink
unlink-AddressesDistinct it [] d = d
unlink-AddressesDistinct it (n ∷ ns) d =
    ground (arith, deref-unlink it n.address ns d.0, unlink-AddressesDistinct it ns d.1)

pub unlink-AllBelow :
    (f : ℕ) (it : Iterator) (ns : List Node) → AllBelow f ns → AllBelow f (unlink it ns)
unfolding unlink
unlink-AllBelow f it [] h = h
unlink-AllBelow f it (n ∷ ns) h = ground (arith, unlink-AllBelow f it ns h.1)

-- Unlinking the node of a key hides that key and no other.
pub locate-unlink :
    (k j : Bytes) (it : Iterator) (ns : List Node)
    → AddressesDistinct ns
    → KeysDistinct ns
    → locate k ns ≡ some it
    → locate j (unlink it ns) ≡ (if bytes_eq k j then none else locate j ns)
unfolding locate unlink
locate-unlink k j it [] d u h = ground arith
locate-unlink k j it (n ∷ ns) d u h = ground (
  arith,
  bytes_eq_iff n.entry.key k,
  bytes_eq_iff n.entry.key j,
  bytes_eq_iff k j,
  deref-locate k it ns d.1,
  locate-unlink k j it ns d.1 u.1,
)

locate-unlink_absent :
    (j : Bytes) (it : Iterator) (ns : List Node)
    → locate j ns ≡ none
    → locate j (unlink it ns) ≡ none
unfolding locate unlink
locate-unlink_absent j it [] h = refl
locate-unlink_absent j it (n ∷ ns) h = ground (arith, locate-unlink_absent j it ns)

pub unlink-KeysDistinct :
    (it : Iterator) (ns : List Node) → KeysDistinct ns → KeysDistinct (unlink it ns)
unfolding unlink
unlink-KeysDistinct it [] u = u
unlink-KeysDistinct it (n ∷ ns) u =
    ground (arith, locate-unlink_absent n.entry.key it ns u.0, unlink-KeysDistinct it ns u.1)

pub length-unlink :
    (it : Iterator) (e : Entry) (ns : List Node)
    → deref it ns ≡ some e
    → suc (length (unlink it ns)) ≡ length ns
unfolding deref unlink
length-unlink it e [] h = ground arith
length-unlink it e (n ∷ ns) h = ground (arith, length-unlink it e ns)

pub deref-overwrite :
    (a it : Iterator) (v : Bytes) (x : Option ℕ) (ns : List Node)
    → deref a ns ≡ none
    → deref a (overwrite it v x ns) ≡ none
unfolding deref overwrite
deref-overwrite a it v x [] h = refl
deref-overwrite a it v x (n ∷ ns) h = ground (arith, deref-overwrite a it v x ns)

pub deref-overwrite_self :
    (it : Iterator) (v : Bytes) (x : Option ℕ) (e : Entry) (ns : List Node)
    → deref it ns ≡ some e
    → deref it (overwrite it v x ns) ≡ some (record e { value = v; expires_at = x })
unfolding deref overwrite
deref-overwrite_self it v x e [] h = ground arith
deref-overwrite_self it v x e (n ∷ ns) h = ground (arith, deref-overwrite_self it v x e ns)

pub unlink-overwrite :
    (it : Iterator) (v : Bytes) (x : Option ℕ) (ns : List Node)
    → unlink it (overwrite it v x ns) ≡ unlink it ns
unfolding unlink overwrite
unlink-overwrite it v x [] = refl
unlink-overwrite it v x (n ∷ ns) = ground (arith, unlink-overwrite it v x ns)

-- The oldest node is unlinked by way of its key.
pub drop_back-unlink :
    (v : Entry) (ns : List Node)
    → AddressesDistinct ns
    → KeysDistinct ns
    → back ns ≡ some v
    → (it : Iterator) × (locate v.key ns ≡ some it) × (drop_back ns ≡ unlink it ns)
unfolding back drop_back unlink locate
drop_back-unlink v [] d u h = absurd (ground arith)
drop_back-unlink v (n ∷ []) d u h = (n.address, ground (arith, bytes_eq_refl v.key), ground arith)
drop_back-unlink v (n ∷ m ∷ ns) d u h =
    let (it, found, same) = drop_back-unlink v (m ∷ ns) d.1 u.1 h in
    let (e, pointed, key) = deref-locate v.key it (m ∷ ns) d.1 found in
    (it, ground (arith, bytes_eq_iff n.entry.key v.key), ground arith)

pub deref-locate_entry :
    (k : Bytes) (it : Iterator) (ns : List Node)
    → AddressesDistinct ns
    → locate k ns ≡ some it
    → deref it ns ≡ lookup k (entries ns)
unfolding locate deref lookup entries
deref-locate_entry k it [] d h = ground arith
deref-locate_entry k it (n ∷ ns) d h =
    ground (arith, deref-locate k it ns d.1, deref-locate_entry k it ns d.1)

pub lookup-locate-none :
    (k : Bytes) (ns : List Node) → locate k ns ≡ none → lookup k (entries ns) ≡ none
unfolding locate lookup entries
lookup-locate-none k [] h = refl
lookup-locate-none k (n ∷ ns) h = ground (arith, lookup-locate-none k ns)

pub entries-unlink :
    (k : Bytes) (it : Iterator) (ns : List Node)
    → AddressesDistinct ns
    → locate k ns ≡ some it
    → entries (unlink it ns) ≡ without k (entries ns)
unfolding locate unlink without entries
entries-unlink k it [] d h = ground arith
entries-unlink k it (n ∷ ns) d h =
    ground (arith, deref-locate k it ns d.1, entries-unlink k it ns d.1)

pub deref-lt :
    (f : ℕ) (it : Iterator) (e : Entry) (ns : List Node)
    → AllBelow f ns
    → deref it ns ≡ some e
    → it < f
unfolding deref
deref-lt f it e [] b h = absurd (ground arith)
deref-lt f it e (n ∷ ns) b h = ground (arith, deref-lt f it e ns b.1)

pub back-cons : (n : Node) (ns : List Node) → (v : Entry) × (back (n ∷ ns) ≡ some v)
unfolding back
back-cons n [] = (n.entry, refl)
back-cons n (m ∷ ns) = back-cons m ns
