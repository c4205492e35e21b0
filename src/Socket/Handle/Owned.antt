-- ===== src/Socket/Handle/Owned.antt =====
-- Every open descriptor has exactly one owner.
use mathlib.Core.Path.{subst}
use cache_x.Base.{
  get_elem?-lt, ℕ, zero, suc, ◌+◌, ◌<◌, ◌≡◌, ◌≢◌, refl, ap, ◌∙◌, List, [], ◌∷◌, ◌++◌, Option, none,
  some, true, false, ◌==◌, ==_iff, if◌then◌else◌, length, length-set, get_elem?, set as write,
  arith, Bool-cases, inl, inr, get_elem?-set_ne, get_elem?-set_self,
}
use cache_x.Socket.Handle.{
  Process, close_descriptor, close_if_valid, close, default_construct, construct, move_construct,
  move_assign, without_handle, destroy, Action, defaulted, opened, moved, assigned, closed,
  destroyed, act, act_all,
}

-- How often a handle, or a row of them, owns a descriptor.
abbrev pub owns : ℕ → Option ℕ → ℕ
owns d none = 0
owns d (some e) = if e == d then 1 else 0

unfoldable pub owners : ℕ → List (Option ℕ) → ℕ
owners d [] = 0
owners d (h ∷ hs) = owns d h + owners d hs

abbrev pub IsOwned : Process → Type 0
IsOwned p = (d : ℕ) → owners d p.handles ≡ (if p.is_open d then 1 else 0)

owners-write :
    (d : ℕ) (hs : List (Option ℕ)) (i : ℕ) (h h' : Option ℕ)
    → get_elem? hs i ≡ some h
    → owners d (write hs i h') + owns d h ≡ owners d hs + owns d h'
unfolding owners
owners-write d [] i h h' at = absurd (ground (arith, at))
owners-write d (g ∷ hs) zero h h' at =
    let same : g ≡ h = ground (arith, at) in
    let count : owns d g ≡ owns d h = ap (owns d) same in omega (arith, count)
owners-write d (g ∷ hs) (suc i) h h' at = omega (arith, owners-write d hs i h h' at)

owners-append :
    (d : ℕ) (hs : List (Option ℕ)) (h : Option ℕ) → owners d (hs ++ h ∷ []) ≡ owners d hs + owns d h
unfolding owners
owners-append d [] h = omega arith
owners-append d (g ∷ hs) h = omega (arith, owners-append d hs h)

owners-without_handle :
    (d : ℕ) (hs : List (Option ℕ)) (i : ℕ)
    → get_elem? hs i ≡ some none
    → owners d (without_handle hs i) ≡ owners d hs
unfolding owners without_handle
owners-without_handle d [] i at = absurd (ground (arith, at))
owners-without_handle d (g ∷ hs) zero at =
    let same : g ≡ none = ground (arith, at) in ground (arith, same)
owners-without_handle d (g ∷ hs) (suc i) at = omega (arith, owners-without_handle d hs i at)

owns_self : (d : ℕ) → owns d (some d) ≡ 1
owns_self d = ground (arith, (==_iff d d).1 refl)

-- A handle's own descriptor is open.
owned-open :
    (p : Process) (i d : ℕ) → IsOwned p → get_elem? p.handles i ≡ some (some d) → p.is_open d ≡ true
owned-open p i d o at = elim (Bool-cases (p.is_open d)) [
  | inl live ↦ live
  | inr dead ↦
      let counted = owners-write d p.handles i (some d) none at in
      let one = owns_self d in
      let few : owners d p.handles ≡ 0 = ground (arith, o d, dead) in
      absurd (omega (arith, counted, one, few))
]

-- Closing is defined, since the descriptor of a handle is open, and leaves the handle without one.
close-IsOwned :
    (i : ℕ) (p : Process)
    → IsOwned p
    → i < length p.handles
    → (q : Process) × (close i p ≡ some q) × IsOwned q × (q.handles ≡ write p.handles i none)
unfolding close close_if_valid close_descriptor
close-IsOwned i p o inside = let (h, at) = get_elem?-lt p.handles i inside in go h at
  where
    go :
        (h : Option ℕ)
        → get_elem? p.handles i ≡ some h
        → (q : Process) × (close i p ≡ some q) × IsOwned q × (q.handles ≡ write p.handles i none)
    go none at = (
      record { handles = write p.handles i none; is_open = p.is_open },
      ground (arith, at),
      λ d. omega (arith, owners-write d p.handles i none none at, o d),
      refl,
    )
    go (some e) at =
        let live = owned-open p i e o at in
        (
          record {
            handles = write p.handles i none;
            is_open = λ d. if e == d then false else p.is_open d;
          },
          ground (arith, at, live),
          λ d. counted d (owners-write d p.handles i (some e) none at) live,
          refl,
        )
      where
        counted :
            (d : ℕ)
            → owners d (write p.handles i none) + owns d (some e) ≡ owners d p.handles + 0
            → p.is_open e ≡ true
            → owners d (write p.handles i none)
              ≡ (if (if e == d then false else p.is_open d) then 1 else 0)
        counted d same live = elim (Bool-cases (e == d)) [
          | inl here ↦
              let eq : e ≡ d = (==_iff e d).0 here in
              let live' : p.is_open d ≡ true = rw eq at live in
              ground (arith, here, same, o d, live')
          | inr other ↦ ground (arith, other, same, o d)
        ]

-- What a program may do: use handles that it has, and descriptors that were not open before.
abbrev pub Allowed : Action → Process → Type 0
Allowed defaulted p = Unit {0}
Allowed (opened d) p = p.is_open d ≡ false
Allowed (moved j) p = j < length p.handles
Allowed (assigned i j) p = (i < length p.handles) × (j < length p.handles)
Allowed (closed i) p = i < length p.handles
Allowed (destroyed i) p = i < length p.handles

abbrev Keeps : Option Process → Type 0
Keeps done = (q : Process) × (done ≡ some q) × IsOwned q

construct-IsOwned :
    (d : ℕ) (p : Process) → p.is_open d ≡ false → IsOwned p → IsOwned (construct d p)
unfolding construct
construct-IsOwned d p fresh o e =
    let added = owners-append e p.handles (some d) in
    elim (Bool-cases (d == e)) [
      | inl here ↦
          let eq : d ≡ e = (==_iff d e).0 here in
          let fresh' : p.is_open e ≡ false = rw eq at fresh in
          ground (arith, added, here, o e, fresh')
      | inr other ↦ ground (arith, added, other, o e)
    ]

move_construct-IsOwned :
    (j : ℕ) (p : Process) → j < length p.handles → IsOwned p → Keeps (move_construct j p)
unfolding move_construct
move_construct-IsOwned j p inside o =
    let (h, at) = get_elem?-lt p.handles j inside in
    (
      record p { handles = write p.handles j none ++ h ∷ [] },
      ground (arith, at),
      λ d. omega (
        arith,
        owners-append d (write p.handles j none) h,
        owners-write d p.handles j h none at,
        o d,
      ),
    )

move_assign-IsOwned :
    (i j : ℕ) (p : Process)
    → i < length p.handles
    → j < length p.handles
    → IsOwned p
    → Keeps (move_assign i j p)
unfolding move_assign
move_assign-IsOwned i j p inside_i inside_j o = elim (Bool-cases (i == j)) [
  | inl self ↦ (p, ground (arith, self), o)
  | inr apart ↦
      let (q, done, o', same) = close-IsOwned i p o inside_i in
      let count : length q.handles ≡ length p.handles =
        ap length same ∙ length-set p.handles i none in
      let (h, at) = get_elem?-lt p.handles i inside_i in
      let (fd, from) = get_elem?-lt q.handles j (omega (arith, count, inside_j)) in
      let empty : get_elem? q.handles i ≡ some none =
        ap (λ l. get_elem? l i) same ∙ get_elem?-set_self p.handles i none h at in
      let ne : i ≢ j = λ e. absurd (ground (arith, apart, e)) in
      let from' : get_elem? (write q.handles i fd) j ≡ some fd =
        get_elem?-set_ne q.handles i j fd ne ∙ from in
      (
        record q { handles = write (write q.handles i fd) j none },
        ground (arith, apart, done, from),
        λ d. omega (
          arith,
          owners-write d (write q.handles i fd) j fd none from',
          owners-write d q.handles i none fd empty,
          o' d,
        ),
      )
]

destroy-IsOwned : (i : ℕ) (p : Process) → i < length p.handles → IsOwned p → Keeps (destroy i p)
unfolding destroy
destroy-IsOwned i p inside o =
    let (q, done, o', same) = close-IsOwned i p o inside in
    let (h, at) = get_elem?-lt p.handles i inside in
    let empty : get_elem? q.handles i ≡ some none =
      ap (λ l. get_elem? l i) same ∙ get_elem?-set_self p.handles i none h at in
    (
      record q { handles = without_handle q.handles i },
      ground (arith, done),
      λ d. owners-without_handle d q.handles i empty ∙ o' d,
    )

act-IsOwned : (a : Action) (p : Process) → Allowed a p → IsOwned p → Keeps (act a p)
unfolding act default_construct
act-IsOwned defaulted p h o =
    (default_construct p, refl, λ d. omega (arith, owners-append d p.handles none, o d))
act-IsOwned (opened d) p h o = (construct d p, refl, construct-IsOwned d p h o)
act-IsOwned (moved j) p h o = move_construct-IsOwned j p h o
act-IsOwned (assigned i j) p h o = move_assign-IsOwned i j p h.0 h.1 o
act-IsOwned (closed i) p h o = let (q, done, o', _) = close-IsOwned i p o h in (q, done, o')
act-IsOwned (destroyed i) p h o = destroy-IsOwned i p h o

abbrev pub AllAllowed : List Action → Process → Type 0
AllAllowed [] p = Unit {0}
AllAllowed (a ∷ rest) p =
    Allowed a p × (elim (act a p) [ none ↦ Unit {0} | some q ↦ AllAllowed rest q ])

-- Whatever a program does with its handles, no descriptor is closed that is not open, and after it
-- every open descriptor has exactly one owner and every owner's descriptor is open: none is leaked,
-- none is closed twice. A move to itself included. The system opens only descriptors that are not
-- open.
pub act_all-IsOwned :
    (actions : List Action) (p : Process)
    → AllAllowed actions p
    → IsOwned p
    → (q : Process) × (act_all actions p ≡ some q) × IsOwned q
unfolding act_all
act_all-IsOwned [] p h o = (p, refl, o)
act_all-IsOwned (a ∷ rest) p h o =
    let (q, one, o') = act-IsOwned a p h.0 o in
    let (r, more, o'') = act_all-IsOwned rest q (allowed_after q one) o' in
    (r, ground (arith, one, more), o'')
  where
    allowed_after : (q : Process) → act a p ≡ some q → AllAllowed rest q
    allowed_after q one =
        subst (λ done. elim done [ none ↦ Unit {0} | some r ↦ AllAllowed rest r ]) one h.1
