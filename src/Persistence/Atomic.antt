-- ===== src/Persistence/Atomic.antt =====
-- At every moment of a save the snapshot is the old one or the new one.
use mathlib.Core.Logic.{◌≢◌}
use mathlib.Core.List.{append_assoc, append-nil}
use cache_x.Base.{
  ℕ, zero, suc, ◌≡◌, refl, ap, sym, ◌∙◌, ◌⊎◌, inl, inr, List, [], ◌∷◌, ◌++◌, map, Option, none,
  some, Bytes, bytes_eq, bytes_eq_iff, true, false, take, arith, Bool-cases, if◌then◌else◌,
}
use cache_x.Persistence.Disk.{
  Disk, put, or_empty, Call, create, write, remove, rename, perform, perform_all, SaveResult,
  Answers, joined, save_text,
}

pub put_self : (p : Bytes) (f : Option Bytes) (d : Disk) → put p f d p ≡ f
put_self p f d = ground (arith, (bytes_eq_iff p p).1 refl)

pub bytes_eq-ne : (p q : Bytes) → p ≢ q → bytes_eq p q ≡ false
bytes_eq-ne p q ne = ground (arith, ne, bytes_eq_iff p q)

pub put-ne : (p q : Bytes) (f : Option Bytes) (d : Disk) → p ≢ q → put p f d q ≡ d q
put-ne p q f d ne = elim (Bool-cases (bytes_eq p q)) [
  | inl e ↦ absurd (ne ((bytes_eq_iff p q).0 e))
  | inr e ↦ ground (arith, e)
]

-- The file at the temporary path, when pieces are written to it.
perform_all-write :
    (temp : Bytes) (pieces : List Bytes) (calls : List Call) (d : Disk) (text : Bytes)
    → d temp ≡ some text
    → (d' : Disk) × (perform_all (map (write temp) pieces ++ calls) d ≡ perform_all calls d')
      × (d' temp ≡ some (text ++ joined pieces))
      × ((q : Bytes) → temp ≢ q → d' q ≡ d q)
unfolding perform_all perform joined
perform_all-write temp [] calls d text h =
    (d, refl, h ∙ ap some (sym (append-nil text)), λ q ne. refl)
perform_all-write temp (p ∷ ps) calls d text h =
    let d₁ = put temp (some (or_empty (d temp) ++ p)) d in
    let here : d₁ temp ≡ some (text ++ p) =
      put_self temp (some (or_empty (d temp) ++ p)) d ∙ ap (λ o. some (or_empty o ++ p)) h in
    let (d', run, held, others) = perform_all-write temp ps calls d₁ (text ++ p) here in
    (
      d',
      run,
      held ∙ ap some (append_assoc text p (joined ps)),
      λ q ne. others q ne ∙ put-ne temp q (some (or_empty (d temp) ++ p)) d ne,
    )

-- Until the last call nothing but the temporary file is changed.
abbrev pub OnlyTouches : Bytes → Call → Type 0
OnlyTouches temp (create p) = temp ≡ p
OnlyTouches temp (write p _) = temp ≡ p
OnlyTouches temp (remove p) = temp ≡ p
OnlyTouches temp (rename _ _) = ⊥

pub perform-OnlyTouches :
    (temp q : Bytes) (call : Call) (d : Disk)
    → OnlyTouches temp call
    → temp ≢ q
    → perform call d q ≡ d q
unfolding perform
perform-OnlyTouches temp q (create p) d h ne = put-ne p q (some []) d (rw (← h) ne)
perform-OnlyTouches temp q (write p bytes) d h ne =
    put-ne p q (some (or_empty (d p) ++ bytes)) d (rw (← h) ne)
perform-OnlyTouches temp q (remove p) d h ne = put-ne p q none d (rw (← h) ne)
perform-OnlyTouches temp q (rename _ _) d h ne = absurd h

abbrev pub AllOnlyTouch : Bytes → List Call → Type 0
AllOnlyTouch temp [] = Unit {0}
AllOnlyTouch temp (call ∷ calls) = OnlyTouches temp call × AllOnlyTouch temp calls

AllOnlyTouch-take :
    (temp q : Bytes) (n : ℕ) (calls : List Call) (d : Disk)
    → AllOnlyTouch temp calls
    → temp ≢ q
    → perform_all (take n calls) d q ≡ d q
unfolding perform_all
AllOnlyTouch-take temp q zero calls d h ne = refl
AllOnlyTouch-take temp q (suc n) [] d h ne = refl
AllOnlyTouch-take temp q (suc n) (call ∷ calls) d h ne =
    AllOnlyTouch-take temp q n calls (perform call d) h.1 ne
    ∙ perform-OnlyTouches temp q call d h.0 ne

pub AllOnlyTouch-append :
    (temp : Bytes) (calls more : List Call)
    → AllOnlyTouch temp calls
    → AllOnlyTouch temp more
    → AllOnlyTouch temp (calls ++ more)
AllOnlyTouch-append temp [] more h m = m
AllOnlyTouch-append temp (call ∷ calls) more h m = (h.0, AllOnlyTouch-append temp calls more h.1 m)

AllOnlyTouch-write :
    (temp : Bytes) (pieces : List Bytes) → AllOnlyTouch temp (map (write temp) pieces)
AllOnlyTouch-write temp [] = tt
AllOnlyTouch-write temp (p ∷ ps) = (refl, AllOnlyTouch-write temp ps)

-- A part of the calls before the last, or all of them.
take-append_last {ℓ} :
    {A : Type ℓ} (n : ℕ) (xs : List A) (y : A)
    → (take n (xs ++ (y ∷ [])) ≡ take n xs) ⊎ (take n (xs ++ (y ∷ [])) ≡ xs ++ (y ∷ []))
take-append_last zero xs y = inl refl
take-append_last (suc zero) [] y = inr refl
take-append_last (suc (suc n)) [] y = inr refl
take-append_last (suc n) (x ∷ xs) y = elim (take-append_last n xs y) [
  | inl e ↦ inl (ap (◌∷◌ x) e)
  | inr e ↦ inr (ap (◌∷◌ x) e)
]

-- The calls of a save that can open its file, but the last.
abbrev pub before_last : Answers → List Call
before_last a = create a.temp_path ∷ map (write a.temp_path) a.pieces

pub before_last-AllOnlyTouch : (a : Answers) → AllOnlyTouch a.temp_path (before_last a)
before_last-AllOnlyTouch a = (refl, AllOnlyTouch-write a.temp_path a.pieces)

perform_all-rename :
    (a : Answers) (path : Bytes) (d : Disk)
    → a.temp_path ≢ path
    → (perform_all (before_last a ++ (rename a.temp_path path ∷ [])) d path
        ≡ some (joined a.pieces))
      × (perform_all (before_last a ++ (rename a.temp_path path ∷ [])) d a.temp_path ≡ none)
      × ((q : Bytes)
          → a.temp_path ≢ q
          → path ≢ q
          → perform_all (before_last a ++ (rename a.temp_path path ∷ [])) d q ≡ d q)
unfolding perform_all perform
perform_all-rename a path d ne =
    let t = a.temp_path in
    let (d', run, held, others) =
      perform_all-write t a.pieces (rename t path ∷ []) (put t (some []) d) []
        (put_self t (some []) d) in
    let moved : perform (rename t path) d' ≡ put t none (put path (d' t) d') =
      ap (λ b. if b then d' else put t none (put path (d' t) d')) (bytes_eq-ne t path ne) in
    let end : (q : Bytes)
        → perform_all (before_last a ++ (rename t path ∷ [])) d q
          ≡ put t none (put path (d' t) d') q =
      λ q. ap (λ x. x q) (run ∙ moved) in
    (
      end path ∙ put-ne t path none (put path (d' t) d') ne ∙ put_self path (d' t) d' ∙ held,
      end t ∙ put_self t none (put path (d' t) d'),
      λ q n m.
          end q
          ∙ put-ne t q none (put path (d' t) d') n
          ∙ put-ne path q (d' t) d' m
          ∙ others q n
          ∙ put-ne t q (some []) d n,
    )

perform_all-remove :
    (a : Answers) (d : Disk)
    → (perform_all (before_last a ++ (remove a.temp_path ∷ [])) d a.temp_path ≡ none)
      × ((q : Bytes)
          → a.temp_path ≢ q
          → perform_all (before_last a ++ (remove a.temp_path ∷ [])) d q ≡ d q)
unfolding perform_all perform
perform_all-remove a d =
    let t = a.temp_path in
    let (d', run, held, others) =
      perform_all-write t a.pieces (remove t ∷ []) (put t (some []) d) []
        (put_self t (some []) d) in
    (
      ap (λ x. x t) run ∙ put_self t none d',
      λ q n. ap (λ x. x q) run ∙ put-ne t q none d' n ∙ others q n ∙ put-ne t q (some []) d n,
    )

-- The three ways a save goes.
pub data Way (a : Answers) (path text : Bytes) (saved : SaveResult × List Call) : Type 0 where
  not_opened : saved.1 ≡ [] → saved.0.ok ≡ false → a.opens ≡ false → Way a path text saved
  renamed :
      saved.1 ≡ before_last a ++ (rename a.temp_path path ∷ [])
      → saved.0.ok ≡ true
      → joined a.pieces ≡ text
      → Way a path text saved
  removed :
      saved.1 ≡ before_last a ++ (remove a.temp_path ∷ [])
      → saved.0.ok ≡ false
      → Way a path text saved

pub save_text-Way :
    (a : Answers) (path : Bytes) (entries : ℕ) (text : Bytes)
    → Way a path text (save_text a path entries text)
unfolding save_text
save_text-Way a path entries text = elim (Bool-cases a.opens) [
  | inr o ↦ not_opened (ground (arith, o)) (ground (arith, o)) o
  | inl o ↦ elim (Bool-cases (bytes_eq (joined a.pieces) text)) [
    | inr w ↦ removed (ground (arith, o, w)) (ground (arith, o, w))
    | inl w ↦ elim (Bool-cases a.renames) [
      | inl r ↦
          renamed (ground (arith, o, w, r)) (ground (arith, o, w, r))
            ((bytes_eq_iff (joined a.pieces) text).0 w)
      | inr r ↦ removed (ground (arith, o, w, r)) (ground (arith, o, w, r))
    ]
  ]
]

-- However a save goes, and wherever it is cut off, the snapshot is the old one or the whole new
-- text: after any number of the calls of the file system that the save makes. Its temporary path
-- must not be the path of the snapshot.
pub save_text-atomic :
    (a : Answers) (path : Bytes) (entries : ℕ) (text : Bytes) (n : ℕ) (d : Disk)
    → a.temp_path ≢ path
    → (perform_all (take n (save_text a path entries text).1) d path ≡ d path)
      ⊎ (perform_all (take n (save_text a path entries text).1) d path ≡ some text)
save_text-atomic a path entries text n d ne = elim (save_text-Way a path entries text) [
  | not_opened c ok o ↦ rw c (inl (AllOnlyTouch-take a.temp_path path n [] d tt ne))
  | renamed c ok same ↦ rw c (elim (take-append_last n (before_last a) (rename a.temp_path path)) [
    | inl part ↦ rw part (
        inl
          (AllOnlyTouch-take a.temp_path path n (before_last a) d (before_last-AllOnlyTouch a) ne))
    | inr whole ↦ rw whole (inr ((perform_all-rename a path d ne).0 ∙ ap some same))
  ])
  | removed c ok ↦ rw c (
      inl (
        AllOnlyTouch-take a.temp_path path n (before_last a ++ (remove a.temp_path ∷ [])) d
          (AllOnlyTouch-append a.temp_path (before_last a) (remove a.temp_path ∷ [])
            (before_last-AllOnlyTouch a) (refl, tt))
          ne))
]

-- A save that reports success has put the whole text in place of the snapshot; one that reports an
-- error has left the snapshot alone. Either way the temporary file is gone, if it could be opened,
-- and every other file is as it was.
pub save_text-replaces :
    (a : Answers) (path : Bytes) (entries : ℕ) (text : Bytes) (d : Disk)
    → a.temp_path ≢ path
    → (perform_all (save_text a path entries text).1 d path
        ≡ (if (save_text a path entries text).0.ok then some text else d path))
      × (a.opens ≡ true → perform_all (save_text a path entries text).1 d a.temp_path ≡ none)
      × ((q : Bytes)
          → a.temp_path ≢ q
          → path ≢ q
          → perform_all (save_text a path entries text).1 d q ≡ d q)
unfolding perform_all
save_text-replaces a path entries text d ne = elim (save_text-Way a path entries text) [
  | not_opened c ok o ↦
      rw (c, ok) (refl, λ opened. absurd (ground (arith, o, opened)), λ q n m. refl)
  | renamed c ok same ↦
      let (new, gone, others) = perform_all-rename a path d ne in
      rw (c, ok) (new ∙ ap some same, λ _. gone, others)
  | removed c ok ↦
      let (gone, others) = perform_all-remove a d in
      rw (c, ok) (others path ne, λ _. gone, λ q n m. others q n)
]
