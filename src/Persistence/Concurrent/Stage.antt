-- ===== src/Persistence/Concurrent/Stage.antt =====
-- How far a save is, and what one call of the file system does to it.
use mathlib.Core.Path.{subst}
use mathlib.Core.List.{append_assoc, append-nil, head-eq_of_cons-eq, tail-eq_of_cons-eq}
use cache_x.Base.{
  ◌≡◌, ◌≢◌, ◌⊎◌, inl, inr, refl, ap, sym, ◌∙◌, List, [], ◌∷◌, ◌++◌, map, none, some, Bytes,
  if◌then◌else◌,
}
use cache_x.Persistence.Disk.{
  Disk, put, or_empty, Call, create, write, remove, rename, perform, Answers, joined, SaveResult,
}
use cache_x.Persistence.Atomic.{
  put_self, put-ne, bytes_eq-ne, AllOnlyTouch, AllOnlyTouch-append, perform-OnlyTouches,
  before_last, before_last-AllOnlyTouch, Way, not_opened, renamed, removed,
}

-- How far a save is: nothing that it still does can reach the snapshot; or it has not created its
-- file; or its file holds the beginning of the text, and the rest is to be written before the file
-- is renamed.
pub data Stage (temp path text : Bytes) (calls : List Call) (d : Disk) : Type 0 where
  harmless : AllOnlyTouch temp calls → Stage temp path text calls d
  starting :
      (pieces : List Bytes)
      → calls ≡ create temp ∷ map (write temp) pieces ++ (rename temp path ∷ [])
      → joined pieces ≡ text
      → Stage temp path text calls d
  writing :
      (pieces : List Bytes) (got : Bytes)
      → calls ≡ map (write temp) pieces ++ (rename temp path ∷ [])
      → d temp ≡ some got
      → got ++ joined pieces ≡ text
      → Stage temp path text calls d

-- The calls of a save are such a stage.
pub Way-Stage :
    (a : Answers) (path text : Bytes) (saved : SaveResult × List Call) (d : Disk)
    → Way a path text saved
    → Stage a.temp_path path text saved.1 d
Way-Stage a path text saved d (not_opened c _ _) =
    harmless (subst (AllOnlyTouch a.temp_path) (sym c) tt)
Way-Stage a path text saved d (renamed c _ same) = starting a.pieces c same
Way-Stage a path text saved d (removed c _) = harmless (
    subst (AllOnlyTouch a.temp_path) (sym c) (
      AllOnlyTouch-append a.temp_path (before_last a) (remove a.temp_path ∷ [])
        (before_last-AllOnlyTouch a) (refl, tt)))

-- The calls of others leave a stage as it is, if they leave the temporary file alone.
pub Stage-same :
    (temp path text : Bytes) (calls : List Call) (d d' : Disk)
    → d' temp ≡ d temp
    → Stage temp path text calls d
    → Stage temp path text calls d'
Stage-same temp path text calls d d' e (harmless h) = harmless h
Stage-same temp path text calls d d' e (starting pieces c t) = starting pieces c t
Stage-same temp path text calls d d' e (writing pieces got c h t) = writing pieces got c (e ∙ h) t

-- What one call does: the save goes on to its next stage, no file is changed but its own and the
-- snapshot, and the snapshot is as it was or has the whole text.
pub record Advances (temp path text : Bytes) (call : Call) (calls : List Call) (d : Disk)
    : Type 0 where
  pub next : Stage temp path text calls (perform call d)
  pub others : (q : Bytes) → temp ≢ q → path ≢ q → perform call d q ≡ d q
  pub snapshot : (perform call d path ≡ d path) ⊎ (perform call d path ≡ some text)

create-Advances :
    (temp path text : Bytes) (pieces : List Bytes) (d : Disk)
    → temp ≢ path
    → joined pieces ≡ text
    → Advances temp path text (create temp) (map (write temp) pieces ++ (rename temp path ∷ [])) d
unfolding perform
create-Advances temp path text pieces d ne t = record {
  next = writing pieces [] refl (put_self temp (some []) d) t;
  others = λ q n m. put-ne temp q (some []) d n;
  snapshot = inl (put-ne temp path (some []) d ne);
}

write-Advances :
    (temp path text p : Bytes) (pieces : List Bytes) (got : Bytes) (d : Disk)
    → temp ≢ path
    → d temp ≡ some got
    → got ++ (p ++ joined pieces) ≡ text
    → Advances temp path text (write temp p) (map (write temp) pieces ++ (rename temp path ∷ [])) d
unfolding perform
write-Advances temp path text p pieces got d ne h t =
    let file = some (or_empty (d temp) ++ p) in
    record {
      next =
          writing pieces (got ++ p) refl (put_self temp file d ∙ ap (λ o. some (or_empty o ++ p)) h)
            (append_assoc got p (joined pieces) ∙ t);
      others = λ q n m. put-ne temp q file d n;
      snapshot = inl (put-ne temp path file d ne);
    }

rename-Advances :
    (temp path text : Bytes) (d : Disk)
    → temp ≢ path
    → d temp ≡ some text
    → Advances temp path text (rename temp path) [] d
unfolding perform
rename-Advances temp path text d ne h =
    let moved : Disk = put temp none (put path (d temp) d) in
    let done : perform (rename temp path) d ≡ moved =
      ap (λ b. if b then d else moved) (bytes_eq-ne temp path ne) in
    record {
      next = harmless tt;
      others = λ q n m.
          ap (λ (f : Disk). f q) done
          ∙ put-ne temp q none (put path (d temp) d) n
          ∙ put-ne path q (d temp) d m;
      snapshot = inr (
          ap (λ (f : Disk). f path) done
          ∙ put-ne temp path none (put path (d temp) d) ne
          ∙ put_self path (d temp) d
          ∙ h);
    }

-- The calls may be known by an equation only.
moved-Advances :
    (temp path text : Bytes) (call call' : Call) (calls calls' : List Call) (d : Disk)
    → call ∷ calls ≡ call' ∷ calls'
    → Advances temp path text call' calls' d
    → Advances temp path text call calls d
moved-Advances temp path text call call' calls calls' d e h =
    let same_call : call' ≡ call = sym (head-eq_of_cons-eq e) in
    let same_calls : calls' ≡ calls = sym (tail-eq_of_cons-eq e) in
    subst (λ x. Advances temp path text x calls d) same_call
      (subst (λ xs. Advances temp path text call' xs d) same_calls h)

pub Stage-Advances :
    (temp path text : Bytes) (call : Call) (calls : List Call) (d : Disk)
    → temp ≢ path
    → Stage temp path text (call ∷ calls) d
    → Advances temp path text call calls d
unfolding joined
Stage-Advances temp path text call calls d ne (harmless h) = record {
  next = harmless h.1;
  others = λ q n m. perform-OnlyTouches temp q call d h.0 n;
  snapshot = inl (perform-OnlyTouches temp path call d h.0 ne);
}
Stage-Advances temp path text call calls d ne (starting pieces c t) =
    moved-Advances temp path text call (create temp) calls
      (map (write temp) pieces ++ (rename temp path ∷ [])) d c
      (create-Advances temp path text pieces d ne t)
Stage-Advances temp path text call calls d ne (writing [] got c h t) =
    let whole : got ≡ text = sym (append-nil got) ∙ ap (λ x. got ++ x) (sym (joined-nil)) ∙ t in
    moved-Advances temp path text call (rename temp path) calls [] d c
      (rename-Advances temp path text d ne (h ∙ ap some whole))
  where
    joined-nil : joined [] ≡ []
    joined-nil = refl
Stage-Advances temp path text call calls d ne (writing (p ∷ ps) got c h t) =
    moved-Advances temp path text call (write temp p) calls
      (map (write temp) ps ++ (rename temp path ∷ [])) d c
      (write-Advances temp path text p ps got d ne h (ap (λ x. got ++ x) (sym joined-cons) ∙ t))
  where
    joined-cons : joined (p ∷ ps) ≡ p ++ joined ps
    joined-cons = refl
