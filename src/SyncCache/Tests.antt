-- ===== src/SyncCache/Tests.antt =====
-- The theorem about threads at a small input.
use cache_x.Base.{ℕ, refl, List, [], ◌∷◌, Option, none, some, codes}
use cache_x.Index
use cache_x.Cache
use cache_x.Cache.{Cache, unbounded}
use cache_x.Cache.Op
use cache_x.Cache.Op.{Op}
use cache_x.SyncCache.{
  SyncCache, lock, enter, finish, unlock, locks, enters, finishes, unlocks, Steps, here, next,
  begin,
}
use cache_x.SyncCache.History.{IsLinear}
use cache_x.SyncCache.Linear.{Steps-IsLinear}

-- Two threads; the second has locked the cache when the first is done.
abbrev programs : ℕ → List Op
programs = λ i. Op.set (codes "a") (codes "1") ∷ []

abbrev or_unbounded : Option Cache → Cache
or_unbounded none = unbounded
or_unbounded (some c) = c

abbrev stored : Cache
stored = or_unbounded (Cache.set (codes "a") (codes "1") unbounded)

abbrev first_done : SyncCache
first_done = unlock 0 (
    finish 0 7 (Op.set (codes "a") (codes "1")) [] stored Op.done
      (enter 0 (lock 0 (begin unbounded programs))))

steps : Steps (begin unbounded programs) (lock 1 first_done)
unfolding lock enter finish unlock Op.step Cache.set Cache.store Cache.trim Index.find
steps =
    next
      (next
        (next
          (next (next here (locks 0 (Op.set (codes "a") (codes "1")) [] refl refl refl))
            (enters 0 refl))
          (finishes 0 7 (Op.set (codes "a") (codes "1")) [] unbounded stored Op.done refl refl
            refl))
        (unlocks 0 refl))
      (locks 1 (Op.set (codes "a") (codes "1")) [] refl refl refl)

Steps-IsLinear_example : IsLinear unbounded programs (lock 1 first_done)
Steps-IsLinear_example = Steps-IsLinear unbounded programs (lock 1 first_done) steps
