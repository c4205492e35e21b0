-- ===== src/SyncCache/Linear.antt =====
-- Threads behind the mutex do what one thread would do that makes their calls one after another.
use mathlib.Core.Path.{subst}
use mathlib.Core.List.{append_assoc}
use cache_x.Base.{
  ℕ, ◌≡◌, refl, ap, sym, ◌∙◌, List, [], ◌∷◌, ◌++◌, Option, none, some, true, false, ◌==◌, ==_iff,
  ◌⊎◌, arith, Bool-cases, inl, inr,
}
use cache_x.Cache.{Cache}
use cache_x.Cache.Op
use cache_x.Cache.Op.{Op, Reply}
use cache_x.SyncCache.{
  Phase, outside, locked, working, leaving, Thread, Event, SyncCache, update, with_phase, lock,
  enter, finish, unlock, Step, locks, enters, finishes, unlocks, Steps, here, next, begin,
}
use cache_x.SyncCache.History.{
  timed, replies, events_of, ops, Holds, IsLinear, run-append, map-last, events_of-last,
  phase_calls, Holds-step,
}

module _ (c : Cache) (programs : ℕ → List Op) where
  -- A step that changes the phase of one thread only.
  phase-IsLinear :
      (i : ℕ) (p : Phase) (owner : Option ℕ) (s : SyncCache)
      → (s.owner ≡ none) ⊎ (s.owner ≡ some i)
      → Holds i p (record s { owner = owner; threads = with_phase p i s })
      → IsLinear c programs s
      → IsLinear c programs (record s { owner = owner; threads = with_phase p i s })
  phase-IsLinear i p owner s o mine h = record {
    holds =
        Holds-step i (record (s.threads i) { phase = p }) s
          (record s { owner = owner; threads = with_phase p i s }) (λ j. refl) o mine h.holds;
    sequential = h.sequential;
    in_order = λ j.
        ap (λ l. ops (events_of j s.history) ++ l) (phase_calls s.threads i j p).0 ∙ h.in_order j;
    answered = λ j. (phase_calls s.threads i j p).1 ∙ h.answered j;
  }

  -- The history after a body that has ended, seen by one thread.
  events_of-finish :
      (i j : ℕ) (e : Event) (s : SyncCache)
      → e.thread ≡ i
      → ((i == j) ≡ true → events_of j (s.history ++ e ∷ []) ≡ events_of j s.history ++ e ∷ [])
        × ((i == j) ≡ false → events_of j (s.history ++ e ∷ []) ≡ events_of j s.history)
  events_of-finish i j e s mine = (
    λ same. events_of-last j s.history e ∙ ground (arith, same, mine),
    λ other. events_of-last j s.history e ∙ ground (arith, other, mine),
  )

  finish-in_order :
      (i j : ℕ) (e : Event) (rest : List Op) (t : Thread) (s : SyncCache)
      → e.thread ≡ i
      → t.calls ≡ rest
      → (s.threads i).calls ≡ e.op ∷ rest
      → ops (events_of j s.history) ++ (s.threads j).calls ≡ programs j
      → ops (events_of j (s.history ++ e ∷ [])) ++ (update s.threads i t j).calls ≡ programs j
  finish-in_order i j e rest t s mine left calls h = elim (Bool-cases (i == j)) [
    | inl same ↦
        let eq : i ≡ j = (==_iff i j).0 same in
        let rest' : (update s.threads i t j).calls ≡ rest = ground (arith, same, left) in
        let calls' : e.op ∷ rest ≡ (s.threads j).calls =
          sym calls ∙ ap (λ k. (s.threads k).calls) eq in
        ap (λ l. ops (events_of j (s.history ++ e ∷ [])) ++ l) rest'
        ∙ ap (λ l. ops l ++ rest) ((events_of-finish i j e s mine).0 same)
        ∙ ap (λ l. l ++ rest) (map-last (λ (x : Event). x.op) (events_of j s.history) e)
        ∙ append_assoc (ops (events_of j s.history)) (e.op ∷ []) rest
        ∙ ap (λ l. ops (events_of j s.history) ++ l) calls'
        ∙ h
    | inr other ↦
        let calls' : (update s.threads i t j).calls ≡ (s.threads j).calls = ground (arith, other) in
        ap (λ l. ops (events_of j (s.history ++ e ∷ [])) ++ l) calls'
        ∙ ap (λ l. ops l ++ (s.threads j).calls) ((events_of-finish i j e s mine).1 other)
        ∙ h
  ]

  finish-answered :
      (i j : ℕ) (e : Event) (t : Thread) (s : SyncCache)
      → e.thread ≡ i
      → t.replies ≡ (s.threads i).replies ++ e.reply ∷ []
      → (s.threads j).replies ≡ replies (events_of j s.history)
      → (update s.threads i t j).replies ≡ replies (events_of j (s.history ++ e ∷ []))
  finish-answered i j e t s mine told h = elim (Bool-cases (i == j)) [
    | inl same ↦
        let eq : i ≡ j = (==_iff i j).0 same in
        let told' : (update s.threads i t j).replies ≡ (s.threads i).replies ++ e.reply ∷ [] =
          ground (arith, same, told) in
        told'
        ∙ ap (λ k. (s.threads k).replies ++ e.reply ∷ []) eq
        ∙ ap (λ l. l ++ e.reply ∷ []) h
        ∙ sym (map-last (λ (x : Event). x.reply) (events_of j s.history) e)
        ∙ ap replies (sym ((events_of-finish i j e s mine).0 same))
    | inr other ↦
        let told' : (update s.threads i t j).replies ≡ (s.threads j).replies =
          ground (arith, other) in
        told' ∙ h ∙ ap replies (sym ((events_of-finish i j e s mine).1 other))
  ]

  finish-IsLinear :
      (i now : ℕ) (op : Op) (rest : List Op) (d d' : Cache) (r : Reply) (s : SyncCache)
      → (s.threads i).phase ≡ working d
      → (s.threads i).calls ≡ op ∷ rest
      → Op.step now op d ≡ some (d', r)
      → IsLinear c programs s
      → IsLinear c programs (finish i now op rest d' r s)
  unfolding finish
  finish-IsLinear i now op rest d d' r s at calls done h =
      let (mine, fresh) = subst (λ p. Holds i p s) at (h.holds i) in
      let e : Event = record { thread = i; now = now; op = op; reply = r } in
      let t : Thread = record {
        phase = leaving;
        calls = rest;
        replies = (s.threads i).replies ++ r ∷ [];
      } in
      let s' : SyncCache = record s {
        cache = d';
        threads = update s.threads i t;
        history = s.history ++ e ∷ [];
      } in
      record {
        holds = Holds-step i t s s' (λ j. refl) (inr mine) mine h.holds;
        sequential =
            ap (λ xs. Op.run xs c) (map-last (λ (x : Event). (x.now, x.op)) s.history e)
            ∙ run-append (timed s.history) now op c s.cache d' (replies s.history) r h.sequential
                (ap (Op.step now op) (sym fresh) ∙ done)
            ∙ ap (λ rs. some (d', rs)) (sym (map-last (λ (x : Event). x.reply) s.history e));
        in_order = λ j. finish-in_order i j e rest t s refl refl calls (h.in_order j);
        answered = λ j. finish-answered i j e t s refl refl (h.answered j);
      }

  step-IsLinear : (s t : SyncCache) → Step s t → IsLinear c programs s → IsLinear c programs t
  unfolding lock enter unlock
  step-IsLinear s t (locks i op rest out more free) h =
      phase-IsLinear i locked (some i) s (inl free) refl h
  step-IsLinear s t (enters i at) h =
      let mine : s.owner ≡ some i = subst (λ p. Holds i p s) at (h.holds i) in
      phase-IsLinear i (working s.cache) s.owner s (inr mine) (mine, refl) h
  step-IsLinear s t (unlocks i at) h =
      let mine : s.owner ≡ some i = subst (λ p. Holds i p s) at (h.holds i) in
      phase-IsLinear i outside none s (inr mine) tt h
  step-IsLinear s t (finishes i now op rest d d' r at calls done) h =
      finish-IsLinear i now op rest d d' r s at calls done h

  begin-IsLinear : IsLinear c programs (begin c programs)
  unfolding Op.run events_of
  begin-IsLinear = record {
    holds = λ i. tt;
    sequential = refl;
    in_order = λ i. refl;
    answered = λ i. refl;
  }

  -- Any number of threads that call one `SyncCache`, interleaved in any way, get from it what one
  -- thread would get that made the same calls one after another: in the order in which the calls
  -- end, the cache goes through them as a run of the cache alone, with the same replies. Each
  -- thread's calls come in the order of its program, and each gets its own replies. Never are two
  -- threads inside a method, and what a method has read is still what the cache holds.
  pub Steps-IsLinear : (s : SyncCache) → Steps (begin c programs) s → IsLinear c programs s
  Steps-IsLinear s here = begin-IsLinear
  Steps-IsLinear s (next {t} steps step) = step-IsLinear t s step (Steps-IsLinear t steps)
