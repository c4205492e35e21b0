-- ===== src/Cache/Run.antt =====
-- Whole runs of the cache against runs of the list.
use cache_x.Base.{
  ℕ, zero, suc, ◌+◌, ◌*◌, ◌^◌, ◌<◌, ◌≡◌, refl, ◌∙◌, List, [], ◌∷◌, Option, none, some, Bytes, ℤ,
  pos, negsuc, arith,
}
use cache_x.Index.{find}
use cache_x.Recency
use cache_x.Recency.{Entry, entries}
use cache_x.Recency.Laws.{locate}
use cache_x.Cache.{Cache, unbounded, bounded, set, set_ttl, clear, deadline}
use cache_x.Cache.Model.{Lru, put_ttl, model_step, model_run}
use cache_x.Cache.Op.{Op, step, run}
use cache_x.Cache.Valid.{Within, IsValid, view, Implements}
use cache_x.Cache.Refine.{store-Implements, no_result}
use cache_x.Cache.Reads.{
  erase-Implements, get-Implements, get_into-Implements, ttl-Implements, contains-live,
}

pub unbounded-IsValid : IsValid unbounded
unfolding find locate
unbounded-IsValid = record {
  consistent = record {
    list = record { addresses = tt; keys = tt; below = tt };
    distinct = tt;
    agree = λ k. refl;
    sizes = refl;
  };
  within = tt;
}

pub bounded-IsValid : (n : ℕ) → IsValid (bounded n)
unfolding find locate
bounded-IsValid n = record {
  consistent = record {
    list = record { addresses = tt; keys = tt; below = tt };
    distinct = tt;
    agree = λ k. refl;
    sizes = refl;
  };
  within = omega arith;
}

pub clear-IsValid : (c : Cache) → IsValid c → IsValid (clear c)
unfolding clear Recency.clear find locate
clear-IsValid c h = record {
  consistent = record {
    list = record { addresses = tt; keys = tt; below = tt };
    distinct = tt;
    agree = λ k. refl;
    sizes = refl;
  };
  within = fewer c.capacity;
}
  where
    fewer : (cap : Option ℕ) → Within cap 0
    fewer none = tt
    fewer (some n) = omega arith

-- The same cache, with the result in another form.
answered :
    {R R' : Type 0} {done : Option (Cache × R)} {s : Lru × R} {done' : Option (Cache × R')}
    {s' : Lru × R'} (i : Implements done s)
    → done' ≡ some (i.cache, s'.1)
    → s.0 ≡ s'.0
    → Implements done' s'
answered i defined same = record {
  cache = i.cache;
  defined = defined;
  valid = i.valid;
  same = i.same ∙ same;
}

-- The deadline of a time to live fits the 64-bit count of the clock.
abbrev pub Fits : ℕ → ℤ → Type 0
Fits now (pos ms) = now + ms * 1000000 < 2 ^ 63
Fits now (negsuc _) = Unit {0}

pub set_ttl-Implements :
    (now : ℕ) (k v : Bytes) (t : ℤ) (c : Cache)
    → Fits now t
    → IsValid c
    → Implements (no_result (set_ttl now k v t c)) (put_ttl now k v t (view c), tt)
unfolding set_ttl put_ttl deadline
set_ttl-Implements now k v (pos zero) c f h =
    let i = erase-Implements now k c h in answered i (ground (arith, i.defined)) refl
set_ttl-Implements now k v (negsuc n) c f h =
    let i = erase-Implements now k c h in answered i (ground (arith, i.defined)) refl
set_ttl-Implements now k v (pos (suc n)) c f h =
    let i = store-Implements k v (some (now + suc n * 1000000)) c h in
    answered i (ground (arith, i.defined)) refl

abbrev pub InRange : ℕ → Op → Type 0
InRange now (Op.set_ttl k v t) = Fits now t
InRange now _ = Unit {0}

pub step-Implements :
    (now : ℕ) (op : Op) (c : Cache)
    → InRange now op
    → IsValid c
    → Implements (step now op c) (model_step now op (view c))
unfolding step model_step set clear Recency.clear entries
step-Implements now (Op.set k v) c f h =
    let i = store-Implements k v none c h in answered i (ground (arith, i.defined)) refl
step-Implements now (Op.set_ttl k v t) c f h =
    let i = set_ttl-Implements now k v t c f h in answered i (ground (arith, i.defined)) refl
step-Implements now (Op.get k) c f h =
    let i = get-Implements now k c h in answered i (ground (arith, i.defined)) refl
step-Implements now (Op.get_into k out) c f h =
    let i = get_into-Implements now k c h out in answered i (ground (arith, i.defined)) refl
step-Implements now (Op.erase k) c f h =
    let i = erase-Implements now k c h in answered i (ground (arith, i.defined)) refl
step-Implements now (Op.contains k) c f h = record {
  cache = c;
  defined = ground (arith, contains-live now k c h);
  valid = h;
  same = refl;
}
step-Implements now (Op.ttl k) c f h =
    let i = ttl-Implements now k c h in answered i (ground (arith, i.defined)) refl
step-Implements now Op.clear c f h = record {
  cache = clear c;
  defined = refl;
  valid = clear-IsValid c h;
  same = refl;
}

abbrev pub AllInRange : List (ℕ × Op) → Type 0
AllInRange [] = Unit {0}
AllInRange ((now, op) ∷ ops) = InRange now op × AllInRange ops

-- Every run from a valid cache in which the times to live are in range, so that no deadline
-- overflows the clock, is defined, ends in a valid cache, and gives the replies of the list.
pub run-Implements :
    (ops : List (ℕ × Op)) (c : Cache)
    → AllInRange ops
    → IsValid c
    → Implements (run ops c) (model_run ops (view c))
unfolding run model_run
run-Implements [] c f h = record { cache = c; defined = refl; valid = h; same = refl }
run-Implements ((now, op) ∷ ops) c f h =
    let i = step-Implements now op c f.0 h in
    let j = run-Implements ops i.cache f.1 i.valid in
    record {
      cache = j.cache;
      defined = ground (arith, i.defined, i.same, j.defined);
      valid = j.valid;
      same = ground (arith, i.same, j.same);
    }
