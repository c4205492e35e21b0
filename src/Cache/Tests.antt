-- ===== src/Cache/Tests.antt =====
-- Runs of the cache on small inputs, and the theorems about it at such inputs.
use mathlib.Core.Logic.{◌≢◌}
use cache_x.Base.{
  ℕ, ◌≡◌, refl, List, [], ◌∷◌, Option, none, some, Bytes, codes, arith, true, false, bytes_eq,
  bytes_eq_iff, pos,
}
use cache_x.Index.{find, emplace, erase as erase_index}
use cache_x.Recency
use cache_x.Recency.{entries, Entry, deref, oldest}
use cache_x.Recency.Laws.{locate}
use cache_x.Cache.{
  Cache, store, TtlInfo, missing, bounded, set, set_ttl, get, get_into, erase, ttl, contains, clear,
  trim, keys_by_recency, export_entries, size, increment,
}
use cache_x.Cache.Model.{model_run}
use cache_x.Cache.Valid.{IsValid, Implements, view}
use cache_x.Cache.Trim.{IsTrimmed, trim-IsTrimmed, fit}
use cache_x.Cache.Op.{Op, Reply, run}
use cache_x.Cache.Run.{bounded-IsValid, run-Implements}
use cache_x.Cache.Entries.{remove_key}
use cache_x.Cache.Recent.{Looked, keys_by_recency-set, keys_by_recency-get}
use cache_x.Cache.Visible.{readers_agree}

cache_code : Unit {0}
unfolding store set set_ttl get get_into erase ttl contains clear trim keys_by_recency
    export_entries size increment run bytes_eq find emplace erase_index Recency.insert_newest
    Recency.mark_used Recency.erase Recency.oldest Recency.pop_oldest Recency.clear Recency.entries
cache_code = tt

abbrev two : Cache
two = record {
  list = record {
    nodes =
        record {
          address = 1;
          entry = record { key = codes "b"; value = codes "2"; expires_at = none };
        }
        ∷ record {
          address = 0;
          entry = record { key = codes "a"; value = codes "1"; expires_at = some 5000000 };
        }
        ∷ [];
    fresh = 2;
  };
  index = (codes "b", 1) ∷ (codes "a", 0) ∷ [];
  capacity = some 2;
  evictions = 0;
  expired_removals = 0;
}

two-IsValid : IsValid two
unfolding cache_code locate deref
two-IsValid = record {
  consistent = record {
    list = record {
      addresses = (refl, (refl, tt));
      keys = (refl, (refl, tt));
      below = (omega arith, (omega arith, tt));
    };
    distinct = (refl, (refl, tt));
    agree = λ k. refl;
    sizes = refl;
  };
  within = omega arith;
}

two_built :
    run
      ((0, Op.set_ttl (codes "a") (codes "1") (pos 5)) ∷ (0, Op.set (codes "b") (codes "2")) ∷ [])
      (bounded 2)
    ≡ some (record two { index = two.index }, Reply.done ∷ Reply.done ∷ [])
unfolding cache_code
two_built = refl

abbrev three : Cache
three = record two {
  list = record {
    nodes =
        record {
          address = 2;
          entry = record { key = codes "c"; value = codes "3"; expires_at = none };
        }
        ∷ record {
          address = 1;
          entry = record { key = codes "b"; value = codes "2"; expires_at = none };
        }
        ∷ [];
    fresh = 3;
  };
  index = (codes "c", 2) ∷ (codes "b", 1) ∷ [];
  evictions = 1;
}

set_evicts : set (codes "c") (codes "3") two ≡ some three
unfolding cache_code
set_evicts = refl

abbrev script : List (ℕ × Op)
script =
    (1, Op.set (codes "a") (codes "1"))
    ∷ (2, Op.set_ttl (codes "b") (codes "2") (pos 7))
    ∷ (3, Op.get (codes "a"))
    ∷ (4, Op.set (codes "c") (codes "3"))
    ∷ (5, Op.contains (codes "b"))
    ∷ (6, Op.ttl (codes "c"))
    ∷ (7, Op.erase (codes "c"))
    ∷ []

run-Implements_example : Implements (run script (bounded 2)) (model_run script (view (bounded 2)))
run-Implements_example = run-Implements script (bounded 2) (omega arith) (bounded-IsValid 2)

trim-IsTrimmed_example :
    (c' : Cache) × (trim 3 (record two { capacity = some 1 }) ≡ some c')
    × IsTrimmed (record two { capacity = some 1 }) c'
trim-IsTrimmed_example =
    trim-IsTrimmed 3 (record two { capacity = some 1 })
      (record {
        list = two-IsValid.consistent.list;
        distinct = two-IsValid.consistent.distinct;
        agree = two-IsValid.consistent.agree;
        sizes = two-IsValid.consistent.sizes;
      })
      (omega arith)

keys_by_recency-set_example :
    keys_by_recency three ≡ fit (some 2) (codes "c" ∷ remove_key (codes "c") (keys_by_recency two))
keys_by_recency-set_example =
    keys_by_recency-set (codes "c") (codes "3") two three two-IsValid set_evicts

abbrev touched : Cache
touched = record two {
  list = record (two.list) {
    nodes =
        record {
          address = 0;
          entry = record { key = codes "a"; value = codes "1"; expires_at = some 5000000 };
        }
        ∷ record {
          address = 1;
          entry = record { key = codes "b"; value = codes "2"; expires_at = none };
        }
        ∷ [];
  };
}

get_hits : get 4999999 (codes "a") two ≡ some (touched, some (codes "1"))
unfolding cache_code
get_hits = refl

keys_by_recency-get_example :
    Looked 4999999 (codes "a") (entries two.list.nodes) (keys_by_recency touched) (some (codes "1"))
keys_by_recency-get_example =
    keys_by_recency-get 4999999 (codes "a") two touched (some (codes "1")) two-IsValid get_hits

readers_agree_example :
    (found : Option Bytes) × (info : TtlInfo) × (c₁ : Cache) × (c₂ : Cache) × (c₃ : Cache) × (get
        4999999
        (codes "a")
        two
      ≡ some (c₁, found))
    × (get_into 4999999 (codes "a") (codes "old") two
        ≡ some (c₂, elim found [ none ↦ (false, codes "old") | some v ↦ (true, v) ]))
    × (ttl 4999999 (codes "a") two ≡ some (c₃, info))
    × (contains 4999999 (codes "a") two ≡ some (elim found [ none ↦ false | some _ ↦ true ]))
    × (contains 4999999 (codes "a") two ≡ some (elim info.state [ missing ↦ false | _ ↦ true ]))
readers_agree_example = readers_agree 4999999 (codes "a") (codes "old") two two-IsValid

c_not_b : codes "c" ≢ codes "b"
unfolding bytes_eq
c_not_b = ground (arith, bytes_eq_iff (codes "c") (codes "b"))
