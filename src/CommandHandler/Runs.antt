-- ===== src/CommandHandler/Runs.antt =====
-- What a command does to the shards: a call of one shard keeps every shard sound, a save changes none.
use cache_x.Base.{
  get_elem?-lt, ℕ, ◌<◌, ◌≡◌, Option, none, some, Bytes, refl, arith, length, length-set, get_elem?,
  set as write,
}
use cache_x.Cache.{Cache}
use cache_x.Cache.Model.{Lru}
use cache_x.Cache.Valid.{IsValid, Implements, view}
use cache_x.Sharded.{ShardedCache, on_shard}
use cache_x.CommandHandler.{Moment, World, execute_save}
use cache_x.CommandHandler.Deadlines.{
  DeadlinesFit, IsSound, AllSound, DeadlinesFit-view, AllSound-get, AllSound-set,
}

-- The call is defined, leaves sound shards, and its result has a property.
pub record Runs {R : Type 0} (s : ShardedCache) (Q : R → Type 0) (done : Option (ShardedCache × R))
    : Type 0 where
  pub cache : ShardedCache
  pub result : R
  pub defined : done ≡ some (cache, result)
  pub valid : AllSound cache.shards
  pub count : length cache.shards ≡ length s.shards
  pub good : Q result

on_shard-Runs :
    {R : Type 0} (i : ℕ) (f : Cache → Option (Cache × R)) (Q : R → Type 0) (s : ShardedCache)
    → AllSound s.shards
    → i < length s.shards
    → ((d : Cache)
        → get_elem? s.shards i ≡ some d
        → IsSound d
        → (c : Cache) × (r : R) × (f d ≡ some (c, r)) × IsSound c × Q r)
    → Runs s Q (on_shard i f s)
unfolding on_shard
on_shard-Runs i f Q s h below call =
    let (d, at) = get_elem?-lt s.shards i below in
    let (c, r, done, v, q) = call d at (AllSound-get s.shards i d h at) in
    record {
      cache = record { shards = write s.shards i c };
      result = r;
      defined = ground (arith, at, done);
      valid = AllSound-set s.shards i c h v;
      count = length-set s.shards i c;
      good = q;
    }

-- So it is for a call of the cache that implements a step of the list of its entries.
pub implemented-Runs :
    {R : Type 0} (i : ℕ) (f : Cache → Option (Cache × R)) (model : Lru → Lru × R) (Q : R → Type 0)
    (s : ShardedCache)
    → AllSound s.shards
    → i < length s.shards
    → ((d : Cache) → IsValid d → Implements (f d) (model (view d)))
    → ((d : Cache)
        → DeadlinesFit (view d).items
        → DeadlinesFit (model (view d)).0.items × Q (model (view d)).1)
    → Runs s Q (on_shard i f s)
implemented-Runs i f model Q s h below implements keeps =
    on_shard-Runs i f Q s h below (λ d at sound.
      let m = implements d sound.0 in
      let (fit, good) = keeps d sound.1 in
      (
        m.cache,
        (model (view d)).1,
        m.defined,
        (m.valid, DeadlinesFit-view m.cache (model (view d)).0 m.same fit),
        good,
      ))

pub execute_save-cache :
    (m : Moment) (path : Option Bytes) (w : World) → (execute_save m path w).0.cache ≡ w.cache
unfolding execute_save
execute_save-cache m none w = refl
execute_save-cache m (some path) w = refl
