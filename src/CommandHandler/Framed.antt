-- ===== src/CommandHandler/Framed.antt =====
-- Every reply of a command is one line, if no value that is stored has a newline.
use mathlib.Core.Path.{subst}
use cache_x.Base.{
  ℕ, ◌≡◌, Option, none, some, Bytes, Bool, codes, ℤ, pos, ltb, ◌+◌, ◌^◌, ◌/◌, refl, arith,
  Bool-cases, inl, inr, bind-some,
}
use cache_x.Cache.{TtlState, missing, persistent, expiring}
use cache_x.Cache.Op
use cache_x.Cache.Op.{Op}
use cache_x.Sharded
use cache_x.Sharded.{ShardedCache}
use cache_x.Sharded.Op.{step}
use cache_x.Sharded.Values.{Holds, Found, step-Holds}
use cache_x.Protocol.{
  Command, CommandType, set, get, delete, exists, ttl, ping, save, load, quit, reply_integer,
}
use cache_x.Protocol.Format.{
  NoNewline, NoNewline-checked, IsOneLine, reply_value-IsOneLine, reply_integer-IsOneLine,
  reply_error-IsOneLine, reply_ok-IsOneLine, reply_pong-IsOneLine, reply_bye-IsOneLine,
  reply_no_expiry-IsOneLine, reply_nil-IsOneLine,
}
use cache_x.CommandHandler.{
  Moment, World, milliseconds, reply_flag, reply_found, reply_ttl_state, not_enabled, execute_set,
  execute_load, execute_save, execute_as, execute,
}

-- The shards are valid, and no value in them has a newline.
abbrev pub IsPlainWorld : World → Type 0
IsPlainWorld w = Holds NoNewline w.cache

reply_flag-IsOneLine : (b : Bool) → IsOneLine (reply_flag b)
unfolding reply_flag
reply_flag-IsOneLine b = reply_integer-IsOneLine _

reply_found-IsOneLine :
    (found : Option Bytes) → Found NoNewline found → IsOneLine (reply_found found)
unfolding reply_found
reply_found-IsOneLine none h = reply_nil-IsOneLine
reply_found-IsOneLine (some v) h = reply_value-IsOneLine v h

reply_ttl_state-IsOneLine :
    (state : TtlState) (remaining : ℕ) (reply : Bytes)
    → reply_ttl_state state remaining ≡ some reply
    → IsOneLine reply
unfolding reply_ttl_state
reply_ttl_state-IsOneLine missing r reply e = subst IsOneLine (ground arith) reply_nil-IsOneLine
reply_ttl_state-IsOneLine persistent r reply e =
    subst IsOneLine (ground arith) reply_no_expiry-IsOneLine
reply_ttl_state-IsOneLine expiring r reply e = elim (Bool-cases (ltb (r + 999) (2 ^ 63))) [
  | inl fits ↦
      let same : reply_integer (pos ((r + 999) / 1000)) ≡ reply = ground (arith, fits, e) in
      subst IsOneLine same (reply_integer-IsOneLine (pos ((r + 999) / 1000)))
  | inr over ↦ absurd (ground (arith, over, e))
]

not_enabled-IsOneLine : IsOneLine not_enabled
unfolding not_enabled
not_enabled-IsOneLine =
    let text = codes "persistence is not enabled on this server" in
    reply_error-IsOneLine text (NoNewline-checked text refl)

-- The outcome of a command: the world that it leaves, and its reply.
abbrev Outcome : World → Bytes → Type 0
Outcome w reply = IsPlainWorld w × IsOneLine reply

-- A reply that is known to be one line, and the cache that the world has.
with_reply :
    (s : ShardedCache) (text : Bytes) (w : World) (reply : Bytes)
    → s ≡ w.cache
    → text ≡ reply
    → Holds NoNewline s
    → IsOneLine text
    → Outcome w reply
with_reply s text w reply e f h line = (subst (Holds NoNewline) e h, subst IsOneLine f line)

module _ (std_hash : Bytes → ℕ) where
  execute_set-Holds :
      (now : ℕ) (k v : Bytes) (t : Option ℤ) (s s' : ShardedCache)
      → NoNewline v
      → Holds NoNewline s
      → execute_set std_hash now k v t s ≡ some s'
      → Holds NoNewline s'
  unfolding execute_set step
  execute_set-Holds now k v none s s' n h done =
      let ((t, _), ran, rest) = bind-some (Sharded.set std_hash k v s) _ done in
      let same : t ≡ s' = ground (arith, rest) in
      let (kept, _) =
        step-Holds NoNewline std_hash now (Op.set k v) k s t Op.done refl n h
          (ground (arith, ran)) in
      rw (← same) kept
  execute_set-Holds now k v (some seconds) s s' n h done =
      let (ms, _, chain) = bind-some (milliseconds seconds) _ done in
      let ((t, _), ran, rest) = bind-some (Sharded.set_ttl std_hash now k v ms s) _ chain in
      let same : t ≡ s' = ground (arith, rest) in
      let (kept, _) =
        step-Holds NoNewline std_hash now (Op.set_ttl k v ms) k s t Op.done refl n h
          (ground (arith, ran)) in
      rw (← same) kept

  execute_as-Outcome :
      (type : CommandType) (m : Moment) (c : Command) (w w' : World) (reply : Bytes)
      → NoNewline c.value
      → IsPlainWorld w
      → execute_as std_hash type m none c w ≡ some (w', reply)
      → Outcome w' reply
  unfolding execute_as execute_load execute_save step
  execute_as-Outcome set m c w w' reply n h done =
      let (t, ran, rest) =
        bind-some (execute_set std_hash m.now c.key c.value c.ttl w.cache) _ done in
      with_reply t _ w' reply (ground (arith, rest)) (ground (arith, rest))
        (execute_set-Holds m.now c.key c.value c.ttl w.cache t n h ran) reply_ok-IsOneLine
  execute_as-Outcome get m c w w' reply n h done =
      let ((t, found), ran, rest) = bind-some (Sharded.get std_hash m.now c.key w.cache) _ done in
      let (kept, value) =
        step-Holds NoNewline std_hash m.now (Op.get c.key) c.key w.cache t (Op.value found) refl tt
          h (ground (arith, ran)) in
      with_reply t (reply_found found) w' reply (ground (arith, rest)) (ground (arith, rest)) kept
        (reply_found-IsOneLine found value)
  execute_as-Outcome delete m c w w' reply n h done =
      let ((t, erased), ran, rest) =
        bind-some (Sharded.erase std_hash m.now c.key w.cache) _ done in
      let (kept, _) =
        step-Holds NoNewline std_hash m.now (Op.erase c.key) c.key w.cache t (Op.flag erased) refl
          tt h (ground (arith, ran)) in
      with_reply t (reply_flag erased) w' reply (ground (arith, rest)) (ground (arith, rest)) kept
        (reply_flag-IsOneLine erased)
  execute_as-Outcome exists m c w w' reply n h done =
      let (held, _, rest) = bind-some (Sharded.contains std_hash m.now c.key w.cache) _ done in
      with_reply w.cache (reply_flag held) w' reply (ground (arith, rest)) (ground (arith, rest)) h
        (reply_flag-IsOneLine held)
  execute_as-Outcome ttl m c w w' reply n h done =
      let ((t, info), ran, chain) = bind-some (Sharded.ttl std_hash m.now c.key w.cache) _ done in
      let (text, told, rest) = bind-some (reply_ttl_state info.state info.remaining) _ chain in
      let (kept, _) =
        step-Holds NoNewline std_hash m.now (Op.ttl c.key) c.key w.cache t (Op.info info) refl tt h
          (ground (arith, ran)) in
      with_reply t text w' reply (ground (arith, rest)) (ground (arith, rest)) kept
        (reply_ttl_state-IsOneLine info.state info.remaining text told)
  execute_as-Outcome ping m c w w' reply n h done =
      with_reply w.cache _ w' reply (ground (arith, done)) (ground (arith, done)) h
        reply_pong-IsOneLine
  execute_as-Outcome save m c w w' reply n h done =
      with_reply w.cache _ w' reply (ground (arith, done)) (ground (arith, done)) h
        not_enabled-IsOneLine
  execute_as-Outcome load m c w w' reply n h done =
      with_reply w.cache _ w' reply (ground (arith, done)) (ground (arith, done)) h
        not_enabled-IsOneLine
  execute_as-Outcome quit m c w w' reply n h done =
      with_reply w.cache _ w' reply (ground (arith, done)) (ground (arith, done)) h
        reply_bye-IsOneLine

  -- A command on a server without persistence, whose value has no newline: neither has any value
  -- that is stored afterwards, and the reply is one line.
  pub execute-IsOneLine :
      (m : Moment) (c : Command) (w w' : World) (reply : Bytes)
      → NoNewline c.value
      → IsPlainWorld w
      → execute std_hash m none c w ≡ some (w', reply)
      → IsPlainWorld w' × IsOneLine reply
  unfolding execute
  execute-IsOneLine m c w w' reply n h done = execute_as-Outcome c.type m c w w' reply n h done
