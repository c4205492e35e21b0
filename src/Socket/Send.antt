-- ===== src/Socket/Send.antt =====
-- What `send_all` puts on the socket.
use mathlib.Core.List.{append_assoc, append-nil}
use cache_x.Base.{
  ℕ, zero, suc, ◌+◌, ◌-◌, ◌≤◌, ◌≡◌, refl, ap, sym, ◌∙◌, List, [], ◌∷◌, ◌++◌, Option, none, some,
  Bytes, Bool, true, false, if◌then◌else◌, ltb, length, take, drop, take_self, arith, Bool-cases,
  inl, inr,
}
use cache_x.Socket.{
  Sent, wrote, interrupted, broken, Sending, offered, put_on_wire, send_from, send_all,
}

-- `send` takes at most the bytes that it is offered.
abbrev pub AllOffered : List Sent → ℕ → Type 0
AllOffered [] left = Unit {0}
AllOffered (wrote n ∷ results) left = (n ≤ left) × AllOffered results (left - n)
AllOffered (interrupted ∷ results) left = AllOffered results left
AllOffered (broken ∷ results) left = Unit {0}

-- The bytes on the wire are the first of the text, and all of them if the answer is `true`.
abbrev pub IsSent : Bytes → Sending → Type 0
IsSent text s =
    ((n : ℕ) × (n ≤ length text) × (s.wire ≡ take n text)) × (s.answer ≡ some true → s.wire ≡ text)

length-drop : (k : ℕ) (xs : Bytes) → length (drop k xs) ≡ length xs - k
length-drop zero xs = omega arith
length-drop (suc k) [] = omega arith
length-drop (suc k) (x ∷ xs) = omega (arith, length-drop k xs)

take-nil : (n : ℕ) → take {A = ℕ} n [] ≡ []
take-nil zero = refl
take-nil (suc n) = refl

-- Two parts of a text that follow one another.
take-append-drop : (k n : ℕ) (xs : Bytes) → take k xs ++ take n (drop k xs) ≡ take (k + n) xs
take-append-drop zero n xs = ap (λ m. take m xs) (omega arith)
take-append-drop (suc k) n [] = take-nil n ∙ sym (take-nil (suc k + n))
take-append-drop (suc k) n (x ∷ xs) =
    let one : suc (k + n) ≡ suc k + n = omega arith in
    ap (◌∷◌ x) (take-append-drop k n xs) ∙ ap (λ m. take m (x ∷ xs)) one

-- What the later calls put behind the first `sent` bytes.
abbrev IsSentFrom : Bytes → ℕ → Sending → Type 0
IsSentFrom text sent s =
    ((n : ℕ) × (n ≤ length text) × (take sent text ++ s.wire ≡ take n text))
    × (s.answer ≡ some true → take sent text ++ s.wire ≡ text)

nothing_more :
    (text : Bytes) (sent : ℕ) (answer : Option Bool)
    → sent ≤ length text
    → (answer ≡ some true → length text ≤ sent)
    → IsSentFrom text sent (record { wire = []; answer = answer })
nothing_more text sent answer h all =
    let same = append-nil (take sent text) in
    ((sent, h, same), λ e. same ∙ take_self sent text (all e))

-- A call of `send`, and the calls after it.
put_on_wire-IsSentFrom :
    (text : Bytes) (sent n : ℕ) (later : Sending)
    → IsSentFrom text (sent + n) later
    → IsSentFrom text sent (put_on_wire n (offered text sent (length text - sent)) later)
unfolding offered
put_on_wire-IsSentFrom text sent n later ((m, low, part), whole) =
    let buffer : offered text sent (length text - sent) ≡ drop sent text =
      take_self (length text - sent) (drop sent text) (omega (arith, length-drop sent text)) in
    let same : take sent text ++ (take n (offered text sent (length text - sent)) ++ later.wire)
        ≡ take (sent + n) text ++ later.wire =
      ap (λ b. take sent text ++ (take n b ++ later.wire)) buffer
      ∙ sym (append_assoc (take sent text) (take n (drop sent text)) later.wire)
      ∙ ap (λ b. b ++ later.wire) (take-append-drop sent n text) in
    ((m, low, same ∙ part), λ e. same ∙ whole e)

send_from-IsSentFrom :
    (results : List Sent) (text : Bytes) (sent : ℕ)
    → sent ≤ length text
    → AllOffered results (length text - sent)
    → IsSentFrom text sent (send_from results text sent)
unfolding send_from
send_from-IsSentFrom [] text sent h f =
    nothing_more text sent (if ltb sent (length text) then none else some true) h
      (λ e. ground (arith, e))
send_from-IsSentFrom (wrote n ∷ results) text sent h (f, fs) =
    elim (Bool-cases (ltb sent (length text))) [
      | inr all ↦ rw all (nothing_more text sent (some true) h (λ _. ground (arith, all)))
      | inl more ↦ rw more (
          put_on_wire-IsSentFrom text sent n (send_from results text (sent + n))
            (send_from-IsSentFrom results text (sent + n) (omega arith) (rw (← left_over) fs)))
    ]
  where
    left_over : length text - sent - n ≡ length text - (sent + n)
    left_over = omega arith
send_from-IsSentFrom (interrupted ∷ results) text sent h f =
    elim (Bool-cases (ltb sent (length text))) [
      | inr all ↦ rw all (nothing_more text sent (some true) h (λ _. ground (arith, all)))
      | inl more ↦ rw more (send_from-IsSentFrom results text sent h f)
    ]
send_from-IsSentFrom (broken ∷ results) text sent h f =
    nothing_more text sent (some (if ltb sent (length text) then false else true)) h
      (λ e. ground (arith, e))

-- However the system splits a text, what the calls of `send` together put on the socket is its
-- beginning, without a gap, in order and with no byte twice; when `send_all` answers `true`, it is
-- the whole text. A `send` takes no more than it is offered.
pub send_all-IsSent :
    (results : List Sent) (text : Bytes)
    → AllOffered results (length text)
    → IsSent text (send_all results text)
unfolding send_all
send_all-IsSent results text f =
    let whole : length text ≡ length text - 0 = omega arith in
    send_from-IsSentFrom results text 0 (omega arith) (rw (← whole) f)
