-- ===== src/Network/Sending/Wire.antt =====
-- What the loops that send (network/src/easy_connection.cpp, simplenetwork/src/simple_connection.cpp) put on
-- the wire.
use lib_fantuan.Prelude.{
  ℕ, ◌+◌, ◌-◌, ◌≤◌, ◌<◌, ◌≡◌, ◌≢◌, refl, sym, ap, ap₂, ◌∙◌, inl, inr, true, false, List, [], ◌∷◌,
  ◌++◌, arith, take, drop, ◌==◌, if◌then◌else◌, append_assoc, append-nil, take-append-drop,
  drop-drop, drop-take, take-take, Bool-cases,
}
use lib_fantuan.Network.Sending.{
  SendAnswer, wrote, again, interrupted, failed, EasyContext, rest, advance, clear_context, Sending,
  all_sent, suspended, disconnected, gave_up, blocks, outside, after, send_message, retry_loop,
  retry_message, step_back, send_simple,
}

-- Every byte of `message` is on the wire, or is what the context has left.
abbrev pub Accounts : List ℕ → Sending → Type 0
Accounts message (all_sent wire c) = wire ≡ message
Accounts message (suspended wire c) = wire ++ rest c ≡ message
Accounts message (disconnected wire c) = wire ++ rest c ≡ message
Accounts message (gave_up wire c) = wire ++ rest c ≡ message
Accounts message (blocks wire c) = wire ++ rest c ≡ message
Accounts message outside = 1 ≤ 0

-- What `send` can answer for a context: it never takes more bytes than it is given. The loop meets
-- no error but EAGAIN.
pub data Answers : EasyContext → List SendAnswer → Type 0 where
  ends : {c : EasyContext} → Answers c []
  takes :
      {c : EasyContext} {answers : List SendAnswer} (n : ℕ)
      → n ≤ c.len
      → Answers (advance c n) answers
      → Answers c (wrote n ∷ answers)
  delays : {c : EasyContext} {answers : List SendAnswer} → Answers c (again ∷ answers)

-- Bytes that are taken and what is left then.
rest-advance :
    (c : EasyContext) (n : ℕ) → n ≤ c.len → take n (rest c) ++ rest (advance c n) ≡ rest c
rest-advance c n h =
    let left : rest (advance c n) ≡ drop n (rest c) =
      ap (take (c.len - n)) (sym (drop-drop n c.off c.memory))
      ∙ sym (drop-take n c.len (drop c.off c.memory)) in
    ap (◌++◌ (take n (rest c))) left ∙ take-append-drop n (rest c)

after-Accounts :
    (message bytes more : List ℕ) (s : Sending)
    → bytes ++ more ≡ message
    → Accounts more s
    → Accounts message (after bytes s)
after-Accounts message bytes more (all_sent wire c) e h = ap (◌++◌ bytes) h ∙ e
after-Accounts message bytes more (suspended wire c) e h =
    append_assoc bytes wire (rest c) ∙ (ap (◌++◌ bytes) h ∙ e)
after-Accounts message bytes more (disconnected wire c) e h =
    append_assoc bytes wire (rest c) ∙ (ap (◌++◌ bytes) h ∙ e)
after-Accounts message bytes more (gave_up wire c) e h =
    append_assoc bytes wire (rest c) ∙ (ap (◌++◌ bytes) h ∙ e)
after-Accounts message bytes more (blocks wire c) e h =
    append_assoc bytes wire (rest c) ∙ (ap (◌++◌ bytes) h ∙ e)
after-Accounts message bytes more outside e h = h

-- The bytes that are taken are all the bytes.
take-rest : (c : EasyContext) → take c.len (rest c) ≡ rest c
take-rest c = take-take c.len c.len (drop c.off c.memory) (omega arith)

-- One answer of either loop.
taken-Accounts :
    (c : EasyContext) (n : ℕ) (next : Sending)
    → n ≤ c.len
    → Accounts (rest (advance c n)) next
    → Accounts (rest c) (
        if n == 0
        then disconnected [] c
        else (if n == c.len
            then all_sent (take n (rest c)) (clear_context c)
            else after (take n (rest c)) next))
taken-Accounts c n next h a = elim (Bool-cases (n == 0)) [
  | inl closed ↦ rw closed refl
  | inr some_bytes ↦ elim (Bool-cases (n == c.len)) [
    | inl whole ↦
        let all : n ≡ c.len = ground arith in
        rw (some_bytes, whole) (ap (λ k. take k (rest c)) all ∙ take-rest c)
    | inr part ↦
        rw (some_bytes, part)
          (after-Accounts (rest c) (take n (rest c)) (rest (advance c n)) next (rest-advance c n h)
            a)
  ]
]

-- SendMessage(len, buffer) puts the bytes of the message on the wire in order, none twice and none
-- left out: when it marks the message as sent all of it was taken, and otherwise the context has the
-- bytes that were not. Condition: `send` answers with no error but EAGAIN.
pub send_message-Accounts :
    {c : EasyContext} {answers : List SendAnswer}
    → Answers c answers
    → Accounts (rest c) (send_message c answers)
unfolding send_message
send_message-Accounts ends = refl
send_message-Accounts {c} (takes {answers = answers} n h more) =
    taken-Accounts c n (send_message (advance c n) answers) h (send_message-Accounts more)
send_message-Accounts delays = refl

-- What the client's `send` can answer: errors of every kind.
pub data AnyAnswers : EasyContext → List SendAnswer → Type 0 where
  ends : {c : EasyContext} → AnyAnswers c []
  takes :
      {c : EasyContext} {answers : List SendAnswer} (n : ℕ)
      → n ≤ c.len
      → AnyAnswers (advance c n) answers
      → AnyAnswers c (wrote n ∷ answers)
  errs :
      {c : EasyContext} {answers : List SendAnswer} (a : SendAnswer)
      → ((n : ℕ) → a ≢ wrote n)
      → AnyAnswers c (a ∷ answers)

-- SendData of the client's connection does so too, and whatever error `send` meets: the connection
-- is closed then. Condition: `send` takes no more bytes than it is given.
pub send_simple-Accounts :
    {c : EasyContext} {answers : List SendAnswer}
    → AnyAnswers c answers
    → Accounts (rest c) (send_simple c answers)
unfolding send_simple
send_simple-Accounts ends = refl
send_simple-Accounts {c} (takes {answers = answers} n h more) =
    taken-Accounts c n (send_simple (advance c n) answers) h (send_simple-Accounts more)
send_simple-Accounts (errs (wrote n) other) = absurd (other n refl)
send_simple-Accounts (errs again other) = refl
send_simple-Accounts (errs interrupted other) = refl
send_simple-Accounts (errs failed other) = refl

-- A number of bytes that are some, and not all.
part_tests : (n len : ℕ) → 0 < n → n < len → ((n == 0) ≡ false) × ((n == len) ≡ false)
part_tests n len h h' = (ground arith, ground arith)

-- SendMessage() that puts a part of the message on the wire and then meets EAGAIN marks the message
-- as sent, with nothing left of it.
pub retry_message-drops :
    (c : EasyContext) (n : ℕ) (answers : List SendAnswer)
    → 0 < n
    → n < c.len
    → retry_message c (wrote n ∷ again ∷ answers) ≡ all_sent (take n (rest c)) (clear_context c)
unfolding retry_message retry_loop
retry_message-drops c n answers h h' =
    let (some_bytes, part) = part_tests n c.len h h' in
    let full : (c.len == 0) ≡ false = ground arith in
    rw full (
      rw (some_bytes, part) (ap (λ k. all_sent k (clear_context c)) (append-nil (take n (rest c)))))

-- SendMessage(len, buffer) that is interrupted after `n` bytes sends the last of them again.
pub send_message-resends :
    (c : EasyContext) (n : ℕ)
    → 0 < n
    → n < c.len
    → (c' : EasyContext) × (send_message c (wrote n ∷ interrupted ∷ wrote (c.len - n + 1) ∷ [])
        ≡ all_sent (take n (rest c) ++ drop (n - 1) (rest c)) c')
unfolding send_message step_back
send_message-resends c n h h' =
    let (some_bytes, part) = part_tests n c.len h h' in
    let inside : (c.off + n == 0) ≡ false = ground arith in
    let more : (c.len - n + 1 == 0) ≡ false = ground arith in
    let whole : (c.len - n + 1 == c.len - n + 1) ≡ true = ground arith in
    let back : EasyContext = record c { off = c.off + n - 1; len = c.len - n + 1 } in
    let again_from : take (c.len - n + 1) (rest back) ≡ drop (n - 1) (rest c) =
      take-rest back
      ∙ (ap₂ (λ k m. take k (drop m c.memory)) (omega arith) (omega arith)
          ∙ (ap (take (c.len - (n - 1))) (sym (drop-drop (n - 1) c.off c.memory))
              ∙ sym (drop-take (n - 1) c.len (drop c.off c.memory)))) in
    (
      clear_context back,
      rw (some_bytes, part)
          (rw (inside, send_message)
            (rw (more, whole)
              (ap (λ k. all_sent (take n (rest c) ++ k) (clear_context back)) again_from))),
    )
