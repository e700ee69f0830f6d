-- ===== src/Network/Sending/Outgoing.antt =====
-- The sending half of a connection of the Linux build (network/src/easy_connection.cpp): the
-- semaphore, the events of epoll and the message that is under way.
use lib_fantuan.Prelude.{
  ℕ, ◌+◌, ◌-◌, ◌≤◌, ◌≡◌, refl, subst, inl, inr, ◌⊎◌, Bool, true, false, List, [], ◌∷◌, Option, none,
  some, arith, take, ◌==◌, if◌then◌else◌, Bool-cases,
}
use lib_fantuan.Network.Sending.{
  SendAnswer, failed, EasyContext, rest, advance, clear_context, Sending, all_sent, suspended,
  disconnected, gave_up, blocks, outside, after, send_message, retry_loop, retry_message,
}
use lib_fantuan.Network.Sending.Wire.{Answers, ends, takes, delays}

-- `send_context_`, the value of `sem_`, whether `ev_` asks for EPOLLOUT, and how often OnDisconnect was called.
pub record Outgoing : Type 0 where
  pub context : EasyContext
  pub permits : ℕ
  pub watched : Bool
  pub lost : ℕ

-- The constructor, which leaves the context unset, and the events that AcceptConnection asks for.
abbrev pub new_outgoing : EasyContext → Outgoing
new_outgoing c = record { context = c; permits = 1; watched = false; lost = 0 }

-- What SendMessage(len, buffer) does when its loop has ended. This loop does not give up.
abbrev pub after_send : Outgoing → Sending → Option Outgoing
after_send o (all_sent bytes c) = some (record o { context = c; permits = o.permits + 1 })
after_send o (suspended bytes c) = some (record o { context = c; watched = true })
after_send o (disconnected bytes c) =
    some (record o { context = c; permits = o.permits + 1; lost = o.lost + 1 })
after_send o (gave_up bytes c) = none
after_send o (blocks bytes c) = none
after_send o outside = none

-- SendMessage(len, buffer); without a permit the caller waits.
unfoldable pub send_buffer : EasyContext → List SendAnswer → Outgoing → Option Outgoing
send_buffer message answers o =
    if o.permits == 0
    then none
    else after_send (record o { permits = o.permits - 1 }) (send_message message answers)

-- What SendMessage() does when its loop has ended. This loop does not suspend.
abbrev pub after_flush : Outgoing → Sending → Option Outgoing
after_flush o (all_sent bytes c) =
    some (record o { context = c; permits = o.permits + 1; watched = false })
after_flush o (disconnected bytes c) =
    some (record o { permits = o.permits + 1; lost = o.lost + 1 })
after_flush o (gave_up bytes c) = some (record o { permits = o.permits + 1 })
after_flush o (suspended bytes c) = none
after_flush o (blocks bytes c) = none
after_flush o outside = none

-- SendMessage(), at EPOLLOUT.
unfoldable pub flush : List SendAnswer → Outgoing → Option Outgoing
flush answers o =
    if o.context.len == 0 then some o else after_flush o (retry_message o.context answers)

-- The calls so far: messages with at least one byte, and an EPOLLOUT where it was asked for, which
-- sends the rest or meets EAGAIN.
pub data History : Outgoing → Type 0 where
  accepted : (c : EasyContext) → History (new_outgoing c)
  sends :
      {o o' : Outgoing} (message : EasyContext) (answers : List SendAnswer)
      → History o
      → 1 ≤ message.len
      → Answers message answers
      → send_buffer message answers o ≡ some o'
      → History o'
  flushes :
      {o o' : Outgoing} (answers : List SendAnswer) (bytes : List ℕ) (c : EasyContext)
      → History o
      → o.watched ≡ true
      → retry_message o.context answers ≡ all_sent bytes c
      → flush answers o ≡ some o'
      → History o'

-- Either nothing is under way and one caller may send, or EPOLLOUT is awaited with bytes to send and
-- nobody else may.
abbrev pub Balanced : Outgoing → Type 0
Balanced o =
    ((o.watched ≡ false) × (o.permits ≡ 1))
    ⊎ ((o.watched ≡ true) × (o.permits ≡ 0) × (1 ≤ o.context.len))

-- A loop that is suspended has bytes left.
abbrev Left : Sending → Type 0
Left (suspended bytes c) = 1 ≤ c.len
Left (all_sent bytes c) = 0 ≤ 0
Left (disconnected bytes c) = 0 ≤ 0
Left (gave_up bytes c) = 1 ≤ 0
Left (blocks bytes c) = 0 ≤ 0
Left outside = 0 ≤ 0

after-Left : (bytes : List ℕ) (s : Sending) → Left s → Left (after bytes s)
after-Left bytes (suspended wire c) h = h
after-Left bytes (all_sent wire c) h = h
after-Left bytes (disconnected wire c) h = h
after-Left bytes (gave_up wire c) h = h
after-Left bytes (blocks wire c) h = h
after-Left bytes outside h = h

taken-Left :
    (c : EasyContext) (n : ℕ) (next : Sending)
    → n ≤ c.len
    → (1 ≤ c.len - n → Left next)
    → Left (
        if n == 0
        then disconnected [] c
        else (if n == c.len
            then all_sent (take n (rest c)) (clear_context c)
            else after (take n (rest c)) next))
taken-Left c n next h l = elim (Bool-cases (n == 0)) [
  | inl closed ↦ rw closed (omega arith)
  | inr some_bytes ↦ elim (Bool-cases (n == c.len)) [
    | inl whole ↦ rw (some_bytes, whole) (omega arith)
    | inr part ↦
        rw (some_bytes, part) (after-Left (take n (rest c)) next (l (ground (arith, h, part))))
  ]
]

send_message-Left :
    {c : EasyContext} {answers : List SendAnswer}
    → Answers c answers
    → 1 ≤ c.len
    → Left (send_message c answers)
unfolding send_message
send_message-Left ends h = omega arith
send_message-Left {c} (takes {answers = answers} n small more) h =
    taken-Left c n (send_message (advance c n) answers) small (λ l. send_message-Left more l)
send_message-Left delays h = h

-- A call that returns leaves a balanced connection.
abbrev Returns : Option Outgoing → Type 0
Returns none = 0 ≤ 0
Returns (some o) = Balanced o

after_send-Returns :
    (o : Outgoing) (s : Sending)
    → o.watched ≡ false
    → o.permits ≡ 0
    → Left s
    → Returns (after_send o s)
after_send-Returns o (all_sent bytes c) w p l = inl (w, omega arith)
after_send-Returns o (suspended bytes c) w p l = inr (refl, p, l)
after_send-Returns o (disconnected bytes c) w p l = inl (w, omega arith)
after_send-Returns o (gave_up bytes c) w p l = absurd (omega arith)
after_send-Returns o (blocks bytes c) w p l = omega arith
after_send-Returns o outside w p l = omega arith

send_buffer-Returns :
    (message : EasyContext) (answers : List SendAnswer) (o : Outgoing)
    → 1 ≤ message.len
    → Answers message answers
    → Balanced o
    → Returns (send_buffer message answers o)
unfolding send_buffer
send_buffer-Returns message answers o h a (inl (w, p)) =
    let free : (o.permits == 0) ≡ false = ground arith in
    rw free (
      after_send-Returns (record o { permits = o.permits - 1 }) (send_message message answers) w
        (omega (arith, p)) (send_message-Left a h))
send_buffer-Returns message answers o h a (inr (w, p, l)) =
    let taken : (o.permits == 0) ≡ true = ground arith in rw taken (omega arith)

flush-Returns :
    (answers : List SendAnswer) (bytes : List ℕ) (c : EasyContext) (o : Outgoing)
    → o.watched ≡ true
    → retry_message o.context answers ≡ all_sent bytes c
    → Balanced o
    → Returns (flush answers o)
unfolding flush
flush-Returns answers bytes c o w e (inl (u, p)) = absurd (cc)
flush-Returns answers bytes c o w e (inr (u, p, l)) =
    let left : (o.context.len == 0) ≡ false = ground arith in
    rw (left, e) (inl (refl, omega (arith, p)))

-- However the calls of both SendMessage follow each other, one caller may send when nothing is under
-- way, and while a message is suspended EPOLLOUT is asked for, the message has bytes left and nobody else may
-- send: the permit is neither lost nor given twice.
-- Conditions: no message is empty, `send` takes no more bytes than it is given, it answers with no
-- error but EAGAIN, and SendMessage() runs only when EPOLLOUT was asked for and then sends the rest or
-- meets EAGAIN.
pub History-Balanced : {o : Outgoing} → History o → Balanced o
History-Balanced (accepted c) = inl (refl, refl)
History-Balanced (sends {o = o} message answers before h a e) =
    subst Returns e (send_buffer-Returns message answers o h a (History-Balanced before))
History-Balanced (flushes {o = o} answers bytes c before w r e) =
    subst Returns e (flush-Returns answers bytes c o w r (History-Balanced before))

flush-failed :
    (o : Outgoing)
    → 1 ≤ o.context.len
    → flush (failed ∷ []) o ≡ some (record o { permits = o.permits + 1 })
unfolding flush retry_message retry_loop
flush-failed o h = let left : (o.context.len == 0) ≡ false = ground arith in rw left refl

-- SendMessage() keeps the message when `send` fails, and EPOLLOUT stays asked for: each further call
-- that fails gives the semaphore another permit, so that after two of them two callers may send at
-- once. Condition: the message has bytes left.
pub flush-second_permit :
    (o : Outgoing)
    → 1 ≤ o.context.len
    → (o1 : Outgoing) × (flush (failed ∷ []) o ≡ some o1)
      × (flush (failed ∷ []) o1 ≡ some (record o { permits = o.permits + 1 + 1 }))
flush-second_permit o h =
    let once = record o { permits = o.permits + 1 } in (once, flush-failed o h, flush-failed once h)
