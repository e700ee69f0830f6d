-- ===== src/Network/Sending.antt =====
-- The loops that send: EasyConnection::SendMessage (network/src/easy_connection.cpp, Linux), and
-- SimpleConnection::SendData (simplenetwork/src/simple_connection.cpp).
pub mod Wire
pub mod Outgoing
use lib_fantuan.Prelude.{
  ℕ, zero, suc, ◌+◌, ◌-◌, Option, none, some, List, [], ◌∷◌, ◌++◌, take, drop, set, ◌==◌,
  if◌then◌else◌,
}

-- What `send` answers: the number of bytes that it took, or the errors EAGAIN, EINTR and others.
pub data SendAnswer : Type 0 where
  wrote : ℕ → SendAnswer
  again interrupted failed : SendAnswer

-- `EasyContext`: `buffer_` is `off` bytes into the message's memory.
pub record EasyContext : Type 0 where
  pub memory : List ℕ
  pub off : ℕ
  pub len : ℕ

-- The bytes of the message that were not taken yet.
abbrev pub rest : EasyContext → List ℕ
rest c = take c.len (drop c.off c.memory)

-- The context once `n` bytes were taken.
abbrev pub advance : EasyContext → ℕ → EasyContext
advance c n = record c { off = c.off + n; len = c.len - n }

-- The marks at the end: `buffer_[0] = 0` and `len_ = 0`.
abbrev pub clear_context : EasyContext → EasyContext
clear_context c = record c { memory = set c.memory c.off 0; len = 0 }

-- How a loop ends, with the bytes that `send` took: the marks are made; EAGAIN; the connection is
-- disconnected; it stops; a call of `send` has no answer yet; or `buffer_` comes to stand before
-- the message.
pub data Sending : Type 0 where
  all_sent suspended disconnected gave_up blocks : List ℕ → EasyContext → Sending
  outside : Sending

abbrev pub after : List ℕ → Sending → Sending
after bytes (all_sent wire c) = all_sent (bytes ++ wire) c
after bytes (suspended wire c) = suspended (bytes ++ wire) c
after bytes (disconnected wire c) = disconnected (bytes ++ wire) c
after bytes (gave_up wire c) = gave_up (bytes ++ wire) c
after bytes (blocks wire c) = blocks (bytes ++ wire) c
after bytes outside = outside

-- The context after an error is taken for -1 bytes: the length grows by one and `buffer_` goes back.
unfoldable pub step_back : EasyContext → Option EasyContext
step_back c = if c.off == 0 then none else some (record c { off = c.off - 1; len = c.len + 1 })

-- `SendMessage(len, buffer)` behind its first lines. Of the errors only EAGAIN is looked at.
unfoldable pub send_message : EasyContext → List SendAnswer → Sending
unfolding step_back
send_message c [] = blocks [] c
send_message c (wrote n ∷ answers) =
    let bytes = take n (rest c) in
    let next = after bytes (send_message (advance c n) answers) in
    if n == 0
    then disconnected [] c
    else (if n == c.len then all_sent bytes (clear_context c) else next)
send_message c (again ∷ answers) = suspended [] c
send_message c (interrupted ∷ answers) = elim (step_back c) [
  | none ↦ outside
  | some c' ↦ send_message c' answers
]
send_message c (failed ∷ answers) = elim (step_back c) [
  | none ↦ outside
  | some c' ↦ send_message c' answers
]

-- The loop of `SendMessage()`, which EPOLLOUT calls, with `p` and `total` in the place of `buffer_` and
-- `len_` in `p`; the context `c` stays as it was.
unfoldable pub retry_loop : EasyContext → EasyContext → List SendAnswer → Sending
retry_loop c p [] = blocks [] c
retry_loop c p (wrote n ∷ answers) =
    let bytes = take n (rest p) in
    let next = after bytes (retry_loop c (advance p n) answers) in
    if n == 0
    then disconnected [] c
    else (if n == p.len then all_sent bytes (clear_context c) else next)
retry_loop c p (again ∷ answers) = all_sent [] (clear_context c)
retry_loop c p (interrupted ∷ answers) = retry_loop c p answers
retry_loop c p (failed ∷ answers) = gave_up [] c

-- `SendMessage()`: with nothing left it returns at once.
unfoldable pub retry_message : EasyContext → List SendAnswer → Sending
unfolding retry_loop
retry_message c answers = if c.len == 0 then all_sent [] c else retry_loop c c answers

-- `SimpleConnection::SendData`: every error closes the connection.
unfoldable pub send_simple : EasyContext → List SendAnswer → Sending
send_simple c [] = blocks [] c
send_simple c (wrote n ∷ answers) =
    let bytes = take n (rest c) in
    let next = after bytes (send_simple (advance c n) answers) in
    if n == 0
    then disconnected [] c
    else (if n == c.len then all_sent bytes (clear_context c) else next)
send_simple c (again ∷ answers) = disconnected [] c
send_simple c (interrupted ∷ answers) = disconnected [] c
send_simple c (failed ∷ answers) = disconnected [] c
