-- ===== src/Network/Simple.antt =====
-- SimpleConnection and the thread of SimpleWorker (simplenetwork/src/simple_connection.cpp,
-- simplenetwork/src/simple_worker.cpp), without SendData, which is in Sending. What connect, select and recv
-- answer is an input.
pub mod Delivered
mod Tests
use lib_fantuan.Prelude.{
  ℕ, ◌+◌, ◌-◌, ◌^◌, Bool, true, false, Option, none, some, List, [], ◌∷◌, ◌++◌, length, memcpy,
  replicate,
}
use lib_fantuan.Midware.Receive.{max_input_buffer}

-- The calls of `handler_`. OnData has a length and the buffer.
pub data Notice : Type 0 where
  on_connection : Notice
  on_data : ℕ → List ℕ → Notice
  on_disconnect : Notice

-- `buffer` is the memory of recv_context_, and `notices` has the latest call last.
pub record SimpleConnection : Type 0 where
  pub buffer : List ℕ
  pub is_open : Bool
  pub notices : List Notice

abbrev pub new_simple : SimpleConnection
new_simple = record { buffer = replicate max_input_buffer 0; is_open = false; notices = [] }

abbrev pub notify : Notice → SimpleConnection → SimpleConnection
notify k c = record c { notices = c.notices ++ k ∷ [] }

unfoldable pub close_simple : SimpleConnection → SimpleConnection
close_simple c = notify Notice.on_disconnect (record c { is_open = false })

-- Connect, by what `connect` answers, with what it returns.
unfoldable pub connect_simple : Bool → SimpleConnection → SimpleConnection × Bool
unfolding close_simple
connect_simple true c = (notify Notice.on_connection (record c { is_open = true }), true)
connect_simple false c = (close_simple (record c { is_open = true }), false)

-- What recv answers: bytes, 0 where the other side has closed, or SOCKET_ERROR.
pub data Answer : Type 0 where
  got : List ℕ → Answer
  closed : Answer
  failed : Answer

-- RecvData, or nothing where recv stores outside the buffer. The length -1 is handed on as 32 bits.
unfoldable pub recv_simple : Answer → SimpleConnection → Option SimpleConnection
recv_simple (got []) c = some c
recv_simple (got (x ∷ xs)) c = elim (memcpy c.buffer 0 (x ∷ xs)) [
  | none ↦ none
  | some buf ↦ some (notify (Notice.on_data (length (x ∷ xs)) buf) (record c { buffer = buf }))
]
recv_simple closed c = some c
recv_simple failed c = some (notify (Notice.on_data (2 ^ 32 - 1) c.buffer) c)

-- What select answers: an error, a timeout, a socket that is readable, or one with an exception only.
pub data Selected : Type 0 where
  select_failed : Selected
  timed_out : Selected
  readable : Answer → Selected
  exceptional : Selected

-- How far the thread has come: it goes round, it has returned, or it has stored outside the buffer.
pub data Running : Type 0 where
  goes_round : SimpleConnection → Running
  returned : SimpleConnection → Running
  outside : Running

-- SimpleThread, for the answers of its rounds.
unfoldable pub simple_thread : List Selected → SimpleConnection → Running
unfolding recv_simple close_simple
simple_thread [] c = goes_round c
simple_thread (select_failed ∷ answers) c = returned (close_simple c)
simple_thread (timed_out ∷ answers) c = simple_thread answers c
simple_thread (readable a ∷ answers) c = elim (recv_simple a c) [
  | none ↦ outside
  | some d ↦ simple_thread answers d
]
simple_thread (exceptional ∷ answers) c = returned (close_simple c)

-- EasyBaseClient::Login (midware/src/easy_baseclient.cpp): the thread is started whatever Connect returns.
unfoldable pub login : Bool → List Selected → SimpleConnection → Running
unfolding connect_simple simple_thread
login connects answers c = let (d, success) = connect_simple connects c in simple_thread answers d
