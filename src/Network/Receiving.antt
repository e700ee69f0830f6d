-- ===== src/Network/Receiving.antt =====
-- EasyConnection::RecvData (network/src/easy_connection.cpp, Linux).
pub mod Chunks
use lib_fantuan.Prelude.{
  ℕ, ◌+◌, Option, none, some, List, [], ◌∷◌, length, set, ◌==◌, if◌then◌else◌, memcpy,
}

-- `MAXLINE`.
abbrev pub maxline : ℕ
maxline = 256

-- What `recv` answers: bytes, one at least, the errors EAGAIN, EINTR and others, and 0 at the end.
pub data RecvAnswer : Type 0 where
  got : List ℕ → RecvAnswer
  again interrupted failed closed : RecvAnswer

-- How RecvData ends: OnData with a length and the memory at `buffer_`, or Disconnect; `blocks` is a
-- call of `recv` with no answer yet, and `outside` a store outside the memory.
pub data Received : Type 0 where
  on_data : ℕ → List ℕ → Received
  disconnects : List ℕ → Received
  blocks outside : Received

store_at : List ℕ → Option ℕ → List ℕ → Option (List ℕ)
store_at buf none bytes = none
store_at buf (some off) bytes = memcpy buf off bytes

-- The loop: `len` is `len_`, and `at` is `recvNum`, `none` for -1.
unfoldable pub recv_loop : List ℕ → ℕ → Option ℕ → List RecvAnswer → Received
unfolding store_at
recv_loop buf len at [] = blocks
recv_loop buf len at (got bytes ∷ answers) = elim (store_at buf at bytes) [
  | none ↦ outside
  | some buf' ↦
      let rest = recv_loop buf' (len + length bytes) (some (length bytes)) answers in
      if length bytes == maxline then rest else on_data (len + length bytes) buf'
]
recv_loop buf len at (again ∷ answers) = on_data len buf
recv_loop buf len at (interrupted ∷ answers) = recv_loop buf len none answers
recv_loop buf len at (failed ∷ answers) = disconnects buf
recv_loop buf len at (closed ∷ answers) = disconnects buf

-- `RecvData` with the memory `buf` at `buffer_`.
unfoldable pub recv_data : List ℕ → List RecvAnswer → Received
unfolding recv_loop
recv_data buf answers = recv_loop (set buf 0 10) 0 (some 0) answers
