-- ===== src/Midware/Session.antt =====
-- EasySession (midware/src/easy_session.h, midware/src/easy_session.cpp), as it is built for Linux.
-- A method returns the new session beside what it does to its connection.
pub mod Stream
pub mod Send
mod Tests
use lib_fantuan.Prelude.{
  ℕ, suc, ◌+◌, Option, none, some, List, [], ◌∷◌, ◌++◌, length, take, memcpy, read, le16,
}
use lib_fantuan.Midware.Packet.{Packet, packet_head}
use lib_fantuan.Midware.Receive.{RecvBuf, reset, Received, receive}

-- `MAX_OUTPUT_BUFFER`, the size of `m_SendBuf`.
abbrev pub max_output_buffer : ℕ
max_output_buffer = 65500

-- A connection and a session are known by their addresses. `buf` is `m_iRecvBufLen` and `m_RecvBuf`.
pub record Session : Type 0 where
  pub session_id : ℕ
  pub connection : Option ℕ
  pub buf : RecvBuf
  pub send_buf : List ℕ

-- What a session does to a connection: SetClient, Close, delete, and SendMessage with its bytes.
pub data Effect : Type 0 where
  set_client : ℕ → ℕ → Effect
  close delete : ℕ → Effect
  send : ℕ → List ℕ → Effect

-- `Reset`.
unfoldable pub reset_session : Session → Session
reset_session s = record s { connection = none; buf = reset s.buf }

-- The constructor, over memory that holds `recv_mem` and `send_mem`.
unfoldable pub new_session : List ℕ → List ℕ → Session
unfolding reset_session reset
new_session recv_mem send_mem = reset_session (record {
  session_id = 0;
  connection = none;
  buf = record { len = 0; bytes = recv_mem };
  send_buf = send_mem;
})

-- `OnConnection`, of the session at `this`.
unfoldable pub on_connection : ℕ → Session → ℕ → Session × List Effect
on_connection this s conn = (record s { connection = some conn }, set_client conn this ∷ [])

-- `OnDisconnect`.
unfoldable pub on_disconnect : Session → Session × List Effect
unfolding reset_session
on_disconnect s =
    (reset_session s, (elim s.connection [ none ↦ [] | some conn ↦ close conn ∷ delete conn ∷ [] ]))

-- `Disconnect`: with a connection the Linux build does nothing.
unfoldable pub disconnect : Session → Session × List Effect
unfolding on_disconnect
disconnect s = elim s.connection [ none ↦ on_disconnect s | some conn ↦ (s, []) ]

-- `OnData`: one round of the loop takes a byte at least, or the loop does not end.
unfoldable pub on_data : (Packet → ℕ) → Session → List ℕ → Received
on_data handle s bytes = receive handle (suc (length bytes)) s.buf bytes

-- The call of SendMessage with the first `n` bytes of `m_SendBuf`.
unfoldable pub post : Session → ℕ → Option ℕ → Option (Session × List Effect)
post s n none = none
post s n (some conn) = some (s, send conn (take n s.send_buf) ∷ [])

-- `SendData`. `none`: the payload does not fit into `m_SendBuf`, `pData` holds less than `iLen`
-- bytes, or there is no connection.
unfoldable pub send_data : Session → ℕ → ℕ → List ℕ → Option (Session × List Effect)
unfolding post
send_data s type_id len payload = elim (read payload 0 len) [
  | none ↦ none
  | some body ↦ elim (memcpy s.send_buf 0 (le16 type_id ++ (le16 len ++ body))) [
    | none ↦ none
    | some buf ↦ post (record s { send_buf = buf }) (len + packet_head) s.connection
  ]
]
