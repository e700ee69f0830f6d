-- ===== src/Midware/Client.antt =====
-- EasyBaseClient (midware/src/easy_baseclient.h, midware/src/easy_baseclient.cpp): the callbacks of its
-- connection, and the thread that works off the commands.
pub mod Delivery
mod Tests
use lib_fantuan.Prelude.{
  ℕ, suc, ◌+◌, ◌%◌, ◌^◌, Bool, true, false, Option, none, some, List, [], ◌∷◌, ◌++◌, length,
  replicate, if◌then◌else◌, memcpy, read, le16,
}
use lib_fantuan.Midware.Packet.{Packet, packet_head}
use lib_fantuan.Midware.Receive.{
  RecvBuf, Received, done, stopped, overrun, out_of_fuel, receive, max_input_buffer,
}
use lib_fantuan.Midware.Command
use lib_fantuan.Midware.Command.{Command}
use lib_fantuan.Network.Sending.{EasyContext, SendAnswer, Sending, send_simple}

-- `buf` is `m_iRecvBufLen` and `m_RecvBuf`.
pub record Client : Type 0 where
  pub ready_for_shutdown : Bool
  pub commands : List Command
  pub buf : RecvBuf

-- The constructor, over memory that holds `recv_mem`.
unfoldable pub new_client : List ℕ → Client
new_client recv_mem = record {
  ready_for_shutdown = false;
  commands = [];
  buf = record { len = 0; bytes = recv_mem };
}

-- `PushCommand`.
unfoldable pub push_command : Client → Command → Client
push_command c command = record c { commands = c.commands ++ command ∷ [] }

-- `OnConnection`, the callback.
unfoldable pub connection_made : Client → ℕ → Client × Bool
unfolding push_command
connection_made c conn =
    if c.ready_for_shutdown then (c, false) else (push_command c (Command.on_connect conn), true)

-- `OnDisconnect`, the callback.
unfoldable pub connection_lost : Client → ℕ → Client
unfolding push_command
connection_lost c conn =
    if c.ready_for_shutdown then c else push_command c (Command.on_disconnect conn)

-- `OnData`, the callback. The length is passed to CopyData in 16 bits.
unfoldable pub data_received : Client → ℕ → ℕ → List ℕ → Option Client
unfolding Command.copy_data push_command
data_received c conn len buf =
    if c.ready_for_shutdown then some c else elim (Command.copy_data conn (len % 2 ^ 16) buf) [
      | none ↦ none
      | some command ↦ some (push_command c command)
    ]

-- `Logout`, less the closing of the connection.
unfoldable pub logout : Client → Client
logout c = record c { ready_for_shutdown = true }

-- `SendData`, down to the end of SimpleConnection::SendData for these answers. `none`: the payload does
-- not fit into `buf` behind the header, or `pData` holds less than `iLen` bytes.
unfoldable pub send_data : ℕ → ℕ → List ℕ → List SendAnswer → Option Sending
unfolding send_simple
send_data type_id len payload answers = elim (read payload 0 len) [
  | none ↦ none
  | some body ↦
      elim (memcpy (replicate max_input_buffer 0) 0 (le16 type_id ++ (le16 len ++ body))) [
        | none ↦ none
        | some memory ↦
            some
              (send_simple (record { memory = memory; off = 0; len = len + packet_head }) answers)
      ]
]

-- What the loops of `_OnCommandOnData` lead to: the packets are those that were handled.
after_data : Client → Received → Option (Client × Bool × List Packet)
after_data c (done buf ps) = some (record c { buf = buf }, true, ps)
after_data c (stopped buf ps) = some (record c { buf = buf }, false, ps)
after_data c (overrun ps) = none
after_data c out_of_fuel = none

-- `_OnCommandOnData`: the loops of EasySession::OnData, with the return value of `_HandlePacket` in `handle`.
unfoldable pub command_on_data :
    (Packet → ℕ) → Client → List ℕ → Option (Client × Bool × List Packet)
unfolding after_data receive
command_on_data handle c bytes = after_data c (receive handle (suc (length bytes)) c.buf bytes)

-- `_OnCommand`.
unfoldable pub on_command : (Packet → ℕ) → Client → Command → Option (Client × Bool × List Packet)
unfolding command_on_data
on_command handle c (Command.on_connect conn) = some (c, true, [])
on_command handle c (Command.on_disconnect conn) = some (c, false, [])
on_command handle c (Command.on_data conn bytes) =
    if c.ready_for_shutdown then some (c, true, []) else command_on_data handle c bytes
on_command handle c (Command.send_data id type_id len payload) = some (c, false, [])
on_command handle c Command.shutdown = some (c, false, [])
on_command handle c (Command.disconnect id reason) = some (c, false, [])
on_command handle c (Command.on_session_disconnect id) = some (c, false, [])
on_command handle c (Command.app id) = some (c, false, [])

-- The loop over `m_CommandList` in `_CommandHandler`.
unfoldable pub run_commands : (Packet → ℕ) → Client → List Command → Option (Client × List Packet)
unfolding on_command
run_commands handle c [] = some (c, [])
run_commands handle c (command ∷ commands) = elim (on_command handle c command) [
  | none ↦ none
  | some (c', ok, ps) ↦ elim (run_commands handle c' commands) [
    | none ↦ none
    | some (c'', qs) ↦ some (c'', ps ++ qs)
  ]
]

-- A turn of `_CommandHandler` once it was notified.
unfoldable pub command_turn : (Packet → ℕ) → Client → Option (Client × List Packet)
unfolding run_commands
command_turn handle c = elim (run_commands handle c c.commands) [
  | none ↦ none
  | some (c', ps) ↦ some (record c' { commands = [] }, ps)
]
