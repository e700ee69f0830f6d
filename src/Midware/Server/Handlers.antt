-- ===== src/Midware/Server/Handlers.antt =====
-- The handlers of the commands of EasyBaseServer (midware/src/easy_baseserver.cpp), and the loop of its thread.
use lib_fantuan.Prelude.{
  ℕ, true, false, Option, none, some, List, [], ◌∷◌, ◌++◌, get_elem?, set, if◌then◌else◌,
}
use lib_fantuan.Common.EasyPool.{allocate, free}
use lib_fantuan.Midware.Packet.{Packet}
use lib_fantuan.Midware.Receive.{Received, done, stopped, overrun, out_of_fuel}
use lib_fantuan.Midware.Session
use lib_fantuan.Midware.Session.{Session, Effect}
use lib_fantuan.Midware.Command.{Command}
use lib_fantuan.Midware.Server.{Server, Output, apply, called, insert, erase, Step, handles}

-- The session at `x` becomes `session`, which made the calls `es`.
unfoldable pub store : Server → ℕ → Session × List Effect → Step
unfolding apply called
store s x (session, es) = elim (apply s.clients es) [
  | none ↦ none
  | some clients ↦ some (
    record s { pool = record s.pool { objects = set s.pool.objects x session }; clients = clients },
    true,
    called es,
  )
]

-- `_OnCommandOnConnect`.
unfoldable pub command_on_connect : Session → Server → ℕ → Step
unfolding allocate insert store Session.on_connection
command_on_connect made s conn =
    let (pool, x) = allocate s.pool made in
    elim (get_elem? pool.objects x) [
      | none ↦ none
      | some session ↦
          store (record s { pool = pool; sessions = insert session.session_id x s.sessions }) x
            (Session.on_connection x session conn)
    ]

unfoldable pub freed : ℕ → Step → Step
unfolding free
freed x none = none
freed x (some (s, ok, os)) = some (record s { pool = free s.pool x }, ok, os)

-- `_OnCommandOnDisconnect`, given the connection's `client_`.
unfoldable pub disconnected : Server → Option (Option ℕ) → Step
unfolding erase store freed Session.on_disconnect
disconnected s none = none
disconnected s (some none) = some (s, false, [])
disconnected s (some (some x)) = elim (get_elem? s.pool.objects x) [
  | none ↦ none
  | some session ↦ freed x (
      store (record s { sessions = erase session.session_id s.sessions }) x
        (Session.on_disconnect session))
]

-- `_OnCommandOnDisconnect`.
unfoldable pub command_on_disconnect : Server → ℕ → Step
unfolding disconnected
command_on_disconnect s conn = disconnected s (s.clients conn)

-- The session at `x` after OnData. An error from OnData is not looked at.
unfoldable pub after_data : Server → ℕ → Session → Received → Step
after_data s x session (done buf ps) = some (
  record s {
    pool = record s.pool { objects = set s.pool.objects x (record session { buf = buf }) };
  },
  true,
  handles x ps ∷ [],
)
after_data s x session (stopped buf ps) = some (
  record s {
    pool = record s.pool { objects = set s.pool.objects x (record session { buf = buf }) };
  },
  true,
  handles x ps ∷ [],
)
after_data s x session (overrun ps) = none
after_data s x session out_of_fuel = none

-- `_OnCommandOnData`, given the connection's `client_`.
unfoldable pub received : (Packet → ℕ) → Server → List ℕ → Option (Option ℕ) → Step
unfolding after_data Session.on_data
received handle s bytes none = none
received handle s bytes (some none) = some (s, false, [])
received handle s bytes (some (some x)) = elim (get_elem? s.pool.objects x) [
  | none ↦ none
  | some session ↦ after_data s x session (Session.on_data handle session bytes)
]

-- `_OnCommandOnData`.
unfoldable pub command_on_data : (Packet → ℕ) → Server → ℕ → List ℕ → Step
unfolding received
command_on_data handle s conn bytes = received handle s bytes (s.clients conn)

-- The session that `m_SessionArray` has at `id`, with its address.
unfoldable pub session_at : Server → ℕ → Option (ℕ × Session)
session_at s id = elim (get_elem? s.array id) [
  | none ↦ none
  | some x ↦ elim (get_elem? s.pool.objects x) [ none ↦ none | some session ↦ some (x, session) ]
]

-- `_OnCommandDisconnect`.
unfoldable pub command_disconnect : Server → ℕ → Step
unfolding session_at store Session.disconnect
command_disconnect s id = elim (session_at s id) [
  | none ↦ none
  | some (x, session) ↦ store s x (Session.disconnect session)
]

-- `_OnCommandSendData`. Session.send_data returns 0 wherever it returns.
unfoldable pub command_send_data : Server → ℕ → ℕ → ℕ → List ℕ → Step
unfolding session_at store Session.send_data
command_send_data s id type_id len payload = elim (session_at s id) [
  | none ↦ none
  | some (x, session) ↦ elim (Session.send_data session type_id len payload) [
    | none ↦ none
    | some result ↦ store s x result
  ]
]

-- The loop of `_OnCommandShutdown`.
unfoldable pub disconnect_all : Server → List (ℕ × ℕ) → Option (Server × List Output)
unfolding store Session.disconnect
disconnect_all s [] = some (s, [])
disconnect_all s ((id, x) ∷ m) = elim (get_elem? s.pool.objects x) [
  | none ↦ none
  | some session ↦ elim (store s x (Session.disconnect session)) [
    | none ↦ none
    | some (s', ok, os) ↦ elim (disconnect_all s' m) [
      | none ↦ none
      | some (s'', os') ↦ some (s'', os ++ os')
    ]
  ]
]

-- `_OnCommandShutdown`.
unfoldable pub command_shutdown : Server → Step
unfolding disconnect_all
command_shutdown s = elim (disconnect_all (record s { ready_for_shutdown = true }) s.sessions) [
  | none ↦ none
  | some (s', os) ↦ some (s', true, os)
]

unfoldable pub unless_ready : Server → Step → Step
unless_ready s step = if s.ready_for_shutdown then some (s, true, []) else step

-- `_OnCommand`.
unfoldable pub on_command : Session → (Packet → ℕ) → Server → Command → Step
unfolding unless_ready command_on_connect command_on_disconnect command_disconnect command_on_data
    command_send_data command_shutdown
on_command made handle s (Command.on_connect conn) = unless_ready s (command_on_connect made s conn)
on_command made handle s (Command.on_disconnect conn) = command_on_disconnect s conn
on_command made handle s (Command.disconnect id reason) = command_disconnect s id
on_command made handle s (Command.on_data conn bytes) =
    unless_ready s (command_on_data handle s conn bytes)
on_command made handle s (Command.send_data id type_id len payload) =
    unless_ready s (command_send_data s id type_id len payload)
on_command made handle s Command.shutdown = command_shutdown s
on_command made handle s (Command.on_session_disconnect id) = some (s, false, [])
on_command made handle s (Command.app id) = some (s, false, [])

-- The loop over `m_CommandList` in `_CommandHandler`.
unfoldable pub run_commands :
    Session → (Packet → ℕ) → Server → List Command → Option (Server × List Output)
unfolding on_command
run_commands made handle s [] = some (s, [])
run_commands made handle s (c ∷ cs) = elim (on_command made handle s c) [
  | none ↦ none
  | some (s', ok, os) ↦ elim (run_commands made handle s' cs) [
    | none ↦ none
    | some (s'', os') ↦ some (s'', os ++ os')
  ]
]

-- A turn of `_CommandHandler` once it was notified.
unfoldable pub command_turn : Session → (Packet → ℕ) → Server → Option (Server × List Output)
unfolding run_commands
command_turn made handle s = elim (run_commands made handle s s.commands) [
  | none ↦ none
  | some (s', os) ↦ some (record s' { commands = [] }, os)
]
