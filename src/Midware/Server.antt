-- ===== src/Midware/Server.antt =====
-- EasyBaseServer (midware/src/easy_baseserver.h, midware/src/easy_baseserver.cpp) in the Linux build:
-- the callbacks that the network's threads run, and the thread that works off the commands. All
-- of them hold `m_CommandMutex` while they use `m_CommandList`.
pub mod Handlers
pub mod Matched
pub mod Valid
pub mod Commands
pub mod Turn
pub mod Callbacks
pub mod Reach
pub mod Isolation
pub mod Pool
mod Tests
use lib_fantuan.Prelude.{
  ℕ, zero, suc, ◌+◌, ◌%◌, ◌^◌, Bool, true, false, Option, none, some, List, [], ◌∷◌, ◌++◌, length,
  get_elem?, set, leb, ltb, ◌==◌, if◌then◌else◌, replicate, read,
}
use lib_fantuan.Common.EasyPool.{EasyPool, allocate, free}
use lib_fantuan.Midware.Packet.{Packet}
use lib_fantuan.Midware.Receive.{Received, done, stopped, overrun, out_of_fuel}
use lib_fantuan.Midware.Session
use lib_fantuan.Midware.Session.{Session, Effect}
use lib_fantuan.Midware.Command
use lib_fantuan.Midware.Command.{Command}

-- `clients` is the `client_` of the connections: `none` for an address with no connection, and
-- `some none` for one whose `client_` is NULL. `array` is `m_SessionArray`, `sessions` is
-- `m_SessionMap` with the newest entry last.
pub record Server : Type 0 where
  pub ready_for_shutdown : Bool
  pub commands : List Command
  pub pool : EasyPool Session
  pub array : List ℕ
  pub sessions : List (ℕ × ℕ)
  pub clients : ℕ → Option (Option ℕ)

-- What the thread of the commands does to the world: calls on a connection, and packets that the
-- session at an address hands to its handler.
pub data Output : Type 0 where
  calls : Effect → Output
  handles : ℕ → List Packet → Output

-- The `client_` of `conn` is set to `to`.
abbrev pub with_client : (ℕ → Option (Option ℕ)) → ℕ → Option (Option ℕ) → ℕ → Option (Option ℕ)
with_client clients conn to k = if k == conn then to else clients k

-- `PushCommand`. The other side is notified before, and waits for the mutex.
unfoldable pub push_command : Server → Command → Server
push_command s command = record s { commands = s.commands ++ command ∷ [] }

-- `OnConnection`, the callback.
unfoldable pub connection_made : Server → ℕ → Server × Bool
unfolding push_command
connection_made s conn =
    if s.ready_for_shutdown then (s, false) else (push_command s (Command.on_connect conn), true)

-- `EasyAcceptor::AcceptConnection`: the new connection is at the address `conn`, and `left` is what its memory
-- had at `client_`, which the constructor does not set.
unfoldable pub accept_connection : Server → ℕ → Option ℕ → Server × Bool
unfolding connection_made
accept_connection s conn left =
    connection_made (record s { clients = with_client s.clients conn (some left) }) conn

-- `OnDisconnect`, the callback.
unfoldable pub connection_lost : Server → ℕ → Server
unfolding push_command
connection_lost s conn =
    if s.ready_for_shutdown then s else push_command s (Command.on_disconnect conn)

-- `OnData`, the callback. The length is passed to CopyData in 16 bits.
unfoldable pub data_received : Server → ℕ → ℕ → List ℕ → Option Server
unfolding Command.copy_data push_command
data_received s conn len buf =
    if s.ready_for_shutdown then some s else elim (Command.copy_data conn (len % 2 ^ 16) buf) [
      | none ↦ none
      | some command ↦ some (push_command s command)
    ]

-- `_InitializeSessionPool`, the rounds from index `i` on: `n` are left. `made` is a new session.
unfoldable pub init_sessions :
    Session → ℕ → ℕ → EasyPool Session → List ℕ → EasyPool Session × List ℕ
unfolding allocate free
init_sessions made zero i pool array = (pool, array)
init_sessions made (suc n) i pool array =
    let (pool', x) = allocate pool made in
    let named : List Session = elim (get_elem? pool'.objects x) [
      | none ↦ pool'.objects
      | some session ↦ set pool'.objects x (record session { session_id = i })
    ] in
    init_sessions made n (i + 1) (free (record pool' { objects = named }) x) (array ++ x ∷ [])

-- The state after the constructor and `Initialize`.
unfoldable pub initialize : Session → ℕ → Server
unfolding init_sessions
initialize made max_session =
    let (pool, array) =
      init_sessions made max_session 0 (record { objects = []; free_list = [] }) [] in
    record {
      ready_for_shutdown = false;
      commands = [];
      pool = pool;
      array = array;
      sessions = [];
      clients = λ conn. none;
    }

-- `GetSession`: `none` where the assertion fails, NULL at the end of the array and behind it.
unfoldable pub get_session : Server → ℕ → Option (Option ℕ)
get_session s id =
    if leb id (length s.array)
    then some (if ltb id (length s.array) then get_elem? s.array id else none)
    else none

-- What calls on connections do to the clients: `none` if one is on no connection. A deleted
-- connection has no client any more.
unfoldable pub apply : (ℕ → Option (Option ℕ)) → List Effect → Option (ℕ → Option (Option ℕ))
apply clients [] = some clients
apply clients (Effect.set_client conn x ∷ es) = elim (clients conn) [
  | none ↦ none
  | some old ↦ apply (with_client clients conn (some (some x))) es
]
apply clients (Effect.close conn ∷ es) = elim (clients conn) [
  | none ↦ none
  | some x ↦ apply clients es
]
apply clients (Effect.delete conn ∷ es) = elim (clients conn) [
  | none ↦ none
  | some x ↦ apply (with_client clients conn none) es
]
apply clients (Effect.send conn bytes ∷ es) = elim (clients conn) [
  | none ↦ none
  | some x ↦ apply clients es
]

unfoldable pub called : List Effect → List Output
called [] = []
called (e ∷ es) = calls e ∷ called es

-- `unordered_map::insert`: an id that is there keeps its session.
unfoldable pub insert : ℕ → ℕ → List (ℕ × ℕ) → List (ℕ × ℕ)
insert id x [] = (id, x) ∷ []
insert id x ((k, y) ∷ m) = let rest = insert id x m in if k == id then (k, y) ∷ m else (k, y) ∷ rest

-- `unordered_map::erase` of the entry that `find` gives.
unfoldable pub erase : ℕ → List (ℕ × ℕ) → List (ℕ × ℕ)
erase id [] = []
erase id ((k, y) ∷ m) = let rest = erase id m in if k == id then m else (k, y) ∷ rest

-- What a command does: the state after it, what the handler of the command returns, and the calls.
-- `none` stands for an access outside an object, or to a deleted one, and for a loop without end.
abbrev pub Step : Type 0
Step = Option (Server × Bool × List Output)
