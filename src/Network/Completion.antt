-- ===== src/Network/Completion.antt =====
-- A connection under a completion port (the Windows build of network/src/easy_connection.cpp and
-- network/src/easy_worker.cpp): the operations that it posts, and what a worker thread does with a
-- completion. Assertions are those of a release build, which has none.
pub mod Steps
pub mod Invariant
pub mod Work
pub mod Protocol
pub mod Limits
pub mod Sends
pub mod Lost
pub mod Refused
pub mod Due
pub mod Settling
pub mod Contexts
mod Tests
use lib_fantuan.Prelude.{
  ℕ, suc, ◌+◌, ◌-◌, Bool, true, false, not, ◌&&◌, ◌||◌, Option, none, some, List, [], ◌∷◌, length,
  ltb, if◌then◌else◌, ◌==◌, if◌then◌else◌,
}
use lib_fantuan.Network.ContextPool.{
  ContextPool, pop_input_context, push_input_context, push_output_context,
}

-- What is under way for a connection: an operation that the port has not answered, by its context; a
-- thread that has passed the test of AsyncSend and has not counted its send; a thread that has one
-- reference still to give back.
pub data Task : Type 0 where
  connect : Task
  accept : Task
  disconnect : Task
  recv : ℕ → Task
  send : ℕ → Task
  passed : ℕ → Task
  release : Task

-- The calls of `handler_`. The data of `on_data` is in the context that it names.
pub data Call : Type 0 where
  on_connection : Call
  on_connect_failed : Call
  on_data : ℕ → ℕ → Call
  on_disconnect : Call

-- Who has the connection: the one that created it or the free list of the acceptor, the port and the
-- handler, or nobody any more.
pub data Status : Type 0 where
  spare : Status
  in_use : Status
  deleted : Status

-- `has_acceptor` says whether acceptor_ is set. `calls` has the latest call first.
pub record Connection : Type 0 where
  pub has_acceptor : Bool
  pub connected : Bool
  pub iorefs : ℕ
  pub iorefmax : ℕ
  pub status : Status
  pub pool : ContextPool
  pub tasks : List Task
  pub calls : List Call

-- What the system answers: whether setsockopt, a send or receive, DisconnectEx, and the allocation of a
-- context succeed, and what OnConnection returns.
pub record Answers : Type 0 where
  pub updates : Bool
  pub posts : Bool
  pub disconnects : Bool
  pub allocates : Bool
  pub welcomes : Bool

-- The members that Create sets.
abbrev pub create : Bool → ContextPool → Connection
create has_acceptor pool = record {
  has_acceptor = has_acceptor;
  connected = false;
  iorefs = 0;
  iorefmax = 65536;
  status = Status.spare;
  pool = pool;
  tasks = [];
  calls = [];
}

-- What Create returns, or what it leaves behind where it returns NULL: nothing, an open socket, or that and
-- the context of the connection.
pub data Creation : Type 0 where
  made : Connection → Creation
  nothing_left : Creation
  socket_left : Creation
  context_left : Creation

-- Create, by the success of the allocation, of socket, of CreateIoCompletionPort, of the allocation of the
-- context, and of bind.
unfoldable pub try_create :
    (memory socket port context bound : Bool) → Bool → ContextPool → Creation
try_create memory socket port context bound has_acceptor pool =
    if not memory
    then Creation.nothing_left
    else (if not socket
        then Creation.nothing_left
        else (if not port
            then Creation.nothing_left
            else (if not context
                then Creation.socket_left
                else (if has_acceptor
                    then Creation.made (create has_acceptor pool)
                    else (if bound
                        then Creation.made (create has_acceptor pool)
                        else Creation.context_left)))))

abbrev pub under_way : Task → Connection → Connection
under_way t c = record c { tasks = t ∷ c.tasks }

abbrev pub called : Call → Connection → Connection
called k c = record c { calls = k ∷ c.calls }

unfoldable pub async_disconnect : Bool → Connection → Connection
async_disconnect ok c =
    if c.connected
    then (let closing = record c { connected = false } in
        if ok then under_way Task.disconnect closing else closing)
    else c

-- AsyncRecv(pContext)
unfoldable pub async_recv : Answers → ℕ → Connection → Connection
unfolding async_disconnect
async_recv a x c =
    let counted = record c { iorefs = suc c.iorefs } in
    if a.posts
    then under_way (Task.recv x) counted
    else under_way Task.release
        (async_disconnect a.disconnects (record counted { pool = push_input_context c.pool x }))

-- The test of AsyncSend(pContext).
unfoldable pub async_send_context : Answers → ℕ → Connection → Connection
unfolding async_disconnect
async_send_context a x c =
    if ltb c.iorefmax c.iorefs
    then async_disconnect a.disconnects (record c { pool = push_output_context c.pool x })
    else under_way (Task.passed x) c

-- The rest of AsyncSend(pContext).
unfoldable pub post_send : Answers → ℕ → Connection → Connection
unfolding async_disconnect
post_send a x c =
    let counted = record c { iorefs = suc c.iorefs } in
    if a.posts
    then under_way (Task.send x) counted
    else under_way Task.release
        (async_disconnect a.disconnects (record counted { pool = push_output_context c.pool x }))

-- A buffer of an input or of an output context.
pub data Buffer : Type 0 where
  input : ℕ → Buffer
  output : ℕ → Buffer

-- AsyncSend(len, buf), where output buffers have `size` bytes.
unfoldable pub async_send : Answers → ℕ → ℕ → Buffer → Connection → Connection
unfolding async_send_context
async_send a size len (Buffer.input x) c = c
async_send a size len (Buffer.output x) c = if ltb size len then c else async_send_context a x c

-- AsyncConnect: whether ConnectEx takes the request.
unfoldable pub async_connect : Bool → Connection → Connection × Bool
async_connect ok c =
    if ok then (under_way Task.connect (record c { status = Status.in_use }), true) else (c, false)

-- SetRefMax
unfoldable pub set_ref_max : ℕ → Connection → Connection
set_ref_max refmax c = record c { iorefmax = refmax }

abbrev pub delete : Connection → Connection
delete c = record c { status = Status.deleted }

-- Connect after Create.
unfoldable pub connect_to : Bool → Connection → Connection
unfolding async_connect
connect_to ok c = let (d, posted) = async_connect ok c in if posted then d else delete d

-- What Accept does with the connection that it has chosen, where AcceptEx takes the request.
unfoldable pub accept_with : Connection → Connection
accept_with c = under_way Task.accept (record c { status = Status.in_use })

unfoldable pub close : Connection → Connection
close c =
    if not (c.iorefs == 0) || c.connected
    then c
    else (if c.has_acceptor then record c { status = Status.spare } else delete c)

-- PopInputContext, which has none to give where the list is empty and the allocation fails.
abbrev pub input_context : Answers → ContextPool → Option (ContextPool × ℕ)
input_context a p =
    if a.allocates || ltb 0 (length p.input.free) then some (pop_input_context p) else none

-- Without a context there is no receive and the connection is given up.
unfoldable pub received_first : Answers → Connection → Option (ContextPool × ℕ) → Connection
unfolding async_recv async_disconnect
received_first a c (some (pool, x)) = async_recv a x (record c { pool = pool })
received_first a c none = async_disconnect a.disconnects c

-- The call of OnConnection, and the first receive.
unfoldable pub greet : Answers → Connection → Connection
unfolding received_first async_disconnect
greet a c =
    if a.welcomes
    then received_first a (called Call.on_connection c) (input_context a c.pool)
    else async_disconnect a.disconnects (called Call.on_connection c)

-- What WorkerThread does with a completion, by its `bResult` and `dwNumRead`, up to the reference that the
-- thread gives back last; and the ends of a send and of a `release`.
unfoldable pub work : Answers → Bool → ℕ → Task → Connection → Connection
unfolding greet close async_recv async_disconnect post_send
work a result n Task.connect c =
    if result
    then (let up = record c { connected = true } in if a.updates then greet a up else up)
    else close (called Call.on_connect_failed c)
work a result n Task.accept c =
    if result && a.updates then greet a (record c { connected = true }) else c
work a result n Task.disconnect c =
    if c.iorefs == 0 then called Call.on_disconnect c else under_way Task.disconnect c
work a result n (Task.recv x) c = under_way Task.release (
    if n == 0
    then async_disconnect a.disconnects (record c { pool = push_input_context c.pool x })
    else async_recv a x (called (Call.on_data n x) c))
work a result n (Task.send x) c =
    under_way Task.release (record c { pool = push_output_context c.pool x })
work a result n (Task.passed x) c = post_send a x c
work a result n Task.release c = record c { iorefs = c.iorefs - 1 }
