-- ===== src/Network/Completion/Steps.antt =====
-- The steps of the threads that share a connection (network/src/easy_connection.cpp and
-- network/src/easy_worker.cpp, Windows), in any order.
use lib_fantuan.Prelude.{ℕ, ◌+◌, ◌<◌, ◌≡◌, refl, Bool, true, false, List, [], ◌∷◌, ◌++◌, arith}
use lib_fantuan.Network.ContextPool.{ContextPool}
use lib_fantuan.Network.Completion.{
  Task, Call, Status, Connection, Answers, Buffer, create, connect_to, accept_with, async_send,
  async_disconnect, close, work, set_ref_max,
}

abbrev pub total : (Task → ℕ) → List Task → ℕ
total f [] = 0
total f (t ∷ ts) = f t + total f ts

-- A task that was taken out of the middle.
pub total-split :
    (f : Task → ℕ) (before : List Task) (t : Task) (behind : List Task)
    → total f (before ++ t ∷ behind) ≡ f t + total f (before ++ behind)
total-split f [] t behind = refl
total-split f (u ∷ us) t behind = omega (arith, total-split f us t behind)

-- The tasks that have a reference of `iorefs_`.
abbrev pub holds : Task → ℕ
holds (Task.recv x) = 1
holds (Task.send x) = 1
holds Task.release = 1
holds Task.connect = 0
holds Task.accept = 0
holds Task.disconnect = 0
holds (Task.passed x) = 0

abbrev pub receives : Task → ℕ
receives (Task.recv x) = 1
receives (Task.send x) = 0
receives Task.release = 0
receives Task.connect = 0
receives Task.accept = 0
receives Task.disconnect = 0
receives (Task.passed x) = 0

abbrev pub sends : Task → ℕ
sends (Task.send x) = 1
sends (Task.recv x) = 0
sends Task.release = 0
sends Task.connect = 0
sends Task.accept = 0
sends Task.disconnect = 0
sends (Task.passed x) = 0

abbrev pub passes : Task → ℕ
passes (Task.passed x) = 1
passes (Task.recv x) = 0
passes (Task.send x) = 0
passes Task.release = 0
passes Task.connect = 0
passes Task.accept = 0
passes Task.disconnect = 0

abbrev pub accepts : Task → ℕ
accepts Task.accept = 1
accepts Task.connect = 0
accepts (Task.recv x) = 0
accepts (Task.send x) = 0
accepts Task.release = 0
accepts Task.disconnect = 0
accepts (Task.passed x) = 0

abbrev pub connects : Task → ℕ
connects Task.connect = 1
connects Task.accept = 0
connects (Task.recv x) = 0
connects (Task.send x) = 0
connects Task.release = 0
connects Task.disconnect = 0
connects (Task.passed x) = 0

abbrev pub drops : Task → ℕ
drops Task.disconnect = 1
drops Task.connect = 0
drops Task.accept = 0
drops (Task.recv x) = 0
drops (Task.send x) = 0
drops Task.release = 0
drops (Task.passed x) = 0

-- Where a connection stands for its handler: nothing was called yet; between OnConnection and
-- OnDisconnect; after one of OnDisconnect and OnConnectFailed; or the calls came in a wrong order.
pub data Phase : Type 0 where
  unborn : Phase
  opened : Phase
  over : Phase
  broken : Phase

abbrev pub next : Call → Phase → Phase
next Call.on_connection Phase.unborn = Phase.opened
next Call.on_connection Phase.over = Phase.opened
next Call.on_connection Phase.opened = Phase.broken
next Call.on_connection Phase.broken = Phase.broken
next Call.on_connect_failed Phase.unborn = Phase.over
next Call.on_connect_failed Phase.over = Phase.broken
next Call.on_connect_failed Phase.opened = Phase.broken
next Call.on_connect_failed Phase.broken = Phase.broken
next (Call.on_data n x) Phase.opened = Phase.opened
next (Call.on_data n x) Phase.unborn = Phase.broken
next (Call.on_data n x) Phase.over = Phase.broken
next (Call.on_data n x) Phase.broken = Phase.broken
next Call.on_disconnect Phase.opened = Phase.over
next Call.on_disconnect Phase.unborn = Phase.broken
next Call.on_disconnect Phase.over = Phase.broken
next Call.on_disconnect Phase.broken = Phase.broken

abbrev pub phase : List Call → Phase
phase [] = Phase.unborn
phase (k ∷ ks) = next k (phase ks)

-- A client connects, or the acceptor takes a connection that is spare; a task goes on, whichever it
-- is; and the handler sends or disconnects between OnConnection and OnDisconnect, and closes once
-- a connection that was lost; and the limit of its sends is set at any time, to any number. At most `threads` are inside AsyncSend at once.
pub data Step (threads : ℕ) (c : Connection) : Connection → Type 0 where
  connecting :
      (ok : Bool)
      → c.has_acceptor ≡ false
      → c.status ≡ Status.spare
      → c.calls ≡ []
      → Step threads c (connect_to ok c)
  accepting : c.has_acceptor ≡ true → c.status ≡ Status.spare → Step threads c (accept_with c)
  working :
      (a : Answers) (result : Bool) (n : ℕ) (before : List Task) (t : Task) (behind : List Task)
      → c.tasks ≡ before ++ t ∷ behind
      → Step threads c (work a result n t (record c { tasks = before ++ behind }))
  sending :
      (a : Answers) (size len : ℕ) (b : Buffer)
      → phase c.calls ≡ Phase.opened
      → total passes c.tasks < threads
      → Step threads c (async_send a size len b c)
  disconnecting :
      (ok : Bool) → phase c.calls ≡ Phase.opened → Step threads c (async_disconnect ok c)
  closing :
      (ks : List Call)
      → c.calls ≡ Call.on_disconnect ∷ ks
      → c.status ≡ Status.in_use
      → total accepts c.tasks ≡ 0
      → Step threads c (close c)
  limiting : (refmax : ℕ) → Step threads c (set_ref_max refmax c)

-- The states that threads reach from Create.
pub data Reach (threads : ℕ) : Connection → Type 0 where
  created : (has_acceptor : Bool) (pool : ContextPool) → Reach threads (create has_acceptor pool)
  later : {c d : Connection} → Reach threads c → Step threads c d → Reach threads d

-- The steps from one state to another, the latest last.
pub data Run (threads : ℕ) (c : Connection) : Connection → Type 0 where
  stop : Run threads c c
  go : {d e : Connection} → Run threads c d → Step threads d e → Run threads c e
