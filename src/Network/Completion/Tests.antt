-- ===== src/Network/Completion/Tests.antt =====
-- A connection of a server from its acceptance to its end (network/src/easy_connection.cpp and
-- network/src/easy_worker.cpp, Windows).
use lib_fantuan.Prelude.{◌+◌, ◌≤◌, ◌<◌, ◌⊎◌, ◌≡◌, refl, true, false, [], ◌∷◌, arith}
use lib_fantuan.Network.ContextPool.{new_pool, pop, pop_input_context}
use lib_fantuan.Network.Completion.{
  Task, Call, Status, Connection, Answers, Buffer, create, accept_with, async_send,
  async_send_context, async_disconnect, async_recv, received_first, greet, work,
}
use lib_fantuan.Network.Completion.Steps.{
  total, holds, sends, drops, Reach, Run, Phase, phase, accepting, working, sending, disconnecting,
  created, later, stop, go,
}
use lib_fantuan.Network.Completion.Invariant.{IsValid}
use lib_fantuan.Network.Completion.Contexts.{inputs, Run-Exclusive}
use lib_fantuan.Network.ContextPool.Uses.{Exclusive, Uses-Exclusive, unused}
use lib_fantuan.Network.Completion.Protocol.{Reach-IsValid}
use lib_fantuan.Network.Completion.Sends.{peak, sends_bound}
use lib_fantuan.Network.Completion.Lost.{work-on_disconnect}
use lib_fantuan.Network.Completion.Refused.{async_disconnect-refused}
use lib_fantuan.Network.Completion.Settling.{async_disconnect-settles}
use lib_fantuan.Network.Completion.Due.{losses}

abbrev well : Answers
well = record {
  updates = true;
  posts = true;
  disconnects = true;
  allocates = true;
  welcomes = true;
}

abbrev accepted : Connection
accepted = accept_with (create true new_pool)

-- Accepted and open, with its first receive posted.
abbrev opened : Connection
opened = work well true 0 Task.accept (record accepted { tasks = [] })

abbrev sending_one : Connection
sending_one = async_send well 8192 12 (Buffer.output 0) opened

-- Given up by the handler.
abbrev given_up : Connection
given_up = async_disconnect true opened

opened-Reach : Reach 1 opened
unfolding accept_with
opened-Reach =
    later (later (created true new_pool) (accepting refl refl))
      (working well true 0 [] Task.accept [] refl)

opened-phase : phase opened.calls ≡ Phase.opened
unfolding accept_with work greet received_first async_recv
opened-phase = refl

opened-connected : opened.connected ≡ true
unfolding accept_with work greet received_first async_recv
opened-connected = refl

opened-Run : Run 1 (create true new_pool) opened
unfolding accept_with
opened-Run = go (go stop (accepting refl refl)) (working well true 0 [] Task.accept [] refl)

new_pool-Exclusive : Exclusive new_pool.input []
unfolding new_pool
new_pool-Exclusive = Uses-Exclusive unused

Run-Exclusive_example : Exclusive opened.pool.input (inputs opened.tasks)
Run-Exclusive_example = Run-Exclusive true new_pool new_pool-Exclusive opened-Run

-- One receive is under way.
opened-inputs : inputs opened.tasks ≡ 0 ∷ []
unfolding accept_with work greet received_first async_recv pop_input_context pop new_pool
opened-inputs = refl

given_up-Reach : Reach 1 given_up
given_up-Reach = later opened-Reach (disconnecting true opened-phase)

Reach-IsValid_example : IsValid opened
Reach-IsValid_example = Reach-IsValid opened-Reach

sending_one-Reach : Reach 1 sending_one
unfolding accept_with work greet received_first async_recv
sending_one-Reach =
    later opened-Reach (sending well 8192 12 (Buffer.output 0) opened-phase (omega arith))

-- The send is counted and posted.
abbrev sent : Connection
sent = work well false 0 (Task.passed 0) (record sending_one { tasks = opened.tasks })

sent-Reach : Reach 1 sent
unfolding async_send async_send_context accept_with work greet received_first async_recv
    pop_input_context pop new_pool
sent-Reach = later sending_one-Reach (working well false 0 [] (Task.passed 0) opened.tasks refl)

sends_bound_example : total sends sent.tasks ≤ peak sent-Reach + 1
sends_bound_example = sends_bound sent-Reach

-- The receive has ended, and the thread that saw its end gives its reference back.
abbrev ended : Connection
ended = work well false 0 (Task.recv 0) (record given_up { tasks = Task.disconnect ∷ [] })

abbrev idle : Connection
idle = work well false 0 Task.release (record ended { tasks = Task.disconnect ∷ [] })

idle-Reach : Reach 1 idle
unfolding async_disconnect accept_with work greet received_first async_recv pop_input_context pop
    new_pool
idle-Reach =
    later (later given_up-Reach (working well false 0 (Task.disconnect ∷ []) (Task.recv 0) [] refl))
      (working well false 0 [] Task.release (Task.disconnect ∷ []) refl)

idle-lost :
    (work well true 0 Task.disconnect (record idle { tasks = [] })).calls
    ≡ Call.on_disconnect ∷ idle.calls
unfolding async_disconnect accept_with work greet received_first async_recv pop_input_context pop
    new_pool
idle-lost = refl

idle-tasks : idle.tasks ≡ Task.disconnect ∷ []
unfolding async_disconnect accept_with work greet received_first async_recv pop_input_context pop
    new_pool
idle-tasks = refl

work-on_disconnect_example :
    (phase idle.calls ≡ Phase.opened) × (idle.connected ≡ false) × (total holds idle.tasks ≡ 0)
work-on_disconnect_example = work-on_disconnect well true 0 [] [] idle-Reach idle-tasks idle-lost

async_disconnect-refused_example :
    (phase (async_disconnect false opened).calls ≡ Phase.opened)
    × ((async_disconnect false opened).status ≡ Status.in_use)
async_disconnect-refused_example =
    async_disconnect-refused opened-Reach opened-phase opened-connected stop

given_up-off : given_up.connected ≡ false
unfolding async_disconnect accept_with work greet received_first async_recv
given_up-off = refl

given_up-drops : 1 ≤ total drops given_up.tasks
unfolding async_disconnect accept_with work greet received_first async_recv
given_up-drops = omega arith

-- Its receive has ended, and the disconnect was answered too early and posted again.
abbrev posted_again : Connection
posted_again = work well true 0 Task.disconnect (record given_up { tasks = Task.recv 0 ∷ [] })

posted_again-Run : Run 1 given_up posted_again
unfolding async_disconnect accept_with work greet received_first async_recv pop_input_context pop
    new_pool
posted_again-Run = go stop (working well true 0 [] Task.disconnect (Task.recv 0 ∷ []) refl)

async_disconnect-settles_example :
    (losses given_up.calls < losses posted_again.calls)
    ⊎ ((phase posted_again.calls ≡ Phase.opened)
        × (posted_again.connected ≡ false)
        × ((d : Connection) × Run 1 posted_again d
            × (d.calls ≡ Call.on_disconnect ∷ posted_again.calls)))
async_disconnect-settles_example =
    async_disconnect-settles given_up-Reach given_up-off given_up-drops posted_again-Run
