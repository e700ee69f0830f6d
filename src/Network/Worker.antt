-- ===== src/Network/Worker.antt =====
-- EasyWorker (network/src/easy_worker.cpp): the threads of the Windows build from the constructor to the
-- destructor, and the thread of the Linux build.
use lib_fantuan.Prelude.{
  ℕ, suc, zero, ◌+◌, ◌-◌, ◌≡◌, refl, Bool, true, false, ◌<◌, List, [], ◌∷◌, ◌++◌, Option, none,
  some, arith, if◌then◌else◌, ltb, ◌==◌,
}

-- `notices` is the number of NULL completions in the port. Each ends the loop of one thread.
pub record Worker : Type 0 where
  pub thread_count : ℕ
  pub notices : ℕ

-- The loop of the constructor, with the threads that are still to be made.
unfoldable pub start_threads : ℕ → Worker → Worker
start_threads zero w = w
start_threads (suc n) w = start_threads n (record w { thread_count = w.thread_count + 1 })

unfoldable pub new_worker : ℕ → Worker
unfolding start_threads
new_worker n = start_threads n (record { thread_count = 0; notices = 0 })

-- The end of WorkerThread, in a thread that a NULL completion has reached.
abbrev pub thread_ends : Worker → Worker
thread_ends w =
    if ltb 0 w.notices
    then record { thread_count = w.thread_count - 1; notices = w.notices - 1 }
    else w

-- The loop of the destructor on fuel, where a thread takes the notice while the destructor sleeps.
unfoldable pub end_threads : ℕ → Worker → Option Worker
end_threads zero w = none
end_threads (suc fuel) w =
    let rest = end_threads fuel (thread_ends (record w { notices = w.notices + 1 })) in
    if w.thread_count == 0 then some w else rest

start_threads-count :
    (n : ℕ) (w : Worker) → start_threads n w ≡ record w { thread_count = w.thread_count + n }
unfolding start_threads
start_threads-count zero w = let same : w.thread_count + 0 ≡ w.thread_count = omega arith in rw same
start_threads-count (suc n) w =
    let same : w.thread_count + 1 + n ≡ w.thread_count + suc n = omega arith in
    rw (start_threads-count n (record w { thread_count = w.thread_count + 1 }), same)

end_threads-total :
    (fuel n : ℕ)
    → n < fuel
    → end_threads fuel (record { thread_count = n; notices = 0 })
      ≡ some (record { thread_count = 0; notices = 0 })
unfolding end_threads
end_threads-total zero n h = absurd (omega arith)
end_threads-total (suc fuel) zero h = refl
end_threads-total (suc fuel) (suc n) h =
    let less : suc n - 1 ≡ n = omega arith in
    let more : (suc n == 0) ≡ false = ground arith in
    rw (less, more) (end_threads-total fuel n (omega arith))

-- A worker that was started with `n` threads has ended all of them when its destructor has gone round `n` times,
-- and the port has no notice left.
pub end_threads-new_worker :
    (n : ℕ) → end_threads (suc n) (new_worker n) ≡ some (record { thread_count = 0; notices = 0 })
unfolding new_worker
end_threads-new_worker n =
    let from_none : 0 + n ≡ n = omega arith in
    rw (start_threads-count n (record { thread_count = 0; notices = 0 }), from_none)
      (end_threads-total (suc n) n (omega arith))

-- What epoll_wait says of a descriptor: the listening socket, or a connection.
pub data Source : Type 0 where
  listening : Source
  connected : ℕ → Source

pub record Event : Type 0 where
  pub source : Source
  pub readable : Bool
  pub writable : Bool

-- The calls of the thread: AcceptConnection, RecvData and SendMessage. RecvData has set conn_.
pub data Action : Type 0 where
  accept_connection : Action
  recv_data : ℕ → Action
  send_message : ℕ → Action

act_on : Bool → Bool → Source → List Action
act_on readable writable Source.listening = Action.accept_connection ∷ []
act_on readable writable (Source.connected x) =
    if readable
    then Action.recv_data x ∷ []
    else (if writable then Action.send_message x ∷ [] else [])

-- A turn of the loop, for the events that epoll_wait gives.
unfoldable pub turn : List Event → List Action
unfolding act_on
turn [] = []
turn (e ∷ es) = act_on e.readable e.writable e.source ++ turn es

-- An event that says both gets no SendMessage.
pub turn-both :
    (x : ℕ) (es : List Event)
    → turn (record { source = Source.connected x; readable = true; writable = true } ∷ es)
      ≡ Action.recv_data x ∷ turn es
unfolding turn
turn-both x es = refl
