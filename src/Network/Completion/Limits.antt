-- ===== src/Network/Completion/Limits.antt =====
-- The sends of a connection against a limit, through each operation (AsyncSend of network/src/easy_connection.cpp and
-- network/src/easy_worker.cpp, Windows).
use lib_fantuan.Prelude.{
  ℕ, ◌+◌, ◌≤◌, ◌<◌, ◌≡◌, refl, Bool, true, List, [], ◌∷◌, ◌++◌, arith, Bool-cases, inl, inr, ap,
  ◌∙◌, ltb, ◌&&◌, ◌==◌, Option, some, none,
}
use lib_fantuan.Network.ContextPool.{ContextPool, push_input_context, push_output_context}
use lib_fantuan.Network.Completion.{
  Task, Call, Connection, Answers, Buffer, async_send, async_send_context, async_disconnect,
  async_recv, post_send, received_first, greet, input_context, called, close, work, under_way,
}
use lib_fantuan.Network.Completion.Steps.{total, total-split, holds, sends, passes}
use lib_fantuan.Network.Completion.Invariant.{IsValid}

-- The same sends are under way, behind the test or before it, and the limit is the same.
abbrev pub Same : Connection → Connection → Type 0
Same c d =
    (total sends d.tasks ≡ total sends c.tasks)
    × (total passes d.tasks ≡ total passes c.tasks)
    × (d.iorefmax ≡ c.iorefmax)

pub disconnect-Same : (ok : Bool) (c : Connection) → Same c (async_disconnect ok c)
unfolding async_disconnect
disconnect-Same ok c = ground arith

recv-Same : (a : Answers) (x : ℕ) (c : Connection) → Same c (async_recv a x c)
unfolding async_recv async_disconnect
recv-Same a x c = ground arith

received-Same :
    (a : Answers) (c : Connection) (o : Option (ContextPool × ℕ)) → Same c (received_first a c o)
unfolding received_first
received-Same a c none = disconnect-Same a.disconnects c
received-Same a c (some (pool, x)) = recv-Same a x (record c { pool = pool })

greet-Same : (a : Answers) (c : Connection) → Same c (greet a c)
unfolding greet received_first
greet-Same a c =
    let met = called Call.on_connection c in
    let given = received-Same a met (input_context a c.pool) in
    let refused = received-Same a met none in
    elim (Bool-cases a.welcomes) [ inl on ↦ rw on given | inr off ↦ rw off refused ]

pub close-Same : (c : Connection) → Same c (close c)
unfolding close
close-Same c = ground arith

-- At most `threads` are between the test and the increment, and the sends that are under way with those
-- threads are at most `threads` more than the limit.
pub record Bounded (threads most : ℕ) (c : Connection) : Type 0 where
  pub few : total passes c.tasks ≤ threads
  pub bound : total sends c.tasks + total passes c.tasks ≤ most + threads

pub Same-Bounded :
    (threads most : ℕ) (c d : Connection)
    → Same c d
    → Bounded threads most c
    → Bounded threads most d
Same-Bounded threads most c d s b = record {
  few = omega (arith, s.0, s.1, s.2, b.few);
  bound = omega (arith, s.0, s.1, s.2, b.bound);
}

post-Bounded :
    (threads most : ℕ) (a : Answers) (x : ℕ) (c : Connection)
    → Bounded threads most (under_way (Task.passed x) c)
    → Bounded threads most (post_send a x c)
unfolding post_send async_disconnect
post-Bounded threads most a x c b = record {
  few = ground (arith, b.few);
  bound = ground (arith, b.bound);
}

-- A task that is no send is taken out, or put in.
settled :
    (threads most : ℕ) (t : Task) (c : Connection)
    → sends t ≡ 0
    → passes t ≡ 0
    → Bounded threads most (under_way t c)
    → Bounded threads most c
settled threads most t c s p b = record {
  few = omega (arith, b.few, p);
  bound = omega (arith, b.bound, s, p);
}

owing-Bounded :
    (threads most : ℕ) (c : Connection)
    → Bounded threads most c
    → Bounded threads most (under_way Task.release c)
owing-Bounded threads most c b = record {
  few = omega (arith, b.few);
  bound = omega (arith, b.bound);
}

pub work-Bounded :
    (threads most : ℕ) (a : Answers) (result : Bool) (n : ℕ) (t : Task) (c : Connection)
    → Bounded threads most (under_way t c)
    → Bounded threads most (work a result n t c)
unfolding work
work-Bounded threads most a result n Task.connect c b =
    let now : Bounded threads most c = settled threads most Task.connect c refl refl b in
    let up = record c { connected = true } in
    let met = Same-Bounded threads most c _ (greet-Same a up) now in
    let quiet : Bounded threads most up = Same-Bounded threads most c up (refl, refl, refl) now in
    let failed = Same-Bounded threads most c _ (close-Same (called Call.on_connect_failed c)) now in
    elim (Bool-cases result) [
      | inr off ↦ rw off failed
      | inl on ↦
          rw on (elim (Bool-cases a.updates) [
            | inl done ↦ rw done met
            | inr refused ↦ rw refused quiet
          ])
    ]
work-Bounded threads most a result n Task.accept c b =
    let now : Bounded threads most c = settled threads most Task.accept c refl refl b in
    let met = Same-Bounded threads most c _ (greet-Same a (record c { connected = true })) now in
    elim (Bool-cases (result && a.updates)) [ inl on ↦ rw on met | inr off ↦ rw off now ]
work-Bounded threads most a result n Task.disconnect c b =
    let now : Bounded threads most c = settled threads most Task.disconnect c refl refl b in
    let lost = Same-Bounded threads most c (called Call.on_disconnect c) (refl, refl, refl) now in
    elim (Bool-cases (c.iorefs == 0)) [ inl idle ↦ rw idle lost | inr busy ↦ rw busy b ]
work-Bounded threads most a result n (Task.recv x) c b =
    let now : Bounded threads most c = settled threads most (Task.recv x) c refl refl b in
    let shut =
      Same-Bounded threads most c _
        (disconnect-Same a.disconnects (record c { pool = push_input_context c.pool x })) now in
    let more = Same-Bounded threads most c _ (recv-Same a x (called (Call.on_data n x) c)) now in
    elim (Bool-cases (n == 0)) [
      | inl end ↦ rw end (owing-Bounded threads most _ shut)
      | inr some_data ↦ rw some_data (owing-Bounded threads most _ more)
    ]
work-Bounded threads most a result n (Task.send x) c b = record {
  few = omega (arith, b.few);
  bound = omega (arith, b.bound);
}
work-Bounded threads most a result n (Task.passed x) c b = post-Bounded threads most a x c b
work-Bounded threads most a result n Task.release c b = record {
  few = omega (arith, b.few);
  bound = omega (arith, b.bound);
}

pub split-Bounded :
    (threads most : ℕ) (c : Connection) (before : List Task) (t : Task) (behind : List Task)
    → c.tasks ≡ before ++ t ∷ behind
    → Bounded threads most c
    → Bounded threads most (under_way t (record c { tasks = before ++ behind }))
split-Bounded threads most c before t behind e b =
    let sent = ap (total sends) e ∙ total-split sends before t behind in
    let passing = ap (total passes) e ∙ total-split passes before t behind in
    record { few = omega (arith, passing, b.few); bound = omega (arith, sent, passing, b.bound) }

sends-holds : (ts : List Task) → total sends ts ≤ total holds ts
sends-holds [] = omega arith
sends-holds (Task.connect ∷ ts) = omega (arith, sends-holds ts)
sends-holds (Task.accept ∷ ts) = omega (arith, sends-holds ts)
sends-holds (Task.disconnect ∷ ts) = omega (arith, sends-holds ts)
sends-holds (Task.recv x ∷ ts) = omega (arith, sends-holds ts)
sends-holds (Task.send x ∷ ts) = omega (arith, sends-holds ts)
sends-holds (Task.passed x ∷ ts) = omega (arith, sends-holds ts)
sends-holds (Task.release ∷ ts) = omega (arith, sends-holds ts)

test-Bounded :
    (threads most : ℕ) (a : Answers) (x : ℕ) (c : Connection)
    → IsValid c
    → c.iorefmax ≤ most
    → total passes c.tasks < threads
    → Bounded threads most c
    → Bounded threads most (async_send_context a x c)
unfolding async_send_context
test-Bounded threads most a x c v under room b =
    let refused =
      Same-Bounded threads most c _
        (disconnect-Same a.disconnects (record c { pool = push_output_context c.pool x })) b in
    elim (Bool-cases (ltb c.iorefmax c.iorefs)) [
      | inl many ↦ rw many refused
      | inr few_refs ↦
          let below : c.iorefs ≤ c.iorefmax = ground (arith, few_refs) in
          let passing : Bounded threads most (under_way (Task.passed x) c) = record {
            few = omega (arith, room);
            bound = omega (arith, room, below, under, v.counted, sends-holds c.tasks);
          } in
          rw few_refs passing
    ]

pub send-Bounded :
    (threads most : ℕ) (a : Answers) (size len : ℕ) (buf : Buffer) (c : Connection)
    → IsValid c
    → c.iorefmax ≤ most
    → total passes c.tasks < threads
    → Bounded threads most c
    → Bounded threads most (async_send a size len buf c)
unfolding async_send
send-Bounded threads most a size len (Buffer.input x) c v under room b = b
send-Bounded threads most a size len (Buffer.output x) c v under room b =
    elim (Bool-cases (ltb size len)) [
      | inl long ↦ rw long b
      | inr short ↦ rw short (test-Bounded threads most a x c v under room b)
    ]
