-- ===== src/Network/Completion/Due.antt =====
-- The disconnect of a connection that is given up is not lost (OPERATION_DISCONNECT of
-- network/src/easy_worker.cpp, Windows): what every run keeps until OnDisconnect is called.
use lib_fantuan.Prelude.{
  ℕ, suc, ◌≤◌, ◌<◌, ◌≡◌, ◌⊎◌, Bool, true, false, Option, none, some, List, [], ◌∷◌, ◌++◌, arith,
  Bool-cases, inl, inr, sym, ap, subst, ◌∙◌, ◌==◌,
}
use lib_fantuan.Network.ContextPool.{ContextPool}
use lib_fantuan.Network.Completion.{
  Task, Call, Connection, Answers, Buffer, connect_to, async_connect, accept_with, set_ref_max,
  close, async_send, async_send_context, async_disconnect, async_recv, post_send, received_first,
  greet, called, input_context, work, under_way,
}
use lib_fantuan.Network.Completion.Steps.{
  total, total-split, drops, Step, Run, stop, go, Phase, phase, next, connecting, accepting,
  working, sending, disconnecting, closing, limiting,
}
use lib_fantuan.Network.Completion.Invariant.{IsValid, Fits, used, disconnect-calls, recv-calls}
use lib_fantuan.Network.Completion.Protocol.{step-IsValid, split-IsValid}
use lib_fantuan.Network.Completion.Refused.{opened-Fits, over-opened, disconnect-off}

-- How often OnDisconnect was called.
abbrev pub losses : List Call → ℕ
losses [] = 0
losses (Call.on_disconnect ∷ ks) = suc (losses ks)
losses (Call.on_connection ∷ ks) = losses ks
losses (Call.on_connect_failed ∷ ks) = losses ks
losses (Call.on_data n x ∷ ks) = losses ks

abbrev Later : Connection → Connection → Type 0
Later c d = losses c.calls ≤ losses d.calls

received-Later :
    (a : Answers) (c : Connection) (o : Option (ContextPool × ℕ)) → Later c (received_first a c o)
unfolding received_first
received-Later a c none = omega (arith, ap losses (disconnect-calls a.disconnects c))
received-Later a c (some (pool, x)) =
    omega (arith, ap losses (recv-calls a x (record c { pool = pool })))

greet-Later : (a : Answers) (c : Connection) → Later c (greet a c)
unfolding greet
greet-Later a c =
    let met = called Call.on_connection c in
    let given = received-Later a met (input_context a c.pool) in
    let refused : Later c (async_disconnect a.disconnects met) =
      omega (arith, ap losses (disconnect-calls a.disconnects met)) in
    elim (Bool-cases a.welcomes) [ inl on ↦ rw on given | inr off ↦ rw off refused ]

work-Later :
    (a : Answers) (result : Bool) (n : ℕ) (t : Task) (c : Connection)
    → Later c (work a result n t c)
unfolding work async_recv async_disconnect close post_send
work-Later a result n Task.connect c =
    let up = record c { connected = true } in ground (arith, greet-Later a up)
work-Later a result n Task.accept c =
    let up = record c { connected = true } in ground (arith, greet-Later a up)
work-Later a result n Task.disconnect c = ground arith
work-Later a result n (Task.recv x) c = ground arith
work-Later a result n (Task.send x) c = omega arith
work-Later a result n (Task.passed x) c = ground arith
work-Later a result n Task.release c = omega arith

step-Later : {threads : ℕ} {c d : Connection} → Step threads c d → Later c d
unfolding connect_to async_connect accept_with set_ref_max close async_send async_send_context
    async_disconnect
step-Later {c = c} (connecting ok no_acceptor spare e) = ground arith
step-Later {c = c} (accepting with_acceptor spare) = omega arith
step-Later {c = c} (working a result n before t behind e) =
    work-Later a result n t (record c { tasks = before ++ behind })
step-Later {c = c} (sending a size len (Buffer.input x) p room) = omega arith
step-Later {c = c} (sending a size len (Buffer.output x) p room) = ground arith
step-Later {c = c} (disconnecting ok p) = ground arith
step-Later {c = c} (closing ks e in_use no_accept) = ground arith
step-Later {c = c} (limiting refmax) = omega arith

-- An open connection that is given up, with its disconnect under way.
pub record GivenUp (c : Connection) : Type 0 where
  pub open_still : phase c.calls ≡ Phase.opened
  pub off : c.connected ≡ false
  pub dropped : 1 ≤ total drops c.tasks

-- Either OnDisconnect was called more than `n` times, or the disconnect is under way.
abbrev pub Due : ℕ → Connection → Type 0
Due n c = (n < losses c.calls) ⊎ GivenUp c

work-Due :
    (a : Answers) (result : Bool) (n : ℕ) (t : Task) (c : Connection)
    → Fits Phase.opened (under_way t c)
    → GivenUp (under_way t c)
    → Due (losses c.calls) (work a result n t c)
unfolding work async_recv async_disconnect post_send
work-Due a result n Task.connect c f g = absurd (omega (arith, f.1))
work-Due a result n Task.accept c f g = absurd (omega (arith, f.1))
work-Due a result n Task.disconnect c f g = elim (Bool-cases (c.iorefs == 0)) [
  | inl idle ↦ rw idle (inl (omega arith))
  | inr busy ↦ rw busy (inr g)
]
work-Due a result n (Task.recv x) c f g = inr (record {
  open_still = elim (Bool-cases (n == 0)) [
    | inl end ↦ ground (arith, end, g.open_still, g.off)
    | inr more ↦ ground (arith, more, g.off, ap (next (Call.on_data n x)) g.open_still)
  ];
  off = ground (arith, g.off);
  dropped = ground (arith, g.off, g.dropped);
})
work-Due a result n (Task.send x) c f g =
    inr (record { open_still = g.open_still; off = g.off; dropped = omega (arith, g.dropped) })
work-Due a result n (Task.passed x) c f g = inr (record {
  open_still = ground (arith, g.open_still, g.off);
  off = ground (arith, g.off);
  dropped = ground (arith, g.off, g.dropped);
})
work-Due a result n Task.release c f g =
    inr (record { open_still = g.open_still; off = g.off; dropped = omega (arith, g.dropped) })

send-GivenUp :
    (a : Answers) (size len : ℕ) (b : Buffer) (c : Connection)
    → GivenUp c
    → GivenUp (async_send a size len b c)
unfolding async_send async_send_context async_disconnect
send-GivenUp a size len (Buffer.input x) c g = g
send-GivenUp a size len (Buffer.output x) c g = record {
  open_still = ground (arith, g.off, g.open_still);
  off = ground (arith, g.off);
  dropped = ground (arith, g.off, g.dropped);
}

split-GivenUp :
    (c : Connection) (before : List Task) (t : Task) (behind : List Task)
    → c.tasks ≡ before ++ t ∷ behind
    → GivenUp c
    → GivenUp (under_way t (record c { tasks = before ++ behind }))
split-GivenUp c before t behind e g =
    let moved = ap (total drops) e ∙ total-split drops before t behind in
    record { open_still = g.open_still; off = g.off; dropped = omega (arith, moved, g.dropped) }

limit-GivenUp : (refmax : ℕ) (c : Connection) → GivenUp c → GivenUp (set_ref_max refmax c)
unfolding set_ref_max
limit-GivenUp refmax c g = record { open_still = g.open_still; off = g.off; dropped = g.dropped }

step-GivenUp :
    {threads : ℕ} {c d : Connection}
    → IsValid c
    → GivenUp c
    → Step threads c d
    → Due (losses c.calls) d
step-GivenUp {c = c} v g (connecting ok no_acceptor spare e) =
    let twice : Phase.unborn ≡ Phase.opened = sym (ap phase e) ∙ g.open_still in absurd (cc)
step-GivenUp {c = c} v g (accepting with_acceptor spare) =
    let f = opened-Fits v g.open_still in absurd (omega (arith, f.0, ap used spare))
step-GivenUp {c = c} v g (working a result n before t behind e) =
    let valid = split-IsValid c before t behind e v in
    work-Due a result n t (record c { tasks = before ++ behind }) (opened-Fits valid g.open_still)
      (split-GivenUp c before t behind e g)
step-GivenUp {c = c} v g (sending a size len b p room) = inr (send-GivenUp a size len b c g)
step-GivenUp {c = c} v g (disconnecting ok p) =
    inr (subst GivenUp (sym (disconnect-off ok c g.off)) g)
step-GivenUp {c = c} v g (closing ks e in_use no_accept) =
    absurd (over-opened (phase ks) (sym (ap phase e) ∙ g.open_still))
step-GivenUp {c = c} v g (limiting refmax) = inr (limit-GivenUp refmax c g)

step-Due :
    {threads n : ℕ} {c d : Connection}
    → IsValid c
    → n ≤ losses c.calls
    → Due n c
    → Step threads c d
    → Due n d
step-Due v at_least (inl lost) step = inl (omega (arith, lost, step-Later step))
step-Due v at_least (inr g) step = elim (step-GivenUp v g step) [
  | inl lost ↦ inl (omega (arith, lost, at_least))
  | inr still ↦ inr still
]

run-Later : {threads : ℕ} {c d : Connection} → Run threads c d → Later c d
run-Later stop = omega arith
run-Later (go run step) = omega (arith, run-Later run, step-Later step)

-- What a run from a connection that is given up keeps.
pub run-Due :
    {threads : ℕ} {c d : Connection}
    → IsValid c
    → GivenUp c
    → Run threads c d
    → IsValid d × Due (losses c.calls) d
run-Due v g stop = (v, inr g)
run-Due v g (go run step) =
    let (w, due) = run-Due v g run in (step-IsValid w step, step-Due w (run-Later run) due step)
