-- ===== src/Network/Completion/Refused.antt =====
-- A connection whose disconnect the system has refused (AsyncDisconnect of
-- network/src/easy_connection.cpp, Windows).
use lib_fantuan.Prelude.{
  ℕ, suc, ◌≡◌, ◌≢◌, refl, Bool, true, false, List, ◌∷◌, ◌++◌, arith, Bool-cases, inl, inr, sym, ap,
  subst, ◌∙◌, ltb, ◌==◌,
}
use lib_fantuan.Network.ContextPool.{push_input_context, push_output_context}
use lib_fantuan.Network.Completion.{
  Task, Call, Status, Connection, Answers, Buffer, async_send, async_send_context, async_disconnect,
  async_recv, post_send, called, work, under_way, set_ref_max,
}
use lib_fantuan.Network.Completion.Steps.{
  total, total-split, drops, Step, Reach, Run, stop, go, Phase, phase, next, connecting, accepting,
  working, sending, disconnecting, closing, limiting,
}
use lib_fantuan.Network.Completion.Invariant.{IsValid, Fits, used, bit}
use lib_fantuan.Network.Completion.Protocol.{Reach-IsValid, step-IsValid, split-IsValid}

-- An open connection that is not connected any more, and whose disconnect nobody has posted.
record Stuck (c : Connection) : Type 0 where
  open_still : phase c.calls ≡ Phase.opened
  off : c.connected ≡ false
  undropped : total drops c.tasks ≡ 0

-- A second disconnect does nothing.
pub disconnect-off : (ok : Bool) (c : Connection) → c.connected ≡ false → async_disconnect ok c ≡ c
unfolding async_disconnect
disconnect-off ok c off = rw off

owing-Stuck : (c : Connection) → Stuck c → Stuck (under_way Task.release c)
owing-Stuck c s = record {
  open_still = s.open_still;
  off = s.off;
  undropped = omega (arith, s.undropped);
}

counted-Stuck : (c : Connection) → Stuck c → Stuck (record c { iorefs = suc c.iorefs })
counted-Stuck c s = record { open_still = s.open_still; off = s.off; undropped = s.undropped }

disconnect-Stuck : (ok : Bool) (c : Connection) → Stuck c → Stuck (async_disconnect ok c)
disconnect-Stuck ok c s = subst Stuck (sym (disconnect-off ok c s.off)) s

recv-Stuck : (a : Answers) (x : ℕ) (c : Connection) → Stuck c → Stuck (async_recv a x c)
unfolding async_recv
recv-Stuck a x c s =
    let shut = record c { iorefs = suc c.iorefs; pool = push_input_context c.pool x } in
    let failed = owing-Stuck _ (
      disconnect-Stuck a.disconnects shut
        (record { open_still = s.open_still; off = s.off; undropped = s.undropped })) in
    let posted : Stuck (under_way (Task.recv x) (record c { iorefs = suc c.iorefs })) = record {
      open_still = s.open_still;
      off = s.off;
      undropped = omega (arith, s.undropped);
    } in
    elim (Bool-cases a.posts) [ inl on ↦ rw on posted | inr off ↦ rw off failed ]

post-Stuck : (a : Answers) (x : ℕ) (c : Connection) → Stuck c → Stuck (post_send a x c)
unfolding post_send
post-Stuck a x c s =
    let shut = record c { iorefs = suc c.iorefs; pool = push_output_context c.pool x } in
    let failed = owing-Stuck _ (
      disconnect-Stuck a.disconnects shut
        (record { open_still = s.open_still; off = s.off; undropped = s.undropped })) in
    let posted : Stuck (under_way (Task.send x) (record c { iorefs = suc c.iorefs })) = record {
      open_still = s.open_still;
      off = s.off;
      undropped = omega (arith, s.undropped);
    } in
    elim (Bool-cases a.posts) [ inl on ↦ rw on posted | inr off ↦ rw off failed ]

work-Stuck :
    (a : Answers) (result : Bool) (n : ℕ) (t : Task) (c : Connection)
    → Fits Phase.opened (under_way t c)
    → Stuck (under_way t c)
    → Stuck (work a result n t c)
unfolding work
work-Stuck a result n Task.connect c f s = absurd (omega (arith, f.1))
work-Stuck a result n Task.accept c f s = absurd (omega (arith, f.1))
work-Stuck a result n Task.disconnect c f s = absurd (omega (arith, s.undropped))
work-Stuck a result n (Task.recv x) c f s =
    let shut =
      disconnect-Stuck a.disconnects (record c { pool = push_input_context c.pool x })
        (record {
          open_still = s.open_still;
          off = s.off;
          undropped = omega (arith, s.undropped);
        }) in
    let more = recv-Stuck a x (called (Call.on_data n x) c) (record {
      open_still = ap (next (Call.on_data n x)) s.open_still;
      off = s.off;
      undropped = omega (arith, s.undropped);
    }) in
    elim (Bool-cases (n == 0)) [
      | inl end ↦ rw end (owing-Stuck _ shut)
      | inr some_data ↦ rw some_data (owing-Stuck _ more)
    ]
work-Stuck a result n (Task.send x) c f s = record {
  open_still = s.open_still;
  off = s.off;
  undropped = omega (arith, s.undropped);
}
work-Stuck a result n (Task.passed x) c f s =
    post-Stuck a x c
      (record { open_still = s.open_still; off = s.off; undropped = omega (arith, s.undropped) })
work-Stuck a result n Task.release c f s = record {
  open_still = s.open_still;
  off = s.off;
  undropped = omega (arith, s.undropped);
}

test-Stuck : (a : Answers) (x : ℕ) (c : Connection) → Stuck c → Stuck (async_send_context a x c)
unfolding async_send_context
test-Stuck a x c s =
    let back =
      disconnect-Stuck a.disconnects (record c { pool = push_output_context c.pool x })
        (record { open_still = s.open_still; off = s.off; undropped = s.undropped }) in
    let passing : Stuck (under_way (Task.passed x) c) = record {
      open_still = s.open_still;
      off = s.off;
      undropped = omega (arith, s.undropped);
    } in
    elim (Bool-cases (ltb c.iorefmax c.iorefs)) [
      | inl many ↦ rw many back
      | inr few ↦ rw few passing
    ]

send-Stuck :
    (a : Answers) (size len : ℕ) (b : Buffer) (c : Connection)
    → Stuck c
    → Stuck (async_send a size len b c)
unfolding async_send
send-Stuck a size len (Buffer.input x) c s = s
send-Stuck a size len (Buffer.output x) c s = elim (Bool-cases (ltb size len)) [
  | inl long ↦ rw long s
  | inr short ↦ rw short (test-Stuck a x c s)
]

split-Stuck :
    (c : Connection) (before : List Task) (t : Task) (behind : List Task)
    → c.tasks ≡ before ++ t ∷ behind
    → Stuck c
    → Stuck (under_way t (record c { tasks = before ++ behind }))
split-Stuck c before t behind e s =
    let moved = ap (total drops) e ∙ total-split drops before t behind in
    record { open_still = s.open_still; off = s.off; undropped = omega (arith, moved, s.undropped) }

pub opened-Fits : {c : Connection} → IsValid c → phase c.calls ≡ Phase.opened → Fits Phase.opened c
opened-Fits {c} v p = subst (λ q. Fits q c) p v.fits

pub over-opened : (p : Phase) → next Call.on_disconnect p ≢ Phase.opened
over-opened Phase.unborn e = absurd (cc)
over-opened Phase.opened e = absurd (cc)
over-opened Phase.over e = absurd (cc)
over-opened Phase.broken e = absurd (cc)

in_use-used : (s : Status) → used s ≡ 1 → s ≡ Status.in_use
in_use-used Status.in_use e = refl
in_use-used Status.spare e = absurd (omega arith)
in_use-used Status.deleted e = absurd (omega arith)

limit-Stuck : (refmax : ℕ) (c : Connection) → Stuck c → Stuck (set_ref_max refmax c)
unfolding set_ref_max
limit-Stuck refmax c s = record { open_still = s.open_still; off = s.off; undropped = s.undropped }

step-Stuck : {threads : ℕ} {c d : Connection} → IsValid c → Stuck c → Step threads c d → Stuck d
step-Stuck {c = c} v s (connecting ok no_acceptor spare e) =
    let twice : Phase.unborn ≡ Phase.opened = sym (ap phase e) ∙ s.open_still in absurd (cc)
step-Stuck {c = c} v s (accepting with_acceptor spare) =
    let f = opened-Fits v s.open_still in absurd (omega (arith, f.0, ap used spare))
step-Stuck {c = c} v s (working a result n before t behind e) =
    let valid = split-IsValid c before t behind e v in
    work-Stuck a result n t (record c { tasks = before ++ behind }) (opened-Fits valid s.open_still)
      (split-Stuck c before t behind e s)
step-Stuck {c = c} v s (sending a size len b p room) = send-Stuck a size len b c s
step-Stuck {c = c} v s (disconnecting ok p) = disconnect-Stuck ok c s
step-Stuck {c = c} v s (closing ks e in_use no_accept) =
    absurd (over-opened (phase ks) (sym (ap phase e) ∙ s.open_still))
step-Stuck {c = c} v s (limiting refmax) = limit-Stuck refmax c s

run-Stuck :
    {threads : ℕ} {c d : Connection} → IsValid c → Stuck c → Run threads c d → IsValid d × Stuck d
run-Stuck v s stop = (v, s)
run-Stuck v s (go run step) =
    let (w, t) = run-Stuck v s run in (step-IsValid w step, step-Stuck w t step)

refused-Stuck :
    (c : Connection)
    → phase c.calls ≡ Phase.opened
    → c.connected ≡ true
    → total drops c.tasks ≡ 0
    → Stuck (async_disconnect false c)
unfolding async_disconnect
refused-Stuck c p up free =
    let shut : Stuck (record c { connected = false }) = record {
      open_still = p;
      off = refl;
      undropped = free;
    } in
    rw up shut

-- Where DisconnectEx refuses the disconnect of a connection that is open and connected, no step after
-- that ever calls OnDisconnect, closes the connection or gives it back to the acceptor.
pub async_disconnect-refused :
    {threads : ℕ} {c d : Connection}
    → Reach threads c
    → phase c.calls ≡ Phase.opened
    → c.connected ≡ true
    → Run threads (async_disconnect false c) d
    → (phase d.calls ≡ Phase.opened) × (d.status ≡ Status.in_use)
async_disconnect-refused {threads} {c} r p up run =
    let v = Reach-IsValid r in
    let f = opened-Fits v p in
    let one : bit c.connected ≡ 1 = ap bit up in
    let start = refused-Stuck c p up (omega (arith, f.2, one)) in
    let valid = step-IsValid {threads = threads} v (disconnecting false p) in
    let (w, s) = run-Stuck valid start run in
    (s.open_still, in_use-used _ (opened-Fits w s.open_still).0)
