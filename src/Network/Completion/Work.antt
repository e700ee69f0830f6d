-- ===== src/Network/Completion/Work.antt =====
-- A task that goes on keeps the count and the state of its connection
-- (network/src/easy_worker.cpp, Windows).
use lib_fantuan.Prelude.{
  ℕ, ◌≡◌, refl, Bool, true, ◌∷◌, arith, Bool-cases, inl, inr, ap, ◌∙◌, ◌==◌, ◌-◌, ◌&&◌,
}
use lib_fantuan.Network.Completion.{
  Task, Call, Connection, Answers, async_disconnect, async_recv, work, called, under_way, post_send,
}
use lib_fantuan.Network.ContextPool.{push_input_context}
use lib_fantuan.Network.Completion.Steps.{total, holds, Phase, phase, next}
use lib_fantuan.Network.Completion.Invariant.{
  Fits, IsValid, phase-IsValid, receives-holds, disconnect-calls, recv-calls, disconnect-counted,
  disconnect-opened, release-opened, recv-opened, recv-counted, greet-IsValid, close-IsValid,
}

-- The tasks that go on, one by one, where the connection was well-formed with them.
connect-IsValid :
    (a : Answers) (result : Bool) (n : ℕ) (c : Connection) (p : Phase)
    → phase c.calls ≡ p
    → c.iorefs ≡ total holds (Task.connect ∷ c.tasks)
    → Fits p (under_way Task.connect c)
    → IsValid (work a result n Task.connect c)
unfolding work
connect-IsValid a result n c Phase.unborn e h f =
    let up = record c { connected = true } in
    let met =
      greet-IsValid a up (ap (next Call.on_connection) e) (omega (arith, h)) (omega (arith, f.1))
        (ground (arith, f.0, f.1)) in
    let shut =
      close-IsValid (called Call.on_connect_failed c) (ap (next Call.on_connect_failed) e)
        (omega (arith, h)) (grind (arith, f.0)) (ground (arith, f.0, f.1)) in
    let silent : IsValid up =
      phase-IsValid Phase.unborn up e (omega (arith, h)) (ground (arith, f.0, f.1)) in
    elim (Bool-cases result) [
      | inr off ↦ rw off shut
      | inl on ↦
          rw on (elim (Bool-cases a.updates) [
            | inl done ↦ rw done met
            | inr refused ↦ rw refused silent
          ])
    ]
connect-IsValid a result n c Phase.opened e h f = absurd (omega (arith, f.1))
connect-IsValid a result n c Phase.over e h f = absurd (omega (arith, f.0))
connect-IsValid a result n c Phase.broken e h f = elim f [ ]

accept-IsValid :
    (a : Answers) (result : Bool) (n : ℕ) (c : Connection) (p : Phase)
    → phase c.calls ≡ p
    → c.iorefs ≡ total holds (Task.accept ∷ c.tasks)
    → Fits p (under_way Task.accept c)
    → IsValid (work a result n Task.accept c)
unfolding work
accept-IsValid a result n c Phase.unborn e h f =
    let met =
      greet-IsValid a (record c { connected = true }) (ap (next Call.on_connection) e)
        (omega (arith, h)) (omega (arith, f.1)) (ground (arith, f.0, f.1)) in
    let lost = phase-IsValid Phase.unborn c e (omega (arith, h)) (ground (arith, f.0, f.1)) in
    elim (Bool-cases (result && a.updates)) [ inl on ↦ rw on met | inr off ↦ rw off lost ]
accept-IsValid a result n c Phase.opened e h f = absurd (omega (arith, f.1))
accept-IsValid a result n c Phase.over e h f =
    let met =
      greet-IsValid a (record c { connected = true }) (ap (next Call.on_connection) e)
        (omega (arith, h)) (omega (arith, f.0)) (ground (arith, f.0, f.1)) in
    let lost = phase-IsValid Phase.over c e (omega (arith, h)) (ground (arith, f.0, f.1)) in
    elim (Bool-cases (result && a.updates)) [ inl on ↦ rw on met | inr off ↦ rw off lost ]
accept-IsValid a result n c Phase.broken e h f = elim f [ ]

drop-IsValid :
    (a : Answers) (result : Bool) (n : ℕ) (c : Connection) (p : Phase)
    → phase c.calls ≡ p
    → c.iorefs ≡ total holds (Task.disconnect ∷ c.tasks)
    → Fits p (under_way Task.disconnect c)
    → IsValid (work a result n Task.disconnect c)
unfolding work
drop-IsValid a result n c Phase.unborn e h f = absurd (omega (arith, f.1))
drop-IsValid a result n c Phase.opened e h f =
    let waits = phase-IsValid Phase.opened (under_way Task.disconnect c) e h f in
    elim (Bool-cases (c.iorefs == 0)) [
      | inr busy ↦ rw busy waits
      | inl idle ↦
          let zero_refs : c.iorefs ≡ 0 = ground (arith, idle) in
          let lost =
            phase-IsValid Phase.over (called Call.on_disconnect c) (ap (next Call.on_disconnect) e)
              (omega (arith, h))
              (omega (arith, f.2, f.1, h, zero_refs, receives-holds c.tasks), omega (arith, f.1)) in
          rw idle lost
    ]
drop-IsValid a result n c Phase.over e h f = absurd (omega (arith, f.0))
drop-IsValid a result n c Phase.broken e h f = elim f [ ]

recv-IsValid :
    (a : Answers) (result : Bool) (n x : ℕ) (c : Connection) (p : Phase)
    → phase c.calls ≡ p
    → c.iorefs ≡ total holds (Task.recv x ∷ c.tasks)
    → Fits p (under_way (Task.recv x) c)
    → IsValid (work a result n (Task.recv x) c)
unfolding work
recv-IsValid a result n x c Phase.unborn e h f = absurd (omega (arith, f.1))
recv-IsValid a result n x c Phase.opened e h f =
    let shut = record c { pool = push_input_context c.pool x } in
    let more = called (Call.on_data n x) c in
    let fits_now : Fits Phase.opened c = ground (arith, f.0, f.1, f.2, f.3) in
    let ended =
      phase-IsValid Phase.opened (under_way Task.release (async_disconnect a.disconnects shut))
        (ap phase (disconnect-calls a.disconnects shut) ∙ e)
        (omega (arith, disconnect-counted 1 a.disconnects shut (omega (arith, h))))
        (release-opened (async_disconnect a.disconnects shut)
          (disconnect-opened a.disconnects shut fits_now)) in
    let goes_on =
      phase-IsValid Phase.opened (under_way Task.release (async_recv a x more))
        (ap phase (recv-calls a x more) ∙ ap (next (Call.on_data n x)) e)
        (omega (arith, recv-counted 1 a x more (omega (arith, h))))
        (release-opened (async_recv a x more)
          (recv-opened a x more (omega (arith, f.3)) fits_now)) in
    elim (Bool-cases (n == 0)) [ inl end ↦ rw end ended | inr some_data ↦ rw some_data goes_on ]
recv-IsValid a result n x c Phase.over e h f = absurd (omega (arith, f.0))
recv-IsValid a result n x c Phase.broken e h f = elim f [ ]

send-IsValid :
    (a : Answers) (result : Bool) (n x : ℕ) (c : Connection) (p : Phase)
    → phase c.calls ≡ p
    → c.iorefs ≡ total holds (Task.send x ∷ c.tasks)
    → Fits p (under_way (Task.send x) c)
    → IsValid (work a result n (Task.send x) c)
unfolding work
send-IsValid a result n x c Phase.unborn e h f = absurd (omega (arith, f.1))
send-IsValid a result n x c Phase.opened e h f = phase-IsValid Phase.opened _ e h f
send-IsValid a result n x c Phase.over e h f = phase-IsValid Phase.over _ e h f
send-IsValid a result n x c Phase.broken e h f = elim f [ ]

post-calls : (a : Answers) (x : ℕ) (c : Connection) → (post_send a x c).calls ≡ c.calls
unfolding post_send async_disconnect
post-calls a x c = ground arith

post-counted :
    (a : Answers) (x : ℕ) (c : Connection)
    → c.iorefs ≡ total holds c.tasks
    → (post_send a x c).iorefs ≡ total holds (post_send a x c).tasks
unfolding post_send async_disconnect
post-counted a x c h = ground arith

-- A send that was not posted gives the connection up where it is open still.
post-opened :
    (a : Answers) (x : ℕ) (c : Connection)
    → Fits Phase.opened c
    → Fits Phase.opened (post_send a x c)
unfolding post_send async_disconnect
post-opened a x c f = ground arith

post-over :
    (a : Answers) (x : ℕ) (c : Connection) → Fits Phase.over c → Fits Phase.over (post_send a x c)
unfolding post_send async_disconnect
post-over a x c f = ground arith

post-IsValid :
    (a : Answers) (result : Bool) (n x : ℕ) (c : Connection) (p : Phase)
    → phase c.calls ≡ p
    → c.iorefs ≡ total holds (Task.passed x ∷ c.tasks)
    → Fits p (under_way (Task.passed x) c)
    → IsValid (work a result n (Task.passed x) c)
unfolding work
post-IsValid a result n x c Phase.unborn e h f = absurd (omega (arith, f.1))
post-IsValid a result n x c Phase.opened e h f =
    phase-IsValid Phase.opened _ (ap phase (post-calls a x c) ∙ e)
      (post-counted a x c (omega (arith, h))) (post-opened a x c (ground arith))
post-IsValid a result n x c Phase.over e h f =
    phase-IsValid Phase.over _ (ap phase (post-calls a x c) ∙ e)
      (post-counted a x c (omega (arith, h))) (post-over a x c (ground arith))
post-IsValid a result n x c Phase.broken e h f = elim f [ ]

release-IsValid :
    (a : Answers) (result : Bool) (n : ℕ) (c : Connection) (p : Phase)
    → phase c.calls ≡ p
    → c.iorefs ≡ total holds (Task.release ∷ c.tasks)
    → Fits p (under_way Task.release c)
    → IsValid (work a result n Task.release c)
unfolding work
release-IsValid a result n c Phase.unborn e h f = absurd (omega (arith, f.1))
release-IsValid a result n c Phase.opened e h f =
    phase-IsValid Phase.opened (record c { iorefs = c.iorefs - 1 }) e (omega (arith, h))
      (ground arith)
release-IsValid a result n c Phase.over e h f =
    phase-IsValid Phase.over (record c { iorefs = c.iorefs - 1 }) e (omega (arith, h))
      (ground arith)
release-IsValid a result n c Phase.broken e h f = elim f [ ]

-- Every task keeps its connection well-formed.
pub work-IsValid :
    (a : Answers) (result : Bool) (n : ℕ) (t : Task) (c : Connection)
    → IsValid (under_way t c)
    → IsValid (work a result n t c)
work-IsValid a result n Task.connect c v = connect-IsValid a result n c _ refl v.counted v.fits
work-IsValid a result n Task.accept c v = accept-IsValid a result n c _ refl v.counted v.fits
work-IsValid a result n Task.disconnect c v = drop-IsValid a result n c _ refl v.counted v.fits
work-IsValid a result n (Task.recv x) c v = recv-IsValid a result n x c _ refl v.counted v.fits
work-IsValid a result n (Task.send x) c v = send-IsValid a result n x c _ refl v.counted v.fits
work-IsValid a result n (Task.passed x) c v = post-IsValid a result n x c _ refl v.counted v.fits
work-IsValid a result n Task.release c v = release-IsValid a result n c _ refl v.counted v.fits
