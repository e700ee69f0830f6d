-- ===== src/Network/Completion/Protocol.antt =====
-- What the threads of the port promise to the handler of a connection
-- (network/src/easy_connection.cpp and network/src/easy_worker.cpp, Windows).
use lib_fantuan.Prelude.{
  ℕ, ◌≡◌, refl, Bool, List, [], ◌∷◌, ◌++◌, arith, Bool-cases, inl, inr, ap, subst, ◌∙◌, ltb,
}
use lib_fantuan.Network.ContextPool.{push_output_context}
use lib_fantuan.Network.Completion.{
  Task, Call, Status, Connection, Answers, Buffer, connect_to, accept_with, async_send,
  async_send_context, async_disconnect, async_connect, delete, close, under_way, set_ref_max,
}
use lib_fantuan.Network.Completion.Steps.{
  total, total-split, holds, receives, passes, accepts, connects, drops, Phase, phase, next, Step,
  Reach, connecting, accepting, working, sending, disconnecting, closing, limiting, created, later,
}
use lib_fantuan.Network.Completion.Invariant.{
  used, Fits, IsValid, phase-IsValid, disconnect-calls, disconnect-counted, disconnect-opened,
  close-IsValid,
}
use lib_fantuan.Network.Completion.Work.{work-IsValid}

Fits-same :
    (p : Phase) (c : Connection) (ts : List Task)
    → ((g : Task → ℕ) → total g c.tasks ≡ total g ts)
    → Fits p c
    → Fits p (record c { tasks = ts })
Fits-same Phase.unborn c ts same f = (
  omega (arith, f.0, same accepts, same connects),
  omega (arith, f.1, same drops, same receives, same passes, same holds),
)
Fits-same Phase.opened c ts same f = (
  f.0,
  omega (arith, f.1, same accepts, same connects),
  omega (arith, f.2, same drops),
  omega (arith, f.3, same receives),
)
Fits-same Phase.over c ts same f =
    (omega (arith, f.0, same connects, same drops, same receives), omega (arith, f.1, same accepts))
Fits-same Phase.broken c ts same f = f

-- What fits does not depend on the order of the tasks.
split-Fits :
    (p : Phase) (c : Connection) (before : List Task) (t : Task) (behind : List Task)
    → c.tasks ≡ before ++ t ∷ behind
    → Fits p c
    → Fits p (record c { tasks = t ∷ (before ++ behind) })
split-Fits p c before t behind e f =
    let same : (g : Task → ℕ) → total g c.tasks ≡ total g (t ∷ (before ++ behind)) =
      λ g. ap (total g) e ∙ total-split g before t behind in
    Fits-same p c (t ∷ (before ++ behind)) same f

pub split-IsValid :
    (c : Connection) (before : List Task) (t : Task) (behind : List Task)
    → c.tasks ≡ before ++ t ∷ behind
    → IsValid c
    → IsValid (under_way t (record c { tasks = before ++ behind }))
split-IsValid c before t behind e v = record {
  counted = v.counted ∙ (ap (total holds) e ∙ total-split holds before t behind);
  fits = split-Fits (phase c.calls) c before t behind e v.fits;
}

opened-IsValid :
    (ok : Bool) (c : Connection)
    → phase c.calls ≡ Phase.opened
    → IsValid c
    → IsValid (async_disconnect ok c)
opened-IsValid ok c p v =
    phase-IsValid Phase.opened _ (ap phase (disconnect-calls ok c) ∙ p)
      (omega (arith, disconnect-counted 0 ok c (omega (arith, v.counted))))
      (disconnect-opened ok c (subst (λ q. Fits q c) p v.fits))

send_test-IsValid :
    (a : Answers) (x : ℕ) (c : Connection)
    → phase c.calls ≡ Phase.opened
    → IsValid c
    → IsValid (async_send_context a x c)
unfolding async_send_context
send_test-IsValid a x c p v =
    let back = record c { pool = push_output_context c.pool x } in
    let f : Fits Phase.opened c = subst (λ q. Fits q c) p v.fits in
    let refused =
      opened-IsValid a.disconnects back p (phase-IsValid Phase.opened back p v.counted f) in
    let passing =
      phase-IsValid Phase.opened (under_way (Task.passed x) c) p (omega (arith, v.counted))
        (ground (arith, f.0, f.1, f.2, f.3)) in
    elim (Bool-cases (ltb c.iorefmax c.iorefs)) [
      | inl many ↦ rw many refused
      | inr few ↦ rw few passing
    ]

send-IsValid_any :
    (a : Answers) (size len : ℕ) (b : Buffer) (c : Connection)
    → phase c.calls ≡ Phase.opened
    → IsValid c
    → IsValid (async_send a size len b c)
unfolding async_send
send-IsValid_any a size len (Buffer.input x) c p v = v
send-IsValid_any a size len (Buffer.output x) c p v = elim (Bool-cases (ltb size len)) [
  | inl long ↦ rw long v
  | inr fits ↦ rw fits (send_test-IsValid a x c p v)
]

connecting-IsValid :
    (ok : Bool) (c : Connection)
    → c.status ≡ Status.spare
    → c.calls ≡ []
    → IsValid c
    → IsValid (connect_to ok c)
unfolding connect_to async_connect
connecting-IsValid ok c s e v =
    let p : phase c.calls ≡ Phase.unborn = ap phase e in
    let f : Fits Phase.unborn c = subst (λ q. Fits q c) p v.fits in
    let unused : used c.status ≡ 0 = ap used s in
    let begun =
      phase-IsValid Phase.unborn (under_way Task.connect (record c { status = Status.in_use })) p
        (omega (arith, v.counted)) (ground (arith, f.0, f.1, unused)) in
    let gone =
      phase-IsValid Phase.unborn (delete c) p (omega (arith, v.counted))
        (ground (arith, f.0, f.1, unused)) in
    elim (Bool-cases ok) [ inl taken ↦ rw taken begun | inr refused ↦ rw refused gone ]

accepting-Fits :
    (p : Phase) (c : Connection) → used c.status ≡ 0 → Fits p c → Fits p (accept_with c)
unfolding accept_with
accepting-Fits Phase.unborn c s f = ground arith
accepting-Fits Phase.opened c s f = absurd (omega (arith, f.0))
accepting-Fits Phase.over c s f = ground arith
accepting-Fits Phase.broken c s f = f

accepting-IsValid : (c : Connection) → c.status ≡ Status.spare → IsValid c → IsValid (accept_with c)
unfolding accept_with
accepting-IsValid c s v = record {
  counted = omega (arith, v.counted);
  fits = accepting-Fits (phase c.calls) c (ap used s) v.fits;
}

lost-over :
    (p : Phase) (c : Connection)
    → Fits (next Call.on_disconnect p) c
    → next Call.on_disconnect p ≡ Phase.over
lost-over Phase.unborn c f = elim f [ ]
lost-over Phase.opened c f = refl
lost-over Phase.over c f = elim f [ ]
lost-over Phase.broken c f = elim f [ ]

closing-IsValid :
    (c : Connection) (ks : List Call)
    → c.calls ≡ Call.on_disconnect ∷ ks
    → total accepts c.tasks ≡ 0
    → IsValid c
    → IsValid (close c)
closing-IsValid c ks e no_accept v =
    let f = subst (λ q. Fits q c) (ap phase e) v.fits in
    let p : phase c.calls ≡ Phase.over = ap phase e ∙ lost-over (phase ks) c f in
    close-IsValid c p v.counted no_accept (subst (λ q. Fits q c) p v.fits)

limit-Fits :
    (refmax : ℕ) (p : Phase) (c : Connection) → Fits p c → Fits p (record c { iorefmax = refmax })
limit-Fits refmax Phase.unborn c f = f
limit-Fits refmax Phase.opened c f = f
limit-Fits refmax Phase.over c f = f
limit-Fits refmax Phase.broken c f = f

limit-IsValid : (refmax : ℕ) (c : Connection) → IsValid c → IsValid (set_ref_max refmax c)
unfolding set_ref_max
limit-IsValid refmax c v = record {
  counted = v.counted;
  fits = limit-Fits refmax (phase c.calls) c v.fits;
}

pub step-IsValid : {threads : ℕ} {c d : Connection} → IsValid c → Step threads c d → IsValid d
step-IsValid {c = c} v (connecting ok no_acceptor s e) = connecting-IsValid ok c s e v
step-IsValid {c = c} v (accepting with_acceptor s) = accepting-IsValid c s v
step-IsValid {c = c} v (working a result n before t behind e) =
    work-IsValid a result n t (record c { tasks = before ++ behind })
      (split-IsValid c before t behind e v)
step-IsValid {c = c} v (sending a size len b p room) = send-IsValid_any a size len b c p v
step-IsValid {c = c} v (disconnecting ok p) = opened-IsValid ok c p v
step-IsValid {c = c} v (closing ks e used no_accept) = closing-IsValid c ks e no_accept v
step-IsValid {c = c} v (limiting refmax) = limit-IsValid refmax c v

-- In every order of the steps, iorefs_ is the number of the receives and sends that are under way and of
-- the threads that still have a reference to give back, an open connection has one receive and one
-- disconnect at most, and the handler sees OnConnection first, then data, then one OnDisconnect.
pub Reach-IsValid : {threads : ℕ} {c : Connection} → Reach threads c → IsValid c
Reach-IsValid (created has_acceptor pool) = record { counted = refl; fits = (omega arith, refl) }
Reach-IsValid (later r s) = step-IsValid (Reach-IsValid r) s
