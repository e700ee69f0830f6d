-- ===== src/Network/Completion/Invariant.antt =====
-- The reference count and the state of a connection in every order of the steps
-- (network/src/easy_connection.cpp and network/src/easy_worker.cpp, Windows).
use lib_fantuan.Prelude.{
  ℕ, ◌+◌, ◌≤◌, ◌≡◌, Bool, true, false, List, [], ◌∷◌, arith, Bool-cases, inl, inr, sym, ap, subst,
  ◌∙◌, ◌==◌, ◌||◌, Option, some, none, not,
}
use lib_fantuan.Network.Completion.{
  Task, Call, Status, Connection, Answers, async_disconnect, async_recv, greet, close,
  received_first, called, input_context, under_way,
}
use lib_fantuan.Network.ContextPool.{ContextPool}
use lib_fantuan.Network.Completion.Steps.{
  total, holds, receives, passes, accepts, connects, drops, Phase, phase, next,
}

abbrev pub bit : Bool → ℕ
bit true = 1
bit false = 0

abbrev pub used : Status → ℕ
used Status.in_use = 1
used Status.spare = 0
used Status.deleted = 0

-- What is under way in a phase: there is one start at most, a start or a connection is only where the
-- connection is in use, an open connection has one receive and one disconnect at most, and the
-- disconnect only once it is not connected.
abbrev pub Fits : Phase → Connection → Type 0
Fits Phase.unborn c =
    (total accepts c.tasks + total connects c.tasks + bit c.connected ≤ used c.status)
    × (total drops c.tasks + total receives c.tasks + total passes c.tasks + total holds c.tasks
        ≡ 0)
Fits Phase.opened c =
    (used c.status ≡ 1)
    × (total accepts c.tasks + total connects c.tasks ≡ 0)
    × (total drops c.tasks + bit c.connected ≤ 1)
    × (total receives c.tasks ≤ 1)
Fits Phase.over c =
    (bit c.connected + total connects c.tasks + total drops c.tasks + total receives c.tasks ≡ 0)
    × (total accepts c.tasks ≤ used c.status)
Fits Phase.broken c = ⊥

-- iorefs_ counts the receives, the sends, and the threads that have a reference to give back.
pub record IsValid (c : Connection) : Type 0 where
  pub counted : c.iorefs ≡ total holds c.tasks
  pub fits : Fits (phase c.calls) c

pub receives-holds : (ts : List Task) → total receives ts ≤ total holds ts
receives-holds [] = omega arith
receives-holds (t ∷ ts) = let rest = receives-holds ts in one t rest
  where
    one :
        (t : Task)
        → total receives ts ≤ total holds ts
        → receives t + total receives ts ≤ holds t + total holds ts
    one Task.connect h = omega arith
    one Task.accept h = omega arith
    one Task.disconnect h = omega arith
    one (Task.recv x) h = omega arith
    one (Task.send x) h = omega arith
    one (Task.passed x) h = omega arith
    one Task.release h = omega arith

-- Where the count is right and the phase is known.
pub phase-IsValid :
    (p : Phase) (c : Connection)
    → phase c.calls ≡ p
    → c.iorefs ≡ total holds c.tasks
    → Fits p c
    → IsValid c
phase-IsValid p c e h f = record { counted = h; fits = subst (λ q. Fits q c) (sym e) f }

pub disconnect-calls : (ok : Bool) (c : Connection) → (async_disconnect ok c).calls ≡ c.calls
unfolding async_disconnect
disconnect-calls ok c = ground arith

pub recv-calls : (a : Answers) (x : ℕ) (c : Connection) → (async_recv a x c).calls ≡ c.calls
unfolding async_recv async_disconnect
recv-calls a x c = ground arith

-- A disconnect leaves the count alone, and it fits while a connection is open or after that.
pub disconnect-counted :
    (k : ℕ) (ok : Bool) (c : Connection)
    → c.iorefs ≡ k + total holds c.tasks
    → (async_disconnect ok c).iorefs ≡ k + total holds (async_disconnect ok c).tasks
unfolding async_disconnect
disconnect-counted k ok c h = ground arith

pub disconnect-opened :
    (ok : Bool) (c : Connection) → Fits Phase.opened c → Fits Phase.opened (async_disconnect ok c)
unfolding async_disconnect
disconnect-opened ok c f = ground arith

pub release-opened :
    (c : Connection) → Fits Phase.opened c → Fits Phase.opened (under_way Task.release c)
release-opened c f = ground arith

-- A receive is counted, posted or not; it is the only one.
pub recv-opened :
    (a : Answers) (x : ℕ) (c : Connection)
    → total receives c.tasks ≡ 0
    → Fits Phase.opened c
    → Fits Phase.opened (async_recv a x c)
unfolding async_recv async_disconnect
recv-opened a x c no_recv f = ground arith

pub recv-counted :
    (k : ℕ) (a : Answers) (x : ℕ) (c : Connection)
    → c.iorefs ≡ k + total holds c.tasks
    → (async_recv a x c).iorefs ≡ k + total holds (async_recv a x c).tasks
unfolding async_recv async_disconnect
recv-counted k a x c h = ground arith

-- The first receive of an open connection, or its end.
pub received-IsValid :
    (a : Answers) (c : Connection) (o : Option (ContextPool × ℕ))
    → phase c.calls ≡ Phase.opened
    → c.iorefs ≡ total holds c.tasks
    → total receives c.tasks ≡ 0
    → Fits Phase.opened c
    → IsValid (received_first a c o)
unfolding received_first
received-IsValid a c none p h no_recv f =
    phase-IsValid Phase.opened _ (ap phase (disconnect-calls a.disconnects c) ∙ p)
      (omega (arith, disconnect-counted 0 a.disconnects c (omega (arith, h))))
      (disconnect-opened a.disconnects c f)
received-IsValid a c (some (pool, x)) p h no_recv f =
    let with_pool = record c { pool = pool } in
    phase-IsValid Phase.opened _ (ap phase (recv-calls a x with_pool) ∙ p)
      (omega (arith, recv-counted 0 a x with_pool (omega (arith, h))))
      (recv-opened a x with_pool no_recv f)

-- A connection that has come up.
pub greet-IsValid :
    (a : Answers) (c : Connection)
    → next Call.on_connection (phase c.calls) ≡ Phase.opened
    → c.iorefs ≡ total holds c.tasks
    → total receives c.tasks ≡ 0
    → Fits Phase.opened c
    → IsValid (greet a c)
unfolding greet received_first
greet-IsValid a c p h no_recv f =
    let met = called Call.on_connection c in
    let given = received-IsValid a met (input_context a c.pool) p h no_recv f in
    let refused = received-IsValid a met none p h no_recv f in
    elim (Bool-cases a.welcomes) [ inl on ↦ rw on given | inr off ↦ rw off refused ]

-- A connection that is over, and that the acceptor has not taken again, may be closed.
pub close-IsValid :
    (c : Connection)
    → phase c.calls ≡ Phase.over
    → c.iorefs ≡ total holds c.tasks
    → total accepts c.tasks ≡ 0
    → Fits Phase.over c
    → IsValid (close c)
unfolding close
close-IsValid c e h no_accept f = elim (Bool-cases (not (c.iorefs == 0) || c.connected)) [
  | inl kept ↦ rw kept (phase-IsValid Phase.over c e h f)
  | inr shut ↦ rw shut (elim (Bool-cases c.has_acceptor) [
    | inl server ↦ rw server (phase-IsValid Phase.over _ e h (f.0, omega arith))
    | inr client ↦ rw client (phase-IsValid Phase.over _ e h (f.0, omega arith))
  ])
]
