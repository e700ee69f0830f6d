-- ===== src/Network/Completion/Lost.antt =====
-- The end of a connection (AsyncDisconnect of network/src/easy_connection.cpp, Windows, and
-- OPERATION_DISCONNECT of network/src/easy_worker.cpp).
use lib_fantuan.Prelude.{
  length, ℕ, ◌≡◌, ◌≢◌, refl, Bool, false, List, ◌∷◌, ◌++◌, arith, Bool-cases, inl, inr, ap, ◌==◌,
}
use lib_fantuan.Network.Completion.{Task, Call, Connection, Answers, work, under_way}
use lib_fantuan.Network.Completion.Steps.{total, holds, Reach, Phase, phase}
use lib_fantuan.Network.Completion.Invariant.{Fits}
use lib_fantuan.Network.Completion.Protocol.{Reach-IsValid, split-IsValid}

no_call : (c : Connection) → c.calls ≢ Call.on_disconnect ∷ c.calls
no_call c e = let same = ap length e in omega (arith, same)

lost-calls :
    (a : Answers) (result : Bool) (n : ℕ) (c : Connection)
    → (work a result n Task.disconnect c).calls ≡ Call.on_disconnect ∷ c.calls
    → c.iorefs ≡ 0
unfolding work
lost-calls a result n c e = elim (Bool-cases (c.iorefs == 0)) [
  | inl idle ↦ ground (arith, idle)
  | inr busy ↦ absurd (no_call c (rw busy at e))
]

-- What holds of a connection of which a disconnect is under way.
dropped-opened :
    (p : Phase) (c : Connection)
    → Fits p (under_way Task.disconnect c)
    → (p ≡ Phase.opened) × (c.connected ≡ false)
dropped-opened Phase.unborn c f = absurd (omega (arith, f.1))
dropped-opened Phase.opened c f = (refl, ground (arith, f.2))
dropped-opened Phase.over c f = absurd (omega (arith, f.0))
dropped-opened Phase.broken c f = elim f [ ]

-- When a worker thread calls OnDisconnect, OnConnection was called and OnDisconnect was not, the
-- connection is not connected, and no receive and no send of it is under way.
pub work-on_disconnect :
    {threads : ℕ} {c : Connection} (a : Answers) (result : Bool) (n : ℕ) (before behind : List Task)
    → Reach threads c
    → c.tasks ≡ before ++ Task.disconnect ∷ behind
    → (work a result n Task.disconnect (record c { tasks = before ++ behind })).calls
      ≡ Call.on_disconnect ∷ c.calls
    → (phase c.calls ≡ Phase.opened) × (c.connected ≡ false) × (total holds c.tasks ≡ 0)
work-on_disconnect {c = c} a result n before behind r e lost =
    let v = split-IsValid c before Task.disconnect behind e (Reach-IsValid r) in
    let none_held = lost-calls a result n (record c { tasks = before ++ behind }) lost in
    let (p, off) = dropped-opened (phase c.calls) (record c { tasks = before ++ behind }) v.fits in
    (p, off, omega (arith, none_held, (Reach-IsValid r).counted))
