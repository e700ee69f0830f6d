-- ===== src/Network/Completion/Sends.antt =====
-- How many sends a connection has under way (AsyncSend of network/src/easy_connection.cpp, Windows).
-- The test of iorefs_ and its increment are two operations, and other threads may come in between.
use lib_fantuan.Prelude.{ℕ, ◌+◌, ◌≤◌, ◌≡◌, refl, Bool, ◌++◌, arith, ltb, if◌then◌else◌}
use lib_fantuan.Network.Completion.{Connection, connect_to, accept_with, async_connect, set_ref_max}
use lib_fantuan.Network.Completion.Steps.{
  total, sends, passes, Step, Reach, connecting, accepting, working, sending, disconnecting,
  closing, limiting, created, later,
}
use lib_fantuan.Network.Completion.Invariant.{IsValid}
use lib_fantuan.Network.Completion.Protocol.{Reach-IsValid}
use lib_fantuan.Network.Completion.Limits.{
  Same, disconnect-Same, close-Same, Bounded, Same-Bounded, work-Bounded, split-Bounded,
  send-Bounded,
}

connecting-Same : (ok : Bool) (c : Connection) → Same c (connect_to ok c)
unfolding connect_to async_connect
connecting-Same ok c = ground arith

accepting-Same : (c : Connection) → Same c (accept_with c)
unfolding accept_with
accepting-Same c = ground arith

limiting-Same :
    (refmax : ℕ) (c : Connection)
    → (total sends (set_ref_max refmax c).tasks ≡ total sends c.tasks)
      × (total passes (set_ref_max refmax c).tasks ≡ total passes c.tasks)
unfolding set_ref_max
limiting-Same refmax c = (refl, refl)

step-Bounded :
    {threads most : ℕ} {c d : Connection}
    → IsValid c
    → c.iorefmax ≤ most
    → Bounded threads most c
    → Step threads c d
    → Bounded threads most d
step-Bounded {threads} {most} {c} v under b (connecting ok no_acceptor s e) =
    Same-Bounded threads most c _ (connecting-Same ok c) b
step-Bounded {threads} {most} {c} v under b (accepting with_acceptor s) =
    Same-Bounded threads most c _ (accepting-Same c) b
step-Bounded {threads} {most} {c} v under b (working a result n before t behind e) =
    work-Bounded threads most a result n t (record c { tasks = before ++ behind })
      (split-Bounded threads most c before t behind e b)
step-Bounded {threads} {most} {c} v under b (sending a size len buf p room) =
    send-Bounded threads most a size len buf c v under room b
step-Bounded {threads} {most} {c} v under b (disconnecting ok p) =
    Same-Bounded threads most c _ (disconnect-Same ok c) b
step-Bounded {threads} {most} {c} v under b (closing ks e used no_accept) =
    Same-Bounded threads most c _ (close-Same c) b
step-Bounded {threads} {most} {c} v under b (limiting refmax) =
    let same = limiting-Same refmax c in
    record { few = omega (arith, same.0, b.few); bound = omega (arith, same.0, same.1, b.bound) }

-- The greatest iorefmax_ that the connection has had.
abbrev pub peak : {threads : ℕ} {c : Connection} → Reach threads c → ℕ
peak (created has_acceptor pool) = 65536
peak (later {d = d} r s) =
    let before = peak r in if ltb before d.iorefmax then d.iorefmax else before

peak-top : {threads : ℕ} {c : Connection} (r : Reach threads c) → c.iorefmax ≤ peak r
peak-top (created has_acceptor pool) = omega arith
peak-top (later {d = d} r s) = ground arith

peak-later :
    {threads : ℕ} {c d : Connection} (r : Reach threads c) (s : Step threads c d)
    → peak r ≤ peak (later r s)
peak-later r s = ground arith

reached-Bounded : {threads : ℕ} {c : Connection} (r : Reach threads c) → Bounded threads (peak r) c
reached-Bounded (created has_acceptor pool) = record { few = omega arith; bound = omega arith }
reached-Bounded (later r s) =
    let b = step-Bounded (Reach-IsValid r) (peak-top r) (reached-Bounded r) s in
    record { few = b.few; bound = omega (arith, b.bound, peak-later r s) }

-- The sends of a connection that are under way are at most the greatest iorefmax_ that the connection
-- has had and the number of threads that may be inside AsyncSend at once.
pub sends_bound :
    {threads : ℕ} {c : Connection} (r : Reach threads c) → total sends c.tasks ≤ peak r + threads
sends_bound r = let b = reached-Bounded r in omega (arith, b.bound)
