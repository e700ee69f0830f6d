-- ===== src/Network/Acceptor/Destroy.antt =====
-- What the counts of an acceptor mean for its destructor (network/src/easy_acceptor.cpp, Windows).
use lib_fantuan.Prelude.{
  ℕ, ◌+◌, ◌%◌, ◌^◌, ◌≤◌, ◌<◌, ◌≡◌, suc, zero, Bool, true, false, none, some, length, ltb, ◌==◌,
  arith, Bool-cases, refl, ap, subst, inl, inr,
}
use lib_fantuan.Network.ContextPool.{pop, push}
use lib_fantuan.Network.ContextPool.Uses.{push-pop}
use lib_fantuan.Network.Acceptor.{
  Acceptor, new_acceptor, close_connection, post_accept, accept, accept_ended, start, stop,
  can_clear, clear_free,
}

-- The states of an acceptor that was started, where no call of the system fails but AcceptEx may report an accept as
-- failed when it ends: an accept ends, Stop and Start are called, and connections are closed.
pub data Started : Acceptor → Type 0 where
  starts : {b : Acceptor} → start true true new_acceptor ≡ some b → Started b
  accept_ends :
      {a : Acceptor} (result : Bool) → Started a → Started (accept_ended result true true a)
  stops : {a : Acceptor} → Started a → Started (stop a)
  starts_again : {a b : Acceptor} → Started a → start true true a ≡ some b → Started b
  closes : {a : Acceptor} (busy : Bool) (x : ℕ) → Started a → Started (close_connection busy x a)

-- Each accept takes one reference.
accept-iorefs : (a : Acceptor) → (accept true true a).iorefs ≡ a.iorefs + 1
unfolding accept post_accept
accept-iorefs a = elim (Bool-cases (ltb 0 (length a.connections.free))) [
  | inl free ↦ rw free
  | inr none_free ↦ rw none_free
]

-- A worker thread posts the next accept before it gives back the reference of the last.
ended-iorefs :
    (result : Bool) (a : Acceptor) → 1 ≤ a.iorefs → 1 ≤ (accept_ended result true true a).iorefs
unfolding accept_ended
ended-iorefs result a h = elim (Bool-cases result) [
  | inl accepted ↦ rw accepted (omega (arith, accept-iorefs a, h))
  | inr failed ↦ rw failed h
]

close-iorefs : (busy : Bool) (x : ℕ) (a : Acceptor) → (close_connection busy x a).iorefs ≡ a.iorefs
unfolding close_connection
close-iorefs true x a = refl
close-iorefs false x a = refl

stop-iorefs : (a : Acceptor) → (stop a).iorefs ≡ a.iorefs
unfolding stop
stop-iorefs a = refl

first-iorefs : {b : Acceptor} → start true true new_acceptor ≡ some b → 1 ≤ b.iorefs
unfolding start new_acceptor
first-iorefs {b} e =
    let fresh : Acceptor = record new_acceptor { running = true } in
    let same : accept true true fresh ≡ b = cc in
    omega (arith, ap (λ k. k.iorefs) same, accept-iorefs fresh)

again-iorefs :
    (a : Acceptor) {b : Acceptor} → 1 ≤ a.iorefs → start true true a ≡ some b → 1 ≤ b.iorefs
unfolding start
again-iorefs a {b} h e =
    let busy : (a.iorefs == 0) ≡ false = ground (arith, h) in
    elim (Bool-cases a.running) [
      | inl on ↦ let same : a ≡ b = cc (rw (on, start) at e) in subst (λ k. 1 ≤ k.iorefs) same h
      | inr off ↦ absurd (cc (rw (off, busy, start) at e))
    ]

Started-iorefs : {a : Acceptor} → Started a → 1 ≤ a.iorefs
Started-iorefs (starts e) = first-iorefs e
Started-iorefs (accept_ends {a = a} result s) = ended-iorefs result a (Started-iorefs s)
Started-iorefs (stops {a = a} s) = omega (arith, stop-iorefs a, Started-iorefs s)
Started-iorefs (starts_again {a = a} s e) = again-iorefs a (Started-iorefs s) e
Started-iorefs (closes {a = a} busy x s) = omega (arith, close-iorefs busy x a, Started-iorefs s)

-- Once an acceptor was started, whatever accepts end and connections are closed after that, and whether Stop was
-- called or not, the destructor waits for ever, and so does Start after Stop.
-- Condition: no call of the system fails but for accepts that end with an error.
pub can_clear-Started :
    {a : Acceptor} → Started a → (can_clear a ≡ false) × (start true true (stop a) ≡ none)
unfolding start stop
can_clear-Started {a} s =
    let pending = Started-iorefs s in
    let busy : (a.iorefs == 0) ≡ false = ground (arith, pending) in (rw busy refl, rw busy refl)

-- Once the destructor takes a connection from the list, it never ends: Close puts the connection back.
-- Condition: fewer than 2 ^ 16 are free.
pub clear_free-never_ends :
    (fuel : ℕ) (a : Acceptor)
    → 1 ≤ length a.connections.free
    → length a.connections.free < 2 ^ 16
    → clear_free fuel a ≡ none
unfolding clear_free close_connection
clear_free-never_ends zero a some_free few = refl
clear_free-never_ends (suc fuel) a some_free few =
    let (side, x) = pop a.connections in
    let back = record a { connections = push side x } in
    let same = ap length (push-pop a.connections some_free) in
    let rest = clear_free-never_ends fuel back (omega (arith, same)) (omega (arith, same)) in
    let more : (length a.connections.free % 2 ^ 16 == 0) ≡ false = ground arith in rw more rest

-- Where AcceptEx refuses the request, the free list has the connection twice, so that the next two accepts are
-- given the same connection.
pub accept-refused :
    (a : Acceptor)
    → let after = (accept true false a).connections in (pop after).1 ≡ (pop (pop after).0).1
unfolding accept post_accept close_connection push pop
accept-refused a = elim (Bool-cases (ltb 0 (length a.connections.free))) [
  | inl free ↦ rw free
  | inr none_free ↦ rw none_free
]
