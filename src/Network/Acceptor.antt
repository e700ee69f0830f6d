-- ===== src/Network/Acceptor.antt =====
-- EasyAcceptor of the Windows build (network/src/easy_acceptor.cpp). Its free connections are a stack of
-- those that it has made, with atomic pushes and pops, as in the pool of contexts; a connection is
-- known by the number of those that were made before it.
pub mod Destroy
mod Tests
use lib_fantuan.Prelude.{
  ℕ, ◌+◌, ◌-◌, ◌%◌, ◌^◌, suc, zero, Bool, true, false, not, ◌&&◌, ◌||◌, Option, none, some, List,
  [], ◌∷◌, length, ltb, ◌==◌, if◌then◌else◌,
}
use lib_fantuan.Network.ContextPool.{Side, empty_side, pop, push}

-- `accepting` is connection_ of context_, where an accept is pending. `total_connection` has 32 bits.
pub record Acceptor : Type 0 where
  pub running : Bool
  pub iorefs : ℕ
  pub total_connection : ℕ
  pub connections : Side
  pub accepting : Option ℕ

-- The constructor.
unfoldable pub new_acceptor : Acceptor
new_acceptor = record {
  running = false;
  iorefs = 0;
  total_connection = 0;
  connections = empty_side;
  accepting = none;
}

-- EasyConnection::Close for a connection of this acceptor, which has `iorefs_` or `connected_` set where
-- it is `busy`.
unfoldable pub close_connection : Bool → ℕ → Acceptor → Acceptor
close_connection busy x a = if busy then a else record a { connections = push a.connections x }

-- AcceptEx, and what follows where it refuses the request.
unfoldable pub post_accept : Bool → ℕ → Acceptor → Acceptor
unfolding close_connection
post_accept posted x a =
    let waiting = record a { iorefs = a.iorefs + 1; accepting = some x } in
    if posted
    then waiting
    else (let closed = close_connection false x waiting in
        record closed {
          connections = push closed.connections x;
          total_connection = (a.total_connection + 1) % 2 ^ 32;
          iorefs = waiting.iorefs - 1;
          running = false;
        })

-- Accept, by the success of Create and of AcceptEx.
unfoldable pub accept : Bool → Bool → Acceptor → Acceptor
unfolding post_accept
accept created posted a =
    let (side, x) = pop a.connections in
    if ltb 0 (length a.connections.free)
    then post_accept posted x (record a {
      connections = side;
      total_connection = (a.total_connection + (2 ^ 32 - 1)) % 2 ^ 32;
    })
    else (if created
        then post_accept posted x (record a { connections = side })
        else record a { running = false })

-- What a worker thread does with the acceptor when an accept has ended: the next accept, and the
-- reference of this one.
unfoldable pub accept_ended : Bool → Bool → Bool → Acceptor → Acceptor
unfolding accept
accept_ended result created posted a =
    if result
    then (let next = accept created posted a in record next { iorefs = next.iorefs - 1 })
    else a

-- Start, or nothing where it waits.
unfoldable pub start : Bool → Bool → Acceptor → Option Acceptor
unfolding accept
start created posted a =
    if a.running
    then some a
    else (if a.iorefs == 0
        then some (accept created posted (record a { running = true }))
        else none)

unfoldable pub stop : Acceptor → Acceptor
stop a = record a { running = false }

-- Whether the destructor gets past its waits. QueryDepthSList returns 16 bits.
abbrev pub can_clear : Acceptor → Bool
can_clear a = (a.iorefs == 0) && (length a.connections.free % 2 ^ 16 == a.total_connection)

-- The second loop of the destructor, on fuel: what is left, or nothing where the fuel does not suffice.
unfoldable pub clear_free : ℕ → Acceptor → Option Acceptor
unfolding close_connection
clear_free zero a = none
clear_free (suc fuel) a =
    let (side, x) = pop a.connections in
    let rest = clear_free fuel (close_connection false x (record a { connections = side })) in
    if length a.connections.free % 2 ^ 16 == 0 then some a else rest
