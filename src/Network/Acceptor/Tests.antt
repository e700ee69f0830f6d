-- ===== src/Network/Acceptor/Tests.antt =====
-- Runs of an acceptor (network/src/easy_acceptor.cpp, Windows).
use lib_fantuan.Prelude.{◌≡◌, refl, true, false, none, arith}
use lib_fantuan.Network.ContextPool.{pop, push}
use lib_fantuan.Network.Acceptor.{
  Acceptor, new_acceptor, accept, post_accept, close_connection, accept_ended, start, stop,
  can_clear, clear_free,
}
use lib_fantuan.Network.Acceptor.Destroy.{
  Started, starts, accept_ends, stops, closes, can_clear-Started, clear_free-never_ends,
}

abbrev first : Acceptor
first = accept true true (record new_acceptor { running = true })

-- One connection was accepted and closed, and the acceptor is stopped.
abbrev closed : Acceptor
closed = close_connection false 0 (stop (accept_ended true true true first))

closed-Started : Started closed
unfolding start new_acceptor
closed-Started = closes false 0 (stops (accept_ends true (starts refl)))

can_clear-Started_example : (can_clear closed ≡ false) × (start true true (stop closed) ≡ none)
can_clear-Started_example = can_clear-Started closed-Started

clear_free-never_ends_example : clear_free 1000 closed ≡ none
unfolding new_acceptor accept post_accept pop close_connection push accept_ended stop
clear_free-never_ends_example = clear_free-never_ends 1000 closed (omega arith) (omega arith)
