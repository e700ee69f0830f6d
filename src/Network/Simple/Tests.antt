-- ===== src/Network/Simple/Tests.antt =====
-- Runs of the client's thread (simplenetwork/src/simple_worker.cpp).
use lib_fantuan.Prelude.{◌≡◌, refl, List, [], ◌∷◌, ◌++◌, arith, true}
use lib_fantuan.Network.Simple.{
  SimpleConnection, new_simple, got, timed_out, readable, select_failed, returned, simple_thread,
  Selected, connect_simple,
}
use lib_fantuan.Network.Simple.Delivered.{bytes_of, errs, waits, comes, simple_thread-delivers}

abbrev answers : List Selected
answers =
    readable (got (1 ∷ 2 ∷ []))
    ∷ timed_out
    ∷ readable (got (3 ∷ []))
    ∷ select_failed
    ∷ readable (got (4 ∷ []))
    ∷ []

abbrev connected : SimpleConnection
connected = (connect_simple true new_simple).0

simple_thread-delivers_example :
    (d : SimpleConnection) × (simple_thread answers connected ≡ returned d)
    × (bytes_of d.notices ≡ bytes_of connected.notices ++ (1 ∷ 2 ∷ 3 ∷ []))
unfolding connect_simple
simple_thread-delivers_example =
    simple_thread-delivers connected
      (comes (1 ∷ 2 ∷ []) (omega arith) (omega arith)
        (waits (comes (3 ∷ []) (omega arith) (omega arith) (errs (readable (got (4 ∷ [])) ∷ [])))))
      refl
