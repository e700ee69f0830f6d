-- ===== src/Network/ContextPool/Tests.antt =====
-- Runs of EasyContextPool (network/src/easy_contextpool.cpp), and its theorems at concrete inputs.
use lib_fantuan.Prelude.{arith, ℕ, ◌≡◌, ◌↔◌, true, List, [], ◌∷◌}
use lib_fantuan.Network.ContextPool.{Side, pop, push, is_complete}
use lib_fantuan.Network.ContextPool.Uses.{
  Uses, unused, pops, pushes, Exclusive, Uses-Exclusive, is_complete_iff,
}

-- Two contexts were made, and the first one is back.
abbrev one_out : Side
one_out = record { free = 0 ∷ []; count = 2 }

one_out-Uses : Uses one_out (1 ∷ [])
unfolding pop push
one_out-Uses = pushes (1 ∷ []) 0 [] (pops (pops unused))

Uses-Exclusive_example : Exclusive one_out (1 ∷ [])
Uses-Exclusive_example = Uses-Exclusive one_out-Uses

abbrev contexts_out : List ℕ
contexts_out = 1 ∷ []

is_complete_iff_example : (is_complete one_out ≡ true) ↔ (contexts_out ≡ [])
is_complete_iff_example = is_complete_iff contexts_out one_out-Uses (omega arith)
