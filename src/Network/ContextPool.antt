-- ===== src/Network/ContextPool.antt =====
-- EasyContextPool (network/src/easy_contextpool.cpp, Windows). The lists are stacks whose pushes and pops
-- are atomic, so the calls are a sequence. A context is known by the number of those that were made
-- before it on its side.
pub mod Uses
mod Tests
use lib_fantuan.Prelude.{ℕ, ◌+◌, ◌%◌, ◌^◌, Bool, List, [], ◌∷◌, length, ◌==◌, ◌&&◌}

-- `input_context_pool_` and `input_context_count_`, or those of the output side.
pub record Side : Type 0 where
  pub free : List ℕ
  pub count : ℕ

pub record ContextPool : Type 0 where
  pub input : Side
  pub output : Side

abbrev pub empty_side : Side
empty_side = record { free = []; count = 0 }

-- The constructor.
unfoldable pub new_pool : ContextPool
new_pool = record { input = empty_side; output = empty_side }

popped : Side → List ℕ → Side × ℕ
popped s [] = (record { free = []; count = s.count + 1 }, s.count)
popped s (x ∷ xs) = (record s { free = xs }, x)

-- What PopInputContext and PopOutputContext do on their side, where the allocation succeeds.
unfoldable pub pop : Side → Side × ℕ
unfolding popped
pop s = popped s s.free

-- What PushInputContext and PushOutputContext do on their side.
unfoldable pub push : Side → ℕ → Side
push s x = record s { free = x ∷ s.free }

unfoldable pub pop_input_context : ContextPool → ContextPool × ℕ
unfolding pop
pop_input_context p = let (side, x) = pop p.input in (record p { input = side }, x)

-- Also `PopOutputBuffer`: a buffer is known by its context.
unfoldable pub pop_output_context : ContextPool → ContextPool × ℕ
unfolding pop
pop_output_context p = let (side, x) = pop p.output in (record p { output = side }, x)

unfoldable pub push_input_context : ContextPool → ℕ → ContextPool
unfolding push
push_input_context p x = record p { input = push p.input x }

-- Also `PushOutputBuffer`.
unfoldable pub push_output_context : ContextPool → ℕ → ContextPool
unfolding push
push_output_context p x = record p { output = push p.output x }

-- Whether the destructor stops waiting for a side. QueryDepthSList returns 16 bits.
abbrev pub is_complete : Side → Bool
is_complete s = length s.free % 2 ^ 16 == s.count

-- Whether the destructor ends.
abbrev pub can_destroy : ContextPool → Bool
can_destroy p = is_complete p.input && is_complete p.output
