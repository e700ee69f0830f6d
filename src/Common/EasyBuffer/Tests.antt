-- ===== src/Common/EasyBuffer/Tests.antt =====
-- Runs of EasyBuffer (common/src/easy_buffer.cpp), and its theorems at concrete inputs.
use lib_fantuan.Prelude.{◌≡◌, refl, true, some, [], ◌∷◌, arith}
use lib_fantuan.Common.EasyBuffer
use lib_fantuan.Common.EasyBuffer.{EasyBuffer, create}
use lib_fantuan.Common.EasyBuffer.Laws.{IsValid, contents, push-contents, pop-contents}

abbrev two_held : EasyBuffer
two_held = record { block = 7 ∷ 8 ∷ 0 ∷ 0 ∷ 0 ∷ []; tail = 2; max_size = 5; size = 2 }

two_held-IsValid : IsValid two_held
two_held-IsValid = record {
  block_size = refl;
  small = omega arith;
  tail_at = refl;
  size_in = omega arith;
}

push-contents_example :
    (b : EasyBuffer) × (EasyBuffer.push two_held (9 ∷ 10 ∷ []) ≡ some (b, true))
    × IsValid b
    × (contents b ≡ 7 ∷ 8 ∷ 9 ∷ 10 ∷ [])
    × (b.max_size ≡ 5)
push-contents_example = push-contents (9 ∷ 10 ∷ []) two_held-IsValid (omega arith)

pop-contents_example :
    (b : EasyBuffer) × (EasyBuffer.pop two_held (some (0 ∷ 0 ∷ 0 ∷ [])) 1
      ≡ some (b, 8 ∷ 0 ∷ 0 ∷ [], 1))
    × IsValid b
    × (contents b ≡ 7 ∷ [])
    × (b.max_size ≡ 5)
pop-contents_example = pop-contents (0 ∷ 0 ∷ 0 ∷ []) 1 two_held-IsValid (omega arith)
