-- ===== src/Common/DyArray/ObjectTests.antt =====
-- Runs of a DyArray of objects (common/src/dy_array.h). An object is a number here.
use lib_fantuan.Prelude.{ℕ, ◌≡◌, refl, false, none, some, List, [], ◌∷◌, map, arith}
use lib_fantuan.Common.DyArray.Objects.{
  Objects, erase_object, erase_objects, end_array, push_back_objects,
}
use lib_fantuan.Common.DyArray.Lost.{erase_object-loses}
use lib_fantuan.Common.DyArray.Moved.{push_back_objects-full}

abbrev three : List ℕ
three = 1 ∷ 2 ∷ 3 ∷ []

abbrev behind_first : List ℕ
behind_first = 2 ∷ 3 ∷ []

abbrev no_objects : List ℕ
no_objects = []

abbrev objects : Objects ℕ
objects = record { slots = map some three; on_heap = false; max_size = 3; count = 3; lost = 0 }

erase_object-loses_example :
    (b : Objects ℕ) × (erase_object 0 objects ≡ some b)
    × (b.slots ≡ some 2 ∷ some 3 ∷ none ∷ [])
    × (b.count ≡ 2)
    × (b.lost ≡ 2)
erase_object-loses_example = erase_object-loses objects no_objects 1 behind_first [] refl refl

push_back_objects-full_example :
    (b : Objects ℕ) × (push_back_objects 8 0 1 4 objects ≡ some b)
    × (b.slots ≡ some 1 ∷ some 2 ∷ some 3 ∷ some 4 ∷ [])
    × (b.count ≡ 4)
    × (b.lost ≡ 3)
push_back_objects-full_example =
    push_back_objects-full 8 0 objects three 4 (omega arith) (omega arith) refl refl refl
      (omega arith)

-- A range up to the end is never destructed, and neither is what an array holds inside itself.
erase_objects-run : erase_objects 1 3 objects ≡ some (record objects { count = 1 })
unfolding erase_objects
erase_objects-run = refl

end_array-run : end_array objects ≡ some objects
unfolding end_array
end_array-run = refl
