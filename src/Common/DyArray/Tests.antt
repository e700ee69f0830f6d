-- ===== src/Common/DyArray/Tests.antt =====
-- Runs of DyArray (common/src/dy_array.h), and its theorems at concrete inputs.
use lib_fantuan.Prelude.{
  ℕ, ◌-◌, ◌≡◌, refl, false, none, some, [], ◌∷◌, ◌++◌, arith, replicate, take,
}
use lib_fantuan.Common.DyArray.{DyArray, push_back_n, erase, erase_range, at}
use lib_fantuan.Common.DyArray.Push.{IsValid, contents}
use lib_fantuan.Common.DyArray.Growth.{stored, push_back_n-contents}
use lib_fantuan.Common.DyArray.Erase.{erase-contents}

-- An array of capacity 4 that holds 5, 6 and 7.
abbrev three : DyArray ℕ
three = record {
  slots = some 5 ∷ some 6 ∷ some 7 ∷ some 0 ∷ [];
  on_heap = false;
  max_size = 4;
  count = 3;
}

three-IsValid : IsValid three
three-IsValid = record { room = refl; count_in = omega arith }

push_back_n-contents_example :
    IsValid (push_back_n 4 three 3 9)
    × (contents (push_back_n 4 three 3 9)
        ≡ contents three
          ++ (replicate (stored three 3) (some 9) ++ replicate (3 - stored three 3) none))
push_back_n-contents_example =
    push_back_n-contents 4 three 3 9 (omega arith) (omega arith) three-IsValid (omega arith)

push_back_run :
    contents (push_back_n 4 three 3 9) ≡ some 5 ∷ some 6 ∷ some 7 ∷ some 9 ∷ none ∷ none ∷ []
unfolding push_back_n
push_back_run = refl

erase-contents_example :
    (b : DyArray ℕ) × (erase three 1 ≡ some b)
    × IsValid b
    × (contents b ≡ take 1 (contents three) ++ some 7 ∷ [])
erase-contents_example = erase-contents three 1 three-IsValid (omega arith)

erase_range_run : contents (erase_range three 0 2) ≡ some 7 ∷ []
unfolding erase_range
erase_range_run = refl

at_run : at three 1 ≡ some (some 6)
unfolding at
at_run = refl
