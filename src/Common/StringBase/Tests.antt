-- ===== src/Common/StringBase/Tests.antt =====
-- Runs of the strings of common/src/string_base.h, and their theorems at concrete inputs.
use Prim.Native.Nat.{Ordering}
use lib_fantuan.Prelude.{ℕ, ◌≡◌, ◌↔◌, refl, true, some, List, [], ◌∷◌, arith, length}
use lib_fantuan.Common.Array.{Array}
use lib_fantuan.Common.StringBase.{append, strcmp, equal}
use lib_fantuan.Common.StringBase.Text.{Holds, append-Holds, strcmp_iff}

-- A string of eight bytes that holds the text 104 105.
abbrev hi : Array
hi = record { elements = 104 ∷ 105 ∷ 0 ∷ 9 ∷ 9 ∷ 9 ∷ 9 ∷ 9 ∷ [] }

append-Holds_example :
    (s : Array) × (append hi (33 ∷ 0 ∷ []) ≡ some s)
    × Holds s (104 ∷ 105 ∷ 33 ∷ [])
    × (length s.elements ≡ 8)
append-Holds_example =
    append-Holds hi (104 ∷ 105 ∷ []) (33 ∷ []) [] (omega arith, (omega arith, tt)) (omega arith, tt)
      (record { behind = 9 ∷ 9 ∷ 9 ∷ 9 ∷ 9 ∷ []; starts = refl }) (omega arith)

abbrev text_hi : List ℕ
text_hi = 104 ∷ 105 ∷ []

abbrev text_hj : List ℕ
text_hj = 104 ∷ 106 ∷ []

strcmp_iff_example :
    (strcmp (104 ∷ 105 ∷ 0 ∷ 9 ∷ []) (104 ∷ 106 ∷ 0 ∷ []) ≡ some Ordering.eq) ↔ (text_hi ≡ text_hj)
strcmp_iff_example =
    strcmp_iff text_hi text_hj (9 ∷ []) [] (omega arith, (omega arith, tt))
      (omega arith, (omega arith, tt))

equal_run : equal hi (104 ∷ 105 ∷ 0 ∷ 1 ∷ []) ≡ some true
unfolding equal
equal_run = refl
