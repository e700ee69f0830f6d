-- ===== src/Common/StringBase.antt =====
-- StringBase (common/src/string_base.h) over an Array of bytes, which is LocalString
-- (common/src/local_string.h). Text ends with the byte 0; `none` is a read past the end of the memory, or
-- an assertion that fails.
pub mod Text
mod Tests
use Prim.Native.Nat.{compare, Ordering}
use lib_fantuan.Prelude.{
  ℕ, zero, suc, ◌+◌, Bool, true, false, Option, none, some, List, [], ◌∷◌, take, ◌==◌,
  if◌then◌else◌, replicate, length,
}
use lib_fantuan.Common.Array
use lib_fantuan.Common.Array.{Array}

-- `::strlen` of the text at the start of the memory.
unfoldable pub strlen : List ℕ → Option ℕ
strlen [] = none
strlen (zero ∷ xs) = some 0
strlen (suc c ∷ xs) = elim (strlen xs) [ none ↦ none | some n ↦ some (suc n) ]

-- `assign(pData)`.
unfoldable pub assign : Array → List ℕ → Option Array
unfolding strlen
assign s data_bytes = elim (strlen data_bytes) [
  | none ↦ none
  | some n ↦ Array.assign s (take (n + 1) data_bytes)
]

-- `append(pData)`: behind the text that is there.
unfoldable pub append : Array → List ℕ → Option Array
unfolding strlen
append s data_bytes = elim (strlen data_bytes) [
  | none ↦ none
  | some n ↦ elim (strlen s.elements) [
    | none ↦ none
    | some pos ↦ Array.append s (take (n + 1) data_bytes) pos
  ]
]

-- `strcpy` of another string.
unfoldable pub strcpy : Array → Array → Option Array
unfolding strlen
strcpy s rhs = elim (strlen rhs.elements) [
  | none ↦ none
  | some n ↦ Array.copy s (take (n + 1) rhs.elements)
]

-- `clear`.
unfoldable pub clear : Array → Array
clear s = record { elements = replicate (length s.elements) 0 }

-- `strcmp`: how the result compares with 0.
unfoldable pub strcmp : List ℕ → List ℕ → Option Ordering
strcmp [] rhs = none
strcmp (x ∷ xs) [] = none
strcmp (x ∷ xs) (y ∷ ys) =
    let rest = strcmp xs ys in
    if x == y then (if x == 0 then some Ordering.eq else rest) else some (compare x y)

-- `equal`, which is `operator==`.
unfoldable pub equal : Array → List ℕ → Option Bool
unfolding strcmp
equal s rhs = elim (strcmp s.elements rhs) [
  | none ↦ none
  | some Ordering.eq ↦ some true
  | some o ↦ some false
]
