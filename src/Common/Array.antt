-- ===== src/Common/Array.antt =====
-- Array (common/src/array.h, with common/src/array_base.h) of bytes, as LocalString uses it. An assertion
-- that fails is `none`.
use lib_fantuan.Prelude.{
  ℕ, ◌+◌, Option, none, some, List, get_elem?, length, replicate, leb, ltb, if◌then◌else◌, memcpy,
}

-- `N` is the length of `elements`.
pub record Array : Type 0 where
  pub elements : List ℕ

-- `Array()` with `N = n`.
unfoldable pub new_array : ℕ → Array
new_array n = record { elements = replicate n 0 }

unfoldable pub stored : Option (List ℕ) → Option Array
stored none = none
stored (some elements) = some (record { elements = elements })

-- `assign`.
unfoldable pub assign : Array → List ℕ → Option Array
unfolding stored
assign a items =
    if leb (length items) (length a.elements)
    then stored (memcpy (replicate (length a.elements) 0) 0 items)
    else none

-- `append` at `pos`.
unfoldable pub append : Array → List ℕ → ℕ → Option Array
unfolding stored
append a items pos =
    if leb (length items + pos) (length a.elements)
    then stored (memcpy a.elements pos items)
    else none

-- `copy`.
unfoldable pub copy : Array → List ℕ → Option Array
unfolding stored
copy a items =
    if leb (length items) (length a.elements) then stored (memcpy a.elements 0 items) else none

-- `resize` checks the size and changes nothing.
unfoldable pub resize : Array → ℕ → Option Array
resize a new_size = if leb new_size (length a.elements) then some a else none

-- `operator[]`.
unfoldable pub at : Array → ℕ → Option ℕ
at a i = if ltb i (length a.elements) then get_elem? a.elements i else none
