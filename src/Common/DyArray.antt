-- ===== src/Common/DyArray.antt =====
-- DyArray (common/src/dy_array.h, with common/src/array_base.h and common/src/ds_aux.h) at a scalar
-- element type, as the server's list of commands and the strings use it. A slot of memory that no
-- store has reached is `none`.
pub mod Push
pub mod Erase
pub mod Write
pub mod Slots
pub mod Growth
pub mod Objects
pub mod Lost
pub mod Swaps
pub mod Moved
mod Tests
mod ObjectTests
use lib_fantuan.Prelude.{
  ℕ, zero, suc, ◌+◌, ◌-◌, ◌*◌, ◌/◌, ◌%◌, ◌^◌, Bool, true, false, Option, none, some, List, [], ◌∷◌,
  ◌++◌, ◌&&◌, ◌||◌, map, length, take, drop, set, get_elem?, replicate, leb, ltb, ◌==◌,
  if◌then◌else◌, memcpy,
}

-- `slots` is the memory at `m_pHead`, `on_heap` says whether `m_pDynamicElements` is set.
pub record DyArray (A : Type 0) : Type 0 where
  pub slots : List (Option A)
  pub on_heap : Bool
  pub max_size : ℕ
  pub count : ℕ

-- `object_fill_n` from slot `at` on: `n` stores.
unfoldable pub object_fill_n : {A : Type 0} → List (Option A) → ℕ → ℕ → A → List (Option A)
object_fill_n slots at zero value = slots
object_fill_n slots at (suc n) value = object_fill_n (set slots at (some value)) (at + 1) n value

-- In what follows `blank` is the element of zero bytes, which is also `T()`, and `cell` is `sizeof(T)`.
-- `object_allocate`: new memory, whose size in bytes has 64 bits.
abbrev pub object_allocate : {A : Type 0} → ℕ → ℕ → List (Option A)
object_allocate cell count = replicate (count * cell % 2 ^ 64 / cell) none

-- `DyArray()` with `N = n`.
unfoldable pub new_array : {A : Type 0} → A → ℕ → DyArray A
new_array blank n = record {
  slots = replicate n (some blank);
  on_heap = false;
  max_size = n;
  count = 0;
}

-- `DyArray(rhs)` with `N = n`.
unfoldable pub copy_of : {A : Type 0} → ℕ → A → ℕ → DyArray A → DyArray A
copy_of cell blank n rhs =
    let blanks = replicate n (some blank) in
    let room = if rhs.on_heap then object_allocate cell rhs.max_size else blanks in
    record {
      slots = take rhs.count rhs.slots ++ drop rhs.count room;
      on_heap = rhs.on_heap;
      max_size = n;
      count = 0;
    }

-- `_insert_n`.
unfoldable pub insert_n : {A : Type 0} → DyArray A → ℕ → A → DyArray A
unfolding object_fill_n
insert_n a n value = record a { slots = object_fill_n a.slots a.count n value }

-- `_grow_n`: one of the `n` new slots is stored to. Where the size in bytes wraps, the memory is shorter than
-- `m_iMaxSize`; the stores behind its end are left out.
unfoldable pub grow_n : {A : Type 0} → ℕ → DyArray A → ℕ → A → DyArray A
grow_n cell a n value = record a {
  slots =
      set (take a.max_size a.slots ++ drop a.max_size (object_allocate cell (a.max_size + n)))
        a.count (some value);
  on_heap = true;
  max_size = a.max_size + n;
}

-- `push_back(n, value)`. `m_iCount + n` has 64 bits.
unfoldable pub push_back_n : {A : Type 0} → ℕ → DyArray A → ℕ → A → DyArray A
unfolding insert_n grow_n
push_back_n cell a n value =
    let total = (a.count + n) % 2 ^ 64 in
    let extra = if ltb a.max_size total then total - a.max_size else 0 in
    let filled = if ltb a.count a.max_size then insert_n a (a.max_size - a.count) value else a in
    let grown = if extra == 0 then filled else grow_n cell filled extra value in
    record grown { count = total }

-- `push_back(value)`.
unfoldable pub push_back : {A : Type 0} → ℕ → DyArray A → A → DyArray A
unfolding push_back_n
push_back cell a value = push_back_n cell a 1 value

-- `resize`.
unfoldable pub resize : {A : Type 0} → ℕ → A → DyArray A → ℕ → DyArray A
unfolding push_back_n
resize cell blank a new_size =
    if leb new_size a.count
    then record a { count = new_size }
    else push_back_n cell a (new_size - a.count) blank

-- `erase` of the element at `at`: the later ones move down. `none`: there is no such element, and
-- the length of the move is a negative number.
unfoldable pub erase : {A : Type 0} → DyArray A → ℕ → Option (DyArray A)
erase a at =
    if ltb at a.count
    then some (record a {
      slots =
          take at a.slots
          ++ (take (a.count - at - 1) (drop (at + 1) a.slots) ++ drop (a.count - 1) a.slots);
      count = a.count - 1;
    })
    else none

-- `erase` of a range of indices.
unfoldable pub erase_range : {A : Type 0} → DyArray A → ℕ → ℕ → DyArray A
erase_range a first last = if ltb last first || ltb a.count last then a else record a {
  slots =
      take first a.slots
      ++ (take (a.count - last) (drop last a.slots) ++ drop (first + (a.count - last)) a.slots);
  count = a.count - (last - first);
}

-- `clear`.
unfoldable pub clear : {A : Type 0} → DyArray A → DyArray A
unfolding erase_range
clear a = erase_range a 0 a.count

-- `memset(m_pHead, 0, m_iMaxSize)`: `m_iMaxSize` is a number of bytes there. A slot of which some
-- bytes are cleared holds neither its old element nor the blank one.
unfoldable pub memset_head : {A : Type 0} → A → ℕ → DyArray A → DyArray A
memset_head blank cell a =
    let whole = a.max_size / cell in
    let part = if a.max_size % cell == 0 then 0 else 1 in
    record a {
      slots = replicate whole (some blank) ++ (replicate part none ++ drop (whole + part) a.slots);
    }

-- `memcpy(m_pHead + at, pData, sizeof(T) * len)`.
unfoldable pub store_all : {A : Type 0} → DyArray A → ℕ → List A → Option (DyArray A)
store_all a at items = elim (memcpy a.slots at (map some items)) [
  | none ↦ none
  | some slots ↦ some (record a { slots = slots })
]

-- `assign`.
unfoldable pub assign : {A : Type 0} → A → ℕ → DyArray A → List A → Option (DyArray A)
unfolding memset_head store_all resize
assign blank cell a items =
    let sized = if leb a.max_size (length items) then resize cell blank a (length items) else a in
    elim (store_all (memset_head blank cell sized) 0 items) [
      | none ↦ none
      | some b ↦ some (record b { count = length items })
    ]

-- `append` at slot `at`.
unfoldable pub append : {A : Type 0} → ℕ → A → DyArray A → List A → ℕ → Option (DyArray A)
unfolding store_all resize
append cell blank a items at =
    let total = length items + a.count in
    let sized = if leb a.max_size total then resize cell blank a total else a in
    elim (store_all sized at items) [
      | none ↦ none
      | some b ↦ some (record b { count = b.count + length items })
    ]

-- `copy`.
unfoldable pub copy : {A : Type 0} → ℕ → A → DyArray A → List A → Option (DyArray A)
unfolding store_all resize
copy cell blank a items =
    let sized = if leb a.max_size (length items) then resize cell blank a (length items) else a in
    elim (store_all sized 0 items) [
      | none ↦ none
      | some b ↦
          some (record b { count = if ltb (length items) b.count then b.count else length items })
    ]

-- `operator[]` within the count; outside it the assertion fails.
unfoldable pub at : {A : Type 0} → DyArray A → ℕ → Option (Option A)
at a i = if ltb i a.count then get_elem? a.slots i else none
