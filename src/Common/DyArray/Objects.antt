-- ===== src/Common/DyArray/Objects.antt =====
-- DyArray (common/src/dy_array.h, with common/src/ds_aux.h) at a class type: the branches that construct and
-- destruct elements. A slot is `none` where no object lives. An object that another is constructed over is never
-- destructed: `lost` counts those. A destructor for a slot without an object is a
-- fault; an object that is made behind the end of the memory is left out.
use lib_fantuan.Prelude.{
  ℕ, zero, suc, ◌+◌, ◌-◌, ◌%◌, ◌^◌, Bool, true, Option, none, some, List, [], ◌∷◌, set, get_elem?,
  ltb, ◌==◌, ◌||◌, if◌then◌else◌,
}
use lib_fantuan.Common.DyArray.{object_allocate}

pub record Objects (A : Type 0) : Type 0 where
  pub slots : List (Option A)
  pub on_heap : Bool
  pub max_size : ℕ
  pub count : ℕ
  pub lost : ℕ

abbrev pub lives : {A : Type 0} → Option (Option A) → ℕ
lives none = 0
lives (some none) = 0
lives (some (some v)) = 1

-- object_construct(ptr, val) at slot `i`.
unfoldable pub object_construct : {A : Type 0} → ℕ → A → Objects A → Objects A
object_construct i v a = record a {
  slots = set a.slots i (some v);
  lost = a.lost + lives (get_elem? a.slots i);
}

-- By what the slot holds.
unfoldable pub destruct_slot : {A : Type 0} → ℕ → Objects A → Option (Option A) → Option (Objects A)
destruct_slot i a none = none
destruct_slot i a (some none) = none
destruct_slot i a (some (some v)) = some (record a { slots = set a.slots i none })

-- object_destruct(ptr) at slot `i`.
unfoldable pub object_destruct : {A : Type 0} → ℕ → Objects A → Option (Objects A)
unfolding destruct_slot
object_destruct i a = destruct_slot i a (get_elem? a.slots i)

-- By what the slot holds.
unfoldable pub copy_slot : {A : Type 0} → ℕ → Objects A → Option (Option A) → Option (Objects A)
copy_slot to a none = none
copy_slot to a (some none) = none
copy_slot to a (some (some v)) = some (object_construct to v a)

-- A copy of the object at slot `from`, constructed at slot `to`.
unfoldable pub object_copy : {A : Type 0} → ℕ → ℕ → Objects A → Option (Objects A)
unfolding copy_slot object_construct
object_copy from to a = copy_slot to a (get_elem? a.slots from)

-- The loop of erase(iterator) for the `n` objects behind `at`.
unfoldable pub shift_down : {A : Type 0} → ℕ → ℕ → Objects A → Option (Objects A)
unfolding object_copy
shift_down zero at a = some a
shift_down (suc n) at a = elim (object_copy (at + 1) at a) [
  | none ↦ none
  | some b ↦ shift_down n (at + 1) b
]

-- erase(iterator) of the element at `at`.
unfoldable pub erase_object : {A : Type 0} → ℕ → Objects A → Option (Objects A)
unfolding shift_down object_destruct
erase_object at a = elim (shift_down (a.count - at - 1) at a) [
  | none ↦ none
  | some b ↦ elim (object_destruct (a.count - 1) b) [
    | none ↦ none
    | some c ↦ some (record c { count = a.count - 1 })
  ]
]

-- The loop of erase(first, last): `n` objects from `last` on are copied to `first`, and destructed where they were.
unfoldable pub move_down : {A : Type 0} → ℕ → ℕ → ℕ → Objects A → Option (Objects A)
unfolding object_copy object_destruct
move_down zero first last a = some a
move_down (suc n) first last a = elim (object_copy last first a) [
  | none ↦ none
  | some b ↦ elim (object_destruct last b) [
    | none ↦ none
    | some c ↦ move_down n (first + 1) (last + 1) c
  ]
]

-- erase(first, last)
unfoldable pub erase_objects : {A : Type 0} → ℕ → ℕ → Objects A → Option (Objects A)
unfolding move_down
erase_objects first last a =
    if ltb last first || ltb a.count last
    then some a
    else elim (move_down (a.count - last) first last a) [
      | none ↦ none
      | some b ↦ some (record b { count = a.count - (last - first) })
    ]

-- destroy(first, last) from `first` on, for `n` objects.
unfoldable pub destroy_objects : {A : Type 0} → ℕ → ℕ → Objects A → Option (Objects A)
unfolding object_destruct
destroy_objects zero first a = some a
destroy_objects (suc n) first a = elim (object_destruct first a) [
  | none ↦ none
  | some b ↦ destroy_objects n (first + 1) b
]

-- The destructor: the objects of an array whose elements are inside it are not destructed.
unfoldable pub end_array : {A : Type 0} → Objects A → Option (Objects A)
unfolding destroy_objects
end_array a = if a.on_heap then destroy_objects a.count 0 a else some a

-- The loop of _grow_n where the elements are inside the array: `n` objects of `old` are copied to the new memory,
-- from slot `i` on.
unfoldable pub copy_old : {A : Type 0} → ℕ → ℕ → Objects A → List (Option A) → Option (Objects A)
unfolding object_construct
copy_old zero i b old = some b
copy_old (suc n) i b old = elim (get_elem? old i) [
  | none ↦ none
  | some slot ↦ elim slot [ none ↦ none | some v ↦ copy_old n (i + 1) (object_construct i v b) old ]
]

-- object_swap of the objects at slot `i` of two memories, by what the slots hold, and the destructor of the second.
unfoldable pub swap_slots :
    {A : Type 0}
    → ℕ
    → Objects A
    → Objects A
    → Option (Option A)
    → Option (Option A)
    → Option (Objects A × Objects A)
unfolding object_destruct
swap_slots i b old (some (some v)) (some (some w)) =
    elim (object_destruct i (record old { slots = set old.slots i (some v) })) [
      | none ↦ none
      | some ended ↦ some (record b { slots = set b.slots i (some w) }, ended)
    ]
swap_slots i b old (some (some v)) (some none) = none
swap_slots i b old (some (some v)) none = none
swap_slots i b old (some none) w = none
swap_slots i b old none w = none

-- A round of the loop of _grow_n where the elements are on the heap. `blank` is T().
unfoldable pub swap_one :
    {A : Type 0} → A → ℕ → Objects A → Objects A → Option (Objects A × Objects A)
unfolding object_construct swap_slots
swap_one blank i b old =
    let made = object_construct i blank b in
    swap_slots i made old (get_elem? made.slots i) (get_elem? old.slots i)

-- That loop, for `n` objects from slot `i` on.
unfoldable pub swap_old :
    {A : Type 0} → A → ℕ → ℕ → Objects A → Objects A → Option (Objects A × Objects A)
unfolding swap_one
swap_old blank zero i b old = some (b, old)
swap_old blank (suc n) i b old = elim (swap_one blank i b old) [
  | none ↦ none
  | some (c, rest) ↦ swap_old blank n (i + 1) c rest
]

-- The objects that live in a memory.
unfoldable pub living : {A : Type 0} → List (Option A) → ℕ
living [] = 0
living (x ∷ xs) = lives (some x) + living xs

-- The new memory of _grow_n, with the new object. `cell` is sizeof(T).
abbrev pub new_memory : {A : Type 0} → ℕ → ℕ → A → Objects A → Objects A
new_memory cell n value a = object_construct a.count value (record a {
  slots = object_allocate cell (a.max_size + n);
  on_heap = true;
  max_size = a.max_size + n;
})

-- The old memory is freed, or is never looked at again: the objects that live in it are lost.
abbrev pub leave : {A : Type 0} → Objects A → List (Option A) → Objects A
leave b old = record b { lost = b.lost + living old }

abbrev pub leave_swapped : {A : Type 0} → Option (Objects A × Objects A) → Option (Objects A)
leave_swapped none = none
leave_swapped (some (b, old)) = some (leave b old.slots)

abbrev pub leave_copied : {A : Type 0} → List (Option A) → Option (Objects A) → Option (Objects A)
leave_copied old none = none
leave_copied old (some b) = some (leave b old)

-- _grow_n
unfoldable pub grow_objects : {A : Type 0} → ℕ → A → ℕ → A → Objects A → Option (Objects A)
unfolding copy_old swap_old object_construct living
grow_objects cell blank n value a =
    if a.on_heap
    then leave_swapped (swap_old blank a.max_size 0 (new_memory cell n value a) a)
    else leave_copied a.slots (copy_old a.max_size 0 (new_memory cell n value a) a.slots)

-- object_fill_n from slot `i` on
unfoldable pub fill_objects : {A : Type 0} → ℕ → ℕ → A → Objects A → Objects A
unfolding object_construct
fill_objects zero i value a = a
fill_objects (suc n) i value a = fill_objects n (i + 1) value (object_construct i value a)

-- The end of push_back.
abbrev pub with_count : {A : Type 0} → ℕ → Option (Objects A) → Option (Objects A)
with_count total none = none
with_count total (some b) = some (record b { count = total })

-- push_back(n, value)
unfoldable pub push_back_objects : {A : Type 0} → ℕ → A → ℕ → A → Objects A → Option (Objects A)
push_back_objects cell blank n value a =
    let total = (a.count + n) % 2 ^ 64 in
    let extra = if ltb a.max_size total then total - a.max_size else 0 in
    let filled =
      if ltb a.count a.max_size then fill_objects (a.max_size - a.count) a.count value a else a in
    if extra == 0
    then some (record filled { count = total })
    else with_count total (grow_objects cell blank extra value filled)
