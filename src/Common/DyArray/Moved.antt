-- ===== src/Common/DyArray/Moved.antt =====
-- What push_back does to the objects of a full DyArray at a class type (common/src/dy_array.h).
use lib_fantuan.Prelude.{
  ℕ, ◌*◌, ◌+◌, ◌-◌, ◌%◌, ◌^◌, ◌<◌, ◌≡◌, refl, sym, ap, ap₂, ◌∙◌, true, false, Option, none, some,
  List, [], ◌∷◌, ◌++◌, zero, suc, subst, Bool, Bool-cases, inl, inr, map, length, replicate,
  length-replicate, replicate-append, arith, ltb, if◌then◌else◌,
}
use lib_fantuan.Common.DyArray.Objects.{
  Objects, object_construct, copy_old, swap_old, living, new_memory, leave, leave_swapped,
  leave_copied, grow_objects, with_count, push_back_objects,
}
use lib_fantuan.Common.DyArray.{object_allocate}
use lib_fantuan.Common.DyArray.Slots.{allocate-count}
use lib_fantuan.Common.DyArray.Swaps.{construct-free, copy-Filled, swap-Swapped}

living-replicate : (A : Type 0) (n : ℕ) → living (replicate {A = Option A} n none) ≡ 0
unfolding living
living-replicate A zero = refl
living-replicate A (suc n) = omega (arith, living-replicate A n)

living-map : {A : Type 0} (xs : List A) → living (map some xs) ≡ length xs
unfolding living
living-map [] = refl
living-map (x ∷ xs) = omega (arith, living-map xs)

-- The new memory of a full array: free slots, and the new object at the end.
new_memory-full :
    {A : Type 0} (cell : ℕ) (a : Objects A) (xs : List A) (v : A)
    → 0 < cell
    → (length xs + 1) * cell < 2 ^ 64
    → a.count ≡ length xs
    → a.max_size ≡ length xs
    → ((new_memory cell 1 v a).slots ≡ replicate (length xs) none ++ (some v ∷ []))
      × ((new_memory cell 1 v a).lost ≡ a.lost)
new_memory-full {A} cell a xs v wide fits count full =
    let nones : List (Option A) = replicate (length xs) none in
    let memory : Objects A = record a {
      slots = object_allocate cell (a.max_size + 1);
      on_heap = true;
      max_size = a.max_size + 1;
    } in
    let blank : memory.slots ≡ nones ++ (none ∷ []) =
      ap (λ k. object_allocate cell (k + 1)) full
      ∙ (ap (λ k. replicate k none) (allocate-count cell (length xs + 1) wide fits)
          ∙ replicate-append (length xs) 1 none) in
    let at_end : length nones ≡ a.count = length-replicate (length xs) none ∙ sym count in
    subst
      (λ k.
        let c = object_construct k v memory in
        (c.slots ≡ nones ++ (some v ∷ [])) × (c.lost ≡ a.lost))
      at_end (construct-free nones [] v memory blank)

-- A full array after _grow_n for one more object.
record Grown {A : Type 0} (cell : ℕ) (blank v : A) (a : Objects A) (xs : List A) : Type 0 where
  after : Objects A
  result : grow_objects cell blank 1 v a ≡ some after
  slots_then : after.slots ≡ map some xs ++ (some v ∷ [])
  lost_then : after.lost ≡ (if a.on_heap then a.lost else a.lost + length xs)

grow-Grown :
    {A : Type 0} (cell : ℕ) (a : Objects A) (xs : List A) (blank v : A)
    → 0 < cell
    → (length xs + 1) * cell < 2 ^ 64
    → a.slots ≡ map some xs
    → a.count ≡ length xs
    → a.max_size ≡ length xs
    → Grown cell blank v a xs
unfolding grow_objects
grow-Grown {A} cell a xs blank v wide fits e count full =
    let first = new_memory cell 1 v a in
    let (stored, none_lost) = new_memory-full cell a xs v wide fits count full in
    let choice : Bool → Option (Objects A) = λ k.
      if k
      then leave_swapped (swap_old blank a.max_size 0 first a)
      else leave_copied a.slots (copy_old a.max_size 0 first a.slots) in
    let count_lost : Bool → ℕ = λ k. if k then a.lost else a.lost + length xs in
    elim (Bool-cases a.on_heap) [
      | inl heap ↦
          let s = swap-Swapped blank xs [] (some v ∷ []) [] first a stored e refl in
          let goes : swap_old blank a.max_size 0 first a ≡ some (s.after, s.rest) =
            ap (λ k. swap_old blank k 0 first a) full ∙ s.result in
          let all_ended : living s.rest.slots ≡ 0 =
            ap living s.old_then ∙ living-replicate A (length xs) in
          let now : (leave s.after s.rest.slots).lost ≡ a.lost =
            omega (arith, s.lost_then, none_lost, all_ended) in
          record {
            after = leave s.after s.rest.slots;
            result = ap choice heap ∙ ap leave_swapped goes;
            slots_then = s.slots_then;
            lost_then = now ∙ ap count_lost (sym heap);
          }
      | inr inside ↦
          let s = copy-Filled xs [] (some v ∷ []) [] first stored refl in
          let goes : copy_old a.max_size 0 first a.slots ≡ some s.after =
            ap₂ (λ k m. copy_old k 0 first m) full e ∙ s.result in
          let all_stay : living a.slots ≡ length xs = ap living e ∙ living-map xs in
          let now : (leave s.after a.slots).lost ≡ a.lost + length xs =
            omega (arith, s.lost_then, none_lost, all_stay) in
          record {
            after = leave s.after a.slots;
            result = ap choice inside ∙ ap (leave_copied a.slots) goes;
            slots_then = s.slots_then;
            lost_then = now ∙ ap count_lost (sym inside);
          }
    ]

-- push_back of an object to a full array leaves the objects that were there, in order, and the new one behind them; on
-- the heap none of the old objects is lost, and where the array was inside its own memory all of
-- them are, as only copies of them go on.
-- Conditions: the array is full of the objects `xs`, fewer than 2 ^ 64 - 1, of one byte at least, and the new memory
-- has fewer than 2 ^ 64 bytes.
pub push_back_objects-full :
    {A : Type 0} (cell : ℕ) (blank : A) (a : Objects A) (xs : List A) (v : A)
    → 0 < cell
    → (length xs + 1) * cell < 2 ^ 64
    → a.slots ≡ map some xs
    → a.count ≡ length xs
    → a.max_size ≡ length xs
    → length xs + 1 < 2 ^ 64
    → (b : Objects A) × (push_back_objects cell blank 1 v a ≡ some b)
      × (b.slots ≡ map some xs ++ (some v ∷ []))
      × (b.count ≡ length xs + 1)
      × (b.lost ≡ (if a.on_heap then a.lost else a.lost + length xs))
unfolding push_back_objects
push_back_objects-full {A} cell blank a xs v wide fits e count full small =
    let total : (a.count + 1) % 2 ^ 64 ≡ length xs + 1 = omega (arith, count) in
    let not_below : ltb a.count a.max_size ≡ false = ground (arith, count, full) in
    let over : ltb a.max_size (length xs + 1) ≡ true = ground (arith, full) in
    let one : length xs + 1 - a.max_size ≡ 1 = omega (arith, full) in
    let g = grow-Grown cell a xs blank v wide fits e count full in
    (
      record g.after { count = length xs + 1 },
      rw (total, not_below, over, one) (ap (with_count (length xs + 1)) g.result),
      g.slots_then,
      refl,
      g.lost_then,
    )
