-- ===== src/Common/DyArray/Erase.antt =====
-- erase and clear of DyArray (common/src/dy_array.h).
use lib_fantuan.Prelude.{
  ℕ, ◌+◌, ◌-◌, ◌≤◌, ◌<◌, ◌≡◌, refl, sym, ap, ap₂, ◌∙◌, inl, inr, false, some, List, [], ◌++◌, arith,
  length, take, drop, ◌||◌, ltb, if◌then◌else◌, lt→ltb, length-append, length-take, length-drop,
  drop_all, take-take, drop-take, take_two, Bool-cases,
}
use lib_fantuan.Common.DyArray.{DyArray, erase, erase_range, clear}
use lib_fantuan.Common.DyArray.Push.{IsValid, contents, length-contents}

-- The slots from `last` to `count` moved down to `first`.
module _ {ℓ} {B : Type ℓ} (slots : List B) (first last count : ℕ) (ordered : first ≤ last)
    (inside : last ≤ count) (room : count ≤ length slots) where
  moved : List B
  moved =
      take first slots
      ++ (take (count - last) (drop last slots) ++ drop (first + (count - last)) slots)

  length-moved : length moved ≡ length slots
  unfolding moved
  length-moved = omega (
    arith,
    length-append (take first slots)
        (take (count - last) (drop last slots) ++ drop (first + (count - last)) slots),
    length-append (take (count - last) (drop last slots)) (drop (first + (count - last)) slots),
    length-take first slots,
    length-take (count - last) (drop last slots),
    length-drop last slots,
    length-drop (first + (count - last)) slots,
  )

  take-moved :
      take (first + (count - last)) moved
      ≡ take first (take count slots) ++ drop last (take count slots)
  unfolding moved
  take-moved =
      take_two (first + (count - last)) (take first slots) (take (count - last) (drop last slots))
        (drop (first + (count - last)) slots)
        (omega (
          arith,
          length-take first slots,
          length-take (count - last) (drop last slots),
          length-drop last slots,
        ))
      ∙ ap₂ ◌++◌ (sym (take-take first count slots (omega arith)))
          (sym (drop-take last count slots))

module _ {A : Type 0} where
  -- Erasing the element at an index below the count moves the later ones down by one, and
  -- keeps the array valid. Condition: a valid array.
  pub erase-contents :
      (a : DyArray A) (i : ℕ)
      → IsValid a
      → i < a.count
      → (b : DyArray A) × (erase a i ≡ some b)
        × IsValid b
        × (contents b ≡ take i (contents a) ++ drop (i + 1) (contents a))
  unfolding erase moved
  erase-contents a i v h =
      let rest : a.count - i - 1 ≡ a.count - (i + 1) = omega arith in
      let size : a.count - 1 ≡ i + (a.count - (i + 1)) = omega arith in
      let slots =
        moved a.slots i (i + 1) a.count (omega arith) (omega arith)
          (omega (arith, v.room, v.count_in)) in
      (
        record a { slots = slots; count = i + (a.count - (i + 1)) },
        rw (lt→ltb i a.count h, rest, size) refl,
        record {
          room =
              length-moved a.slots i (i + 1) a.count (omega arith) (omega arith)
                (omega (arith, v.room, v.count_in))
              ∙ v.room;
          count_in = omega (arith, v.count_in);
        },
        take-moved a.slots i (i + 1) a.count (omega arith) (omega arith)
            (omega (arith, v.room, v.count_in)),
      )

  -- Erasing a range of indices keeps the elements before and behind it; a range that is empty the
  -- wrong way round, or ends behind the count, leaves the array as it was. Condition: a valid array.
  pub erase_range-contents :
      (a : DyArray A) (first last : ℕ)
      → IsValid a
      → IsValid (erase_range a first last)
        × (contents (erase_range a first last) ≡ (
            if ltb last first || ltb a.count last
            then contents a
            else take first (contents a) ++ drop last (contents a)))
  unfolding erase_range moved
  erase_range-contents a first last v = elim (Bool-cases (ltb last first || ltb a.count last)) [
    | inl wrong ↦ rw wrong (v, refl)
    | inr good ↦
        let ordered : first ≤ last = ground arith in
        let inside : last ≤ a.count = ground arith in
        let room : a.count ≤ length a.slots = omega (arith, v.room, v.count_in) in
        let size : a.count - (last - first) ≡ first + (a.count - last) = omega arith in
        rw good (
          record {
            room = length-moved a.slots first last a.count ordered inside room ∙ v.room;
            count_in = omega (arith, v.count_in);
          },
          ap (λ n. take n (moved a.slots first last a.count ordered inside room)) size
              ∙ take-moved a.slots first last a.count ordered inside room,
        )
  ]

  -- clear leaves no element, and keeps the array valid. Condition: a valid array.
  pub clear-contents : (a : DyArray A) → IsValid a → IsValid (clear a) × (contents (clear a) ≡ [])
  unfolding clear
  clear-contents a v =
      let e = erase_range-contents a 0 a.count v in
      let inside : (ltb a.count 0 || ltb a.count a.count) ≡ false = ground arith in
      (e.0, e.1 ∙ rw inside (drop_all a.count (contents a) (omega (arith, length-contents v))))
