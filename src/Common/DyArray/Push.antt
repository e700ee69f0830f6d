-- ===== src/Common/DyArray/Push.antt =====
-- push_back of DyArray (common/src/dy_array.h): where the elements go.
use lib_fantuan.Prelude.{
  ℕ, zero, suc, ◌+◌, ◌-◌, ◌%◌, ◌^◌, ◌≤◌, ◌<◌, ◌≡◌, refl, sym, ap, ◌∙◌, false, Option, some, List,
  [], ◌∷◌, ◌++◌, append-nil, append_assoc, arith, length, take, drop, set, replicate, ◌==◌, lt→ltb,
  ltb-eq_false, length-set, length-take, take-set, drop-set, drop_all, take-append-drop,
}
use lib_fantuan.Common.DyArray.{DyArray, object_fill_n, insert_n, grow_n, push_back_n}

module _ {A : Type 0} where
  -- The capacity is that of the memory, and holds the elements.
  pub record IsValid (a : DyArray A) : Type 0 where
    pub room : length a.slots ≡ a.max_size
    pub count_in : a.count ≤ a.max_size

  -- The elements, `none` where no store has reached.
  abbrev pub contents : DyArray A → List (Option A)
  contents a = take a.count a.slots

  pub length-contents : {a : DyArray A} → IsValid a → length (contents a) ≡ a.count
  length-contents {a} v = omega (arith, length-take a.count a.slots, v.room, v.count_in)

  pub object_fill_n_lem :
      (slots : List (Option A)) (at n : ℕ) (value : A)
      → at + n ≤ length slots
      → object_fill_n slots at n value
        ≡ take at slots ++ (replicate n (some value) ++ drop (at + n) slots)
  unfolding object_fill_n
  object_fill_n_lem slots at zero value h =
      let e : at + 0 ≡ at = omega arith in rw e (sym (take-append-drop at slots))
  object_fill_n_lem slots at (suc n) value h =
      let next =
        object_fill_n_lem (set slots at (some value)) (at + 1) n value
          (omega (arith, length-set slots at (some value))) in
      let one : at + 1 ≡ suc at = omega arith in
      let end : suc at + n ≡ at + suc n = omega arith in
      next
      ∙ rw
          (
            one,
            end,
            take-set slots at (some value) (omega arith),
            drop-set slots (at + suc n) at (some value) (omega arith),
          )
          (append_assoc (take at slots) (some value ∷ [])
            (replicate n (some value) ++ drop (at + suc n) slots))

  -- `_insert_n` up to the capacity.
  pub insert_n-slots :
      (a : DyArray A) (value : A)
      → IsValid a
      → (insert_n a (a.max_size - a.count) value).slots
        ≡ contents a ++ replicate (a.max_size - a.count) (some value)
  unfolding insert_n
  insert_n-slots a value v =
      object_fill_n_lem a.slots a.count (a.max_size - a.count) value
        (omega (arith, v.room, v.count_in))
      ∙ ap (λ r. contents a ++ r)
          (ap (λ r. replicate (a.max_size - a.count) (some value) ++ r)
              (drop_all (a.count + (a.max_size - a.count)) a.slots
                (omega (arith, v.room, v.count_in)))
            ∙ append-nil _)

  -- The four ways that push_back takes.
  pub push_room :
      (cell : ℕ) (a : DyArray A) (n : ℕ) (value : A)
      → a.count + n < 2 ^ 64
      → a.count < a.max_size
      → a.count + n ≤ a.max_size
      → push_back_n cell a n value
        ≡ record (insert_n a (a.max_size - a.count) value) { count = a.count + n }
  unfolding push_back_n
  push_room cell a n value small less fits =
      let total : (a.count + n) % 2 ^ 64 ≡ a.count + n = omega arith in
      rw (total, ltb-eq_false a.max_size (a.count + n) fits, lt→ltb a.count a.max_size less) refl

  pub push_room_grow :
      (cell : ℕ) (a : DyArray A) (n : ℕ) (value : A)
      → a.count + n < 2 ^ 64
      → a.count < a.max_size
      → a.max_size < a.count + n
      → push_back_n cell a n value
        ≡ record (grow_n cell
            (insert_n a (a.max_size - a.count) value)
            (a.count + n - a.max_size)
            value) { count = a.count + n }
  unfolding push_back_n
  push_room_grow cell a n value small less over =
      let total : (a.count + n) % 2 ^ 64 ≡ a.count + n = omega arith in
      let some_extra : (a.count + n - a.max_size == 0) ≡ false = ground arith in
      rw (total, lt→ltb a.max_size (a.count + n) over, lt→ltb a.count a.max_size less)
        (rw some_extra refl)

  pub push_full_grow :
      (cell : ℕ) (a : DyArray A) (n : ℕ) (value : A)
      → a.count + n < 2 ^ 64
      → a.count ≡ a.max_size
      → a.max_size < a.count + n
      → push_back_n cell a n value
        ≡ record (grow_n cell a (a.count + n - a.max_size) value) { count = a.count + n }
  unfolding push_back_n
  push_full_grow cell a n value small full over =
      let total : (a.count + n) % 2 ^ 64 ≡ a.count + n = omega arith in
      let some_extra : (a.count + n - a.max_size == 0) ≡ false = ground arith in
      rw
        (total, lt→ltb a.max_size (a.count + n) over, ltb-eq_false a.count a.max_size (omega arith))
        (rw some_extra refl)

  pub push_none :
      (cell : ℕ) (a : DyArray A) (value : A)
      → a.count < 2 ^ 64
      → a.count ≡ a.max_size
      → push_back_n cell a 0 value ≡ a
  unfolding push_back_n
  push_none cell a value small full =
      let total : (a.count + 0) % 2 ^ 64 ≡ a.count = omega arith in
      rw
        (
          total,
          ltb-eq_false a.max_size a.count (omega arith),
          ltb-eq_false a.count a.max_size (omega arith),
        )
        refl

  pub insert_n_keeps :
      (a : DyArray A) (n : ℕ) (value : A)
      → ((insert_n a n value).max_size ≡ a.max_size) × ((insert_n a n value).count ≡ a.count)
  unfolding insert_n
  insert_n_keeps a n value = (refl, refl)
