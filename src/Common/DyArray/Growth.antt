-- ===== src/Common/DyArray/Growth.antt =====
-- What push_back and resize of DyArray (common/src/dy_array.h) leave in the array.
use lib_fantuan.Prelude.{
  ℕ, suc, ◌+◌, ◌-◌, ◌*◌, ◌^◌, subst, ◌≤◌, ◌<◌, max, min, ◌≡◌, refl, sym, ap, ap₂, ◌∙◌, Option, none,
  some, List, [], ◌∷◌, ◌++◌, append-nil, arith, length, take, replicate, le→leb, lt→leb_false,
  length-append, take_all, take-take, dec_lt,
}
use lib_fantuan.Common.DyArray.{DyArray, push_back_n, push_back, resize}
use lib_fantuan.Common.DyArray.Push.{
  IsValid, contents, length-contents, push_room, push_room_grow, push_full_grow, push_none,
}
use lib_fantuan.Common.DyArray.Slots.{Holds-contents, room_Holds, grow_Holds, full_Holds}

module _ {A : Type 0} where
  -- How many of `n` pushed elements are stored: the first ones, up to the old capacity, and one at
  -- least.
  abbrev pub stored : DyArray A → ℕ → ℕ
  stored a n = min n (max (a.max_size - a.count) 1)

  abbrev pub pushed : ℕ → ℕ → A → List (Option A)
  pushed k n value = replicate k (some value) ++ replicate (n - k) none

  -- The slots of `n` pushed elements, by how much room there is.
  stored_room :
      (a : DyArray A) (n : ℕ) (value : A)
      → a.count + n ≤ a.max_size
      → pushed (stored a n) n value ≡ replicate n (some value)
  stored_room a n value h =
      let all : stored a n ≡ n = omega arith in
      let rest : n - stored a n ≡ 0 = omega arith in
      ap₂ (λ k m. replicate k (some value) ++ replicate m none) all rest
      ∙ append-nil (replicate n (some value))

  stored_grow :
      (a : DyArray A) (n k : ℕ) (value : A)
      → stored a n ≡ k
      → pushed (stored a n) n value ≡ replicate k (some value) ++ replicate (n - k) none
  stored_grow a n k value h = ap (λ m. replicate m (some value) ++ replicate (n - m) none) h

  -- push_back of `n` elements keeps the array valid and puts `n` slots behind the old elements.
  -- Only the first ones are stored to: as many as the old capacity has room for, and one at least;
  -- the others are left as they were allocated. Conditions: a valid array, elements of one byte at least,
  -- and a count and a size in bytes below 2 ^ 64.
  pub push_back_n-contents :
      (cell : ℕ) (a : DyArray A) (n : ℕ) (value : A)
      → 0 < cell
      → (a.count + n) * cell < 2 ^ 64
      → IsValid a
      → a.count + n < 2 ^ 64
      → IsValid (push_back_n cell a n value)
        × (contents (push_back_n cell a n value)
            ≡ contents a
              ++ (replicate (stored a n) (some value) ++ replicate (n - stored a n) none))
  push_back_n-contents cell a n value wide fits v small = elim (dec_lt a.max_size (a.count + n)) [
    | yes over ↦ elim (dec_lt a.count a.max_size) [
      | yes less ↦
          let k = a.max_size - a.count - 1 in
          let width : stored a n ≡ suc k = omega arith in
          rw (push_room_grow cell a n value small less over, stored_grow a n (suc k) value width)
            (Holds-contents v (grow_Holds cell a n k value wide fits v (omega arith) over))
      | no full ↦
          let m = n - 1 in
          let n_pos : n ≡ suc m = omega arith in
          let width : stored a n ≡ 1 = omega arith in
          let h = full_Holds cell a m value wide (rw n_pos at fits) v (omega arith) in
          rw (push_full_grow cell a n value small (omega arith) over, stored_grow a n 1 value width)
            (Holds-contents v (rw (← n_pos) at h))
    ]
    | no fits ↦ rw (stored_room a n value (omega arith)) (elim (dec_lt a.count a.max_size) [
      | yes less ↦
          rw (push_room cell a n value small less (omega arith))
            (Holds-contents v (room_Holds a n value v less (omega arith)))
      | no full ↦
          let nothing : n ≡ 0 = omega arith in
          rw (nothing, push_none cell a value (omega arith) (omega arith))
            (v, sym (append-nil (contents a)))
    ])
  ]

  -- push_back of one element appends it, whether the array grows or not, and keeps the array valid.
  -- Conditions: a valid array, elements of one byte at least, and a count and a size in bytes below 2 ^ 64.
  pub push_back-contents :
      (cell : ℕ) (a : DyArray A) (value : A)
      → 0 < cell
      → (a.count + 1) * cell < 2 ^ 64
      → IsValid a
      → a.count + 1 < 2 ^ 64
      → IsValid (push_back cell a value)
        × (contents (push_back cell a value) ≡ contents a ++ some value ∷ [])
        × ((push_back cell a value).count ≡ a.count + 1)
  unfolding push_back
  push_back-contents cell a value wide fits v small =
      let p = push_back_n-contents cell a 1 value wide fits v small in
      let one : stored a 1 ≡ 1 = omega arith in
      let holds = p.1 ∙ ap (◌++◌ (contents a)) (stored_grow a 1 1 value one) in
      (
        p.0,
        holds,
        omega (
          arith,
          length-contents p.0,
          length-contents v,
          ap length holds,
          length-append (contents a) (some value ∷ []),
        ),
      )

  -- resize to fewer elements keeps the first ones; to more it keeps all, and of the new ones it
  -- stores to the first, up to the old capacity and one at least. The array stays valid, and has
  -- the new size. Conditions: a valid array, elements of one byte at least, and counts and a size in bytes below 2 ^ 64.
  pub resize-contents :
      (cell : ℕ) (blank : A) (a : DyArray A) (n : ℕ)
      → 0 < cell
      → n * cell < 2 ^ 64
      → IsValid a
      → a.count < 2 ^ 64
      → n < 2 ^ 64
      → IsValid (resize cell blank a n)
        × ((resize cell blank a n).count ≡ n)
        × (contents (resize cell blank a n)
            ≡ take n (contents a)
              ++ (replicate (stored a (n - a.count)) (some blank)
                  ++ replicate (n - a.count - stored a (n - a.count)) none))
  unfolding resize
  resize-contents cell blank a n wide fits v small small' =
      let sized : a.count < n → (a.count + (n - a.count)) * cell < 2 ^ 64 = λ more.
        let e : a.count + (n - a.count) ≡ n = omega arith in
        subst (λ k. k * cell < 2 ^ 64) (sym e) fits in
      elim (dec_lt a.count n) [
        | yes more ↦
            let p =
              push_back_n-contents cell a (n - a.count) blank wide (sized more) v (omega arith) in
            rw
              (
                lt→leb_false n a.count more,
                take_all n (contents a) (omega (arith, length-contents v)),
              )
              (p.0, omega arith, p.1)
        | no fewer ↦
            let nothing : n - a.count ≡ 0 = omega arith in
            let none_stored : stored a 0 ≡ 0 = omega arith in
            rw (le→leb n a.count (omega arith), nothing, none_stored)
              (
                record { room = v.room; count_in = omega arith },
                refl,
                sym (append-nil (take n (contents a)) ∙ take-take n a.count a.slots (omega arith)),
              )
      ]

  -- The capacity grows to the size that is asked for, and no further.
  pub max_size-push_back_n :
      (cell : ℕ) (a : DyArray A) (n : ℕ) (value : A)
      → a.count + n < 2 ^ 64
      → (push_back_n cell a n value).max_size ≡ max a.max_size (a.count + n)
  unfolding push_back_n
  max_size-push_back_n cell a n value small = ground arith

  pub max_size-resize :
      (cell : ℕ) (blank : A) (a : DyArray A) (n : ℕ)
      → n < 2 ^ 64
      → a.count ≤ a.max_size
      → (resize cell blank a n).max_size ≡ max a.max_size n
  unfolding resize
  max_size-resize cell blank a n small h = elim (dec_lt a.count n) [
    | yes more ↦
        rw (lt→leb_false n a.count more)
          (omega (arith, max_size-push_back_n cell a (n - a.count) blank (omega arith)))
    | no fewer ↦ rw (le→leb n a.count (omega arith)) (omega arith)
  ]
