-- ===== src/Common/DyArray/Write.antt =====
-- assign, append and copy of DyArray (common/src/dy_array.h).
use lib_fantuan.Prelude.{
  ℕ, zero, suc, ◌+◌, ◌*◌, ◌/◌, ◌%◌, ◌^◌, ◌≤◌, ◌<◌, max, ◌≡◌, refl, sym, ap, ◌∙◌, Option, none, some,
  List, [], ◌∷◌, ◌++◌, map, arith, length, take, drop, replicate, leb, ltb, ◌==◌, if◌then◌else◌,
  le→leb, lt→leb_false, length-append, length-drop, length-replicate, take-take, take-memcpy,
  length-memcpy, memcpy_lem, dec_lt,
}
use native.Mathlib.Nat.{div-add-mod}
use lib_fantuan.Common.DyArray.{
  DyArray, copy_of, resize, memset_head, store_all, assign, append, copy,
}
use lib_fantuan.Common.DyArray.Push.{IsValid, contents}
use lib_fantuan.Common.DyArray.Growth.{resize-contents, max_size-resize}

length-items : {A : Type 0} (xs : List A) → length (map some xs) ≡ length xs
length-items [] = refl
length-items (x ∷ xs) = ap suc (length-items xs)

le-mul : (cell q : ℕ) → 0 < cell → q ≤ cell * q
le-mul zero q h = absurd (omega arith)
le-mul (suc c) q h = omega arith

larger : (x y : ℕ) → (if ltb y x then x else y) ≡ max x y
larger x y = ground arith

cleared-le : (n cell : ℕ) → 0 < cell → n / cell + (if n % cell == 0 then 0 else 1) ≤ n
cleared-le n cell h = ground (arith, div-add-mod n cell, le-mul cell (n / cell))

module _ {A : Type 0} where
  memset_head-IsValid :
      (blank : A) (cell : ℕ) (a : DyArray A)
      → 0 < cell
      → IsValid a
      → IsValid (memset_head blank cell a) × ((memset_head blank cell a).max_size ≡ a.max_size)
  unfolding memset_head
  memset_head-IsValid blank cell a h v =
      let whole = a.max_size / cell in
      let part : ℕ = if a.max_size % cell == 0 then 0 else 1 in
      (
        record {
          room = omega (
            arith,
            v.room,
            cleared-le a.max_size cell h,
            length-append (replicate whole (some blank))
                (replicate part none ++ drop (whole + part) a.slots),
            length-append (replicate part none) (drop (whole + part) a.slots),
            length-replicate {A = Option A} whole (some blank),
            length-replicate {A = Option A} part none,
            length-drop (whole + part) a.slots,
          );
          count_in = v.count_in;
        },
        refl,
      )

  store_all-contents :
      (a : DyArray A) (i : ℕ) (items : List A)
      → IsValid a
      → i + length items ≤ a.max_size
      → (b : DyArray A) × (store_all a i items ≡ some b)
        × (length b.slots ≡ b.max_size)
        × (b.max_size ≡ a.max_size)
        × (b.count ≡ a.count)
        × (take (i + length items) b.slots ≡ take i a.slots ++ map some items)
  unfolding store_all
  store_all-contents a i items v h =
      let copied =
        memcpy_lem a.slots i (map some items) (omega (arith, v.room, length-items items)) in
      (
        record a {
          slots = take i a.slots ++ (map some items ++ drop (i + length (map some items)) a.slots);
        },
        rw (copied, store_all) refl,
        length-memcpy a.slots i (map some items) copied ∙ v.room,
        refl,
        refl,
        ap
              (λ n.
                take (i + n) (
                  take i a.slots ++ (map some items ++ drop (i + length (map some items)) a.slots)))
              (sym (length-items items))
            ∙ take-memcpy a.slots i (map some items) copied,
      )

  -- The resize that makes room for `n` elements.
  sized-IsValid :
      (cell : ℕ) (blank : A) (a : DyArray A) (n : ℕ)
      → 0 < cell
      → n * cell < 2 ^ 64
      → IsValid a
      → a.count < 2 ^ 64
      → n < 2 ^ 64
      → let r = if leb a.max_size n then resize cell blank a n else a in
        IsValid r × (n ≤ r.max_size) × (max r.count n ≡ max a.count n)
  sized-IsValid cell blank a n wide fits v small small' = elim (dec_lt n a.max_size) [
    | yes less ↦ rw (lt→leb_false a.max_size n less) (v, omega arith, refl)
    | no more ↦ rw (le→leb a.max_size n (omega arith)) (
      (resize-contents cell blank a n wide fits v small small').0,
      omega (arith, max_size-resize cell blank a n small' v.count_in),
      omega (arith, (resize-contents cell blank a n wide fits v small small').1, v.count_in),
    )
  ]

  -- assign leaves exactly the given elements, and stays inside the memory. The array stays valid.
  -- Condition: a valid array, counts and a size in bytes below 2 ^ 64, and an element type of one byte at least.
  pub assign-contents :
      (blank : A) (cell : ℕ) (a : DyArray A) (items : List A)
      → IsValid a
      → 0 < cell
      → length items * cell < 2 ^ 64
      → a.count < 2 ^ 64
      → length items < 2 ^ 64
      → (b : DyArray A) × (assign blank cell a items ≡ some b)
        × IsValid b
        × (contents b ≡ map some items)
  unfolding assign
  assign-contents blank cell a items v h fits small small' =
      let sized = if leb a.max_size (length items) then resize cell blank a (length items) else a in
      let (vs, room, keeps) = sized-IsValid cell blank a (length items) h fits v small small' in
      let (vm, same) = memset_head-IsValid blank cell sized h vs in
      let (b, stored, size, cap_b, count, front) =
        store_all-contents (memset_head blank cell sized) 0 items vm (omega (arith, same)) in
      let start : length items ≡ 0 + length items = omega arith in
      (
        record b { count = length items },
        rw (stored, assign) refl,
        record { room = size; count_in = omega (arith, cap_b, same) },
        ap (λ n. take n b.slots) start ∙ front,
      )

  -- copy puts the given elements over the first ones and keeps those behind them.
  -- Condition: a valid array, an element type of one byte at least, and counts and a size in bytes below 2 ^ 64.
  pub copy-contents :
      (cell : ℕ) (blank : A) (a : DyArray A) (items : List A)
      → 0 < cell
      → length items * cell < 2 ^ 64
      → IsValid a
      → a.count < 2 ^ 64
      → length items < 2 ^ 64
      → (b : DyArray A) × (copy cell blank a items ≡ some b)
        × IsValid b
        × (b.count ≡ max a.count (length items))
        × (take (length items) (contents b) ≡ map some items)
  unfolding copy
  copy-contents cell blank a items wide fits v small small' =
      let sized = if leb a.max_size (length items) then resize cell blank a (length items) else a in
      let (vs, room, keeps) = sized-IsValid cell blank a (length items) wide fits v small small' in
      let (b, stored, size, cap_b, count, front) =
        store_all-contents sized 0 items vs (omega arith) in
      let start : length items ≡ 0 + length items = omega arith in
      (
        record b { count = if ltb (length items) b.count then b.count else length items },
        rw (stored, copy) refl,
        record { room = size; count_in = ground (arith, count, cap_b, vs.count_in, room) },
        larger b.count (length items) ∙ ap (λ c. max c (length items)) count ∙ keeps,
        take-take (length items) (if ltb (length items) b.count then b.count else length items)
              b.slots (omega (arith, larger b.count (length items)))
            ∙ ap (λ n. take n b.slots) start
            ∙ front,
      )

  append_sized :
      (cell : ℕ) (blank : A) (a r b : DyArray A) (items : List A) (i : ℕ)
      → (if leb a.max_size (length items + a.count)
          then resize cell blank a (length items + a.count)
          else a)
        ≡ r
      → store_all r i items ≡ some b
      → append cell blank a items i ≡ some (record b { count = b.count + length items })
  unfolding append
  append_sized cell blank a r b items i sized stored =
      let placed = ap (λ s. store_all s i items) sized ∙ stored in rw (placed, append) refl

  -- append of elements that leave the array short of its capacity, at the end: they go behind the
  -- old ones, and the array stays valid. Condition: a valid array, an element type of one byte at least, and counts and a size in bytes below 2 ^ 64.
  pub append-contents :
      (cell : ℕ) (blank : A) (a : DyArray A) (items : List A)
      → IsValid a
      → length items + a.count < a.max_size
      → (b : DyArray A) × (append cell blank a items a.count ≡ some b)
        × IsValid b
        × (contents b ≡ contents a ++ map some items)
  append-contents cell blank a items v h =
      let (b, stored, size, cap_b, count, front) =
        store_all-contents a a.count items v (omega arith) in
      (
        record b { count = b.count + length items },
        append_sized cell blank a a b items a.count
            (rw (lt→leb_false a.max_size (length items + a.count) h) refl) stored,
        record { room = size; count_in = omega (arith, count, cap_b) },
        ap (λ n. take (n + length items) b.slots) count ∙ front,
      )

  -- append of elements that fill the array or make it grow counts them twice: the count comes out
  -- above the capacity by their number. Condition: a valid array, a place within the count, at least
  -- the capacity's number of elements in all, one of them new at least, and sizes below 2 ^ 64.
  pub append_overcounts :
      (cell : ℕ) (blank : A) (a : DyArray A) (items : List A) (i : ℕ)
      → 0 < cell
      → (length items + a.count) * cell < 2 ^ 64
      → IsValid a
      → i ≤ a.count
      → 0 < length items
      → a.max_size ≤ length items + a.count
      → length items + a.count < 2 ^ 64
      → (b : DyArray A) × (append cell blank a items i ≡ some b)
        × (b.max_size ≡ a.count + length items)
        × (b.count ≡ b.max_size + length items)
  append_overcounts cell blank a items i wide fits v at_most some_new full small =
      let total = length items + a.count in
      let sized = resize cell blank a total in
      let (vs, counted, holds) =
        resize-contents cell blank a total wide fits v (omega arith) small in
      let cap_s = max_size-resize cell blank a total small v.count_in in
      let (b, stored, size, cap_b, count, front) =
        store_all-contents sized i items vs (omega (arith, cap_s)) in
      (
        record b { count = b.count + length items },
        append_sized cell blank a sized b items i (rw (le→leb a.max_size total full) refl) stored,
        omega (arith, cap_b, cap_s),
        omega (arith, cap_b, cap_s, count, counted),
      )

  -- A copy of an array has no elements, whatever the array holds.
  pub copy_of-contents :
      (cell : ℕ) (blank : A) (n : ℕ) (rhs : DyArray A) → contents (copy_of cell blank n rhs) ≡ []
  unfolding copy_of
  copy_of-contents cell blank n rhs = refl
