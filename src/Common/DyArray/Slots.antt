-- ===== src/Common/DyArray/Slots.antt =====
-- The slots of a DyArray (common/src/dy_array.h) that _insert_n and _grow_n leave.
use lib_fantuan.Prelude.{
  ℕ, suc, ◌+◌, ◌-◌, ◌*◌, ◌/◌, ◌%◌, ◌^◌, drop, drop-append_ge, ◌≤◌, ◌<◌, ◌≡◌, refl, sym, subst, ap,
  ap₂, ◌∙◌, Option, none, some, List, [], ◌∷◌, ◌++◌, append-nil, append_assoc, arith, length, take,
  set, replicate, length-append, length-replicate, set-append, take_beyond, take-append_le,
  take_all, replicate-append,
}
use native.Mathlib.Nat.{mul-div_cancel}
use lib_fantuan.Common.DyArray.{DyArray, object_allocate, insert_n, grow_n}
use lib_fantuan.Common.DyArray.Push.{
  IsValid, contents, length-contents, insert_n-slots, insert_n_keeps,
}

mod_small : (x : ℕ) → x < 2 ^ 64 → x % 2 ^ 64 ≡ x
mod_small x h = omega arith

-- Memory whose size in bytes does not wrap has all its slots.
pub allocate-count :
    (cell count : ℕ) → 0 < cell → count * cell < 2 ^ 64 → count * cell % 2 ^ 64 / cell ≡ count
allocate-count cell count wide fits =
    ap (λ k. k / cell) (mod_small (count * cell) fits) ∙ mul-div_cancel count wide

set_at {ℓ} :
    {B : Type ℓ} (xs ys : List B) (i : ℕ) (x v : B)
    → i ≡ length xs
    → set (xs ++ (x ∷ ys)) i v ≡ xs ++ (v ∷ ys)
set_at xs ys i x v h = rw h (set-append xs ys x v)

module _ {A : Type 0} where
  -- New memory behind its first `m` slots, where the size in bytes does not wrap.
  new_slots :
      (cell m n total : ℕ)
      → 0 < cell
      → total * cell < 2 ^ 64
      → m + n ≡ total
      → drop m (object_allocate {A = A} cell (m + n)) ≡ replicate n none
  new_slots cell m n total wide fits e =
      let count : (m + n) * cell % 2 ^ 64 / cell ≡ m + n =
        allocate-count cell (m + n) wide (subst (λ k. k * cell < 2 ^ 64) (sym e) fits) in
      let front : length (replicate {A = Option A} m none) ≡ m = length-replicate m none in
      let at_start : m - length (replicate {A = Option A} m none) ≡ 0 = omega (arith, front) in
      ap (λ k. drop m (replicate k none)) count
      ∙ (ap (drop m) (replicate-append m n none)
          ∙ (drop-append_ge m (replicate m none) (replicate n none)
                (omega (arith, length-replicate {A = Option A} m none))
              ∙ ap (λ k. drop k (replicate n none)) at_start))

  -- An array whose memory is the old elements, then `n` slots, then others.
  pub record Holds (a : DyArray A) (n : ℕ) (slots more : List (Option A)) (r : DyArray A)
      : Type 0 where
    pub memory : r.slots ≡ contents a ++ (slots ++ more)
    pub size : length slots ≡ n
    pub count : r.count ≡ a.count + n
    pub room : length r.slots ≡ r.max_size

  -- Such an array is valid and has the `n` slots behind the old elements.
  pub Holds-contents :
      {a r : DyArray A} {n : ℕ} {slots more : List (Option A)}
      → IsValid a
      → Holds a n slots more r
      → IsValid r × (contents r ≡ contents a ++ slots)
  Holds-contents {a} {r} {n} {slots} {more} v h =
      let whole : length r.slots ≡ a.count + (n + length more) = omega (
        arith,
        ap length h.memory,
        length-append (contents a) (slots ++ more),
        length-append slots more,
        length-contents v,
        h.size,
      ) in
      (
        record { room = h.room; count_in = omega (arith, whole, h.room, h.count) },
        rw (h.count, h.memory)
            (take_beyond (contents a) (slots ++ more) a.count n (length-contents v)
              ∙ ap (◌++◌ (contents a)) (
                  take-append_le n slots more (omega (arith, h.size))
                  ∙ take_all n slots (omega (arith, h.size)))),
      )

  pub room_Holds :
      (a : DyArray A) (n : ℕ) (value : A)
      → IsValid a
      → a.count < a.max_size
      → a.count + n ≤ a.max_size
      → Holds a n
          (replicate n (some value))
          (replicate (a.max_size - a.count - n) (some value))
          (record (insert_n a (a.max_size - a.count) value) { count = a.count + n })
  room_Holds a n value v less fits =
      let k = a.max_size - a.count in
      let more = replicate (k - n) (some value) in
      let sum : k ≡ n + (k - n) = omega arith in
      let memory =
        insert_n-slots a value v
        ∙ ap (λ m. contents a ++ replicate m (some value)) sum
        ∙ ap (◌++◌ (contents a)) (replicate-append n (k - n) (some value)) in
      record {
        memory = memory;
        size = length-replicate {A = Option A} n (some value);
        count = refl;
        room = omega (
          arith,
          ap length (insert_n-slots a value v),
          length-append (contents a) (replicate k (some value)),
          length-replicate {A = Option A} k (some value),
          length-contents v,
          (insert_n_keeps a k value).0,
        );
      }

  pub grow_Holds :
      (cell : ℕ) (a : DyArray A) (n k : ℕ) (value : A)
      → 0 < cell
      → (a.count + n) * cell < 2 ^ 64
      → IsValid a
      → a.max_size ≡ a.count + suc k
      → a.max_size < a.count + n
      → Holds a n
          (replicate (suc k) (some value) ++ replicate (n - suc k) none)
          []
          (record (grow_n cell
            (insert_n a (a.max_size - a.count) value)
            (a.count + n - a.max_size)
            value) { count = a.count + n })
  unfolding grow_n
  grow_Holds cell a n k value wide fits v less over =
      let b = insert_n a (a.max_size - a.count) value in
      let keeps = insert_n_keeps a (a.max_size - a.count) value in
      let width : a.max_size - a.count ≡ suc k = omega arith in
      let extra : a.count + n - a.max_size ≡ n - suc k = omega arith in
      let slots : List (Option A) = some value ∷ replicate k (some value) in
      let more : List (Option A) = replicate (n - suc k) none in
      let filled : b.slots ≡ contents a ++ slots =
        insert_n-slots a value v ∙ ap (λ m. contents a ++ replicate m (some value)) width in
      let size : length (contents a ++ slots) ≡ b.max_size = omega (
        arith,
        length-append (contents a) slots,
        length-replicate {A = Option A} k (some value),
        length-contents v,
        keeps.0,
      ) in
      let old : take b.max_size b.slots
            ++ drop b.max_size (object_allocate cell (b.max_size + (a.count + n - a.max_size)))
          ≡ contents a ++ (slots ++ more) =
        ap₂ (λ xs more. take b.max_size xs ++ more) filled
          (new_slots cell b.max_size (a.count + n - a.max_size) (a.count + n) wide fits
              (omega (arith, keeps.0, over))
            ∙ ap (λ m. replicate m none) extra)
        ∙ ap (λ xs. xs ++ more) (take_all b.max_size (contents a ++ slots) (omega (arith, size)))
        ∙ append_assoc (contents a) slots more in
      let memory =
        ap₂ (λ xs i. set xs i (some value)) old keeps.1
        ∙ set_at (contents a) (replicate k (some value) ++ more) a.count (some value) (some value)
            (sym (length-contents v))
        ∙ ap (◌++◌ (contents a)) (sym (append-nil (slots ++ more))) in
      record {
        memory = memory;
        size = omega (
          arith,
          length-append slots more,
          length-replicate {A = Option A} k (some value),
          length-replicate {A = Option A} (n - suc k) none,
        );
        count = refl;
        room = omega (
          arith,
          ap length memory,
          length-append (contents a) ((slots ++ more) ++ []),
          length-append (slots ++ more) [],
          length-append slots more,
          length-replicate {A = Option A} k (some value),
          length-replicate {A = Option A} (n - suc k) none,
          length-contents v,
          keeps.0,
        );
      }

  pub full_Holds :
      (cell : ℕ) (a : DyArray A) (n : ℕ) (value : A)
      → 0 < cell
      → (a.count + suc n) * cell < 2 ^ 64
      → IsValid a
      → a.count ≡ a.max_size
      → Holds a
          (suc n)
          (some value ∷ replicate n none)
          []
          (record (grow_n cell a (a.count + suc n - a.max_size) value) { count = a.count + suc n })
  unfolding grow_n
  full_Holds cell a n value wide fits v full =
      let extra : a.count + suc n - a.max_size ≡ suc n = omega arith in
      let more : List (Option A) = replicate n none in
      let old : take a.max_size a.slots
            ++ drop a.max_size (object_allocate cell (a.max_size + (a.count + suc n - a.max_size)))
          ≡ contents a ++ (none ∷ more) =
        ap₂ (λ i new. take i a.slots ++ new) (sym full)
          (new_slots cell a.max_size (a.count + suc n - a.max_size) (a.count + suc n) wide fits
              (omega (arith, full))
            ∙ ap (λ m. replicate m none) extra) in
      let memory =
        ap (λ xs. set xs a.count (some value)) old
        ∙ set_at (contents a) more a.count none (some value) (sym (length-contents v))
        ∙ ap (◌++◌ (contents a)) (sym (append-nil (some value ∷ more))) in
      record {
        memory = memory;
        size = ap suc (length-replicate {A = Option A} n none);
        count = refl;
        room = omega (
          arith,
          ap length memory,
          length-append (contents a) ((some value ∷ more) ++ []),
          length-append (some value ∷ more) [],
          length-replicate {A = Option A} n none,
          length-contents v,
        );
      }
