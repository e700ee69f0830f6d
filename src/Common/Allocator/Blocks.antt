-- ===== src/Common/Allocator/Blocks.antt =====
-- What FTAllocator promises of the blocks that it hands out (common/src/allocator.cpp).
use lib_fantuan.Prelude.{
  ℕ, ◌%◌, ◌≤◌, ◌≡◌, ◌≢◌, ◌⊎◌, inl, inr, sym, ap, subst, ◌∙◌, true, false, List, ◌∷◌, ◌==◌, arith,
  Bool-cases, elem, Distinct,
}
use lib_fantuan.Common.Allocator.{Allocator, index, update}
use lib_fantuan.Common.Allocator.Carving.{Apart}

-- The objects `objs` that were made and are not given back to the system, and those of them that are handed out.
pub record IsValid (a : Allocator) (objs out : List ℕ) : Type 0 where
  pub apart :
      (x y : ℕ)
      → elem x objs ≡ true
      → elem y objs ≡ true
      → x ≢ y
      → Apart x (a.obj_size x) y (a.obj_size y)
  pub sized : (x : ℕ) → elem x objs ≡ true → 8 ≤ a.obj_size x
  pub rounded : (x : ℕ) → elem x objs ≡ true → a.obj_size x ≤ 512 → a.obj_size x % 8 ≡ 0
  pub free_known :
      (i x : ℕ)
      → elem x (a.free_list i) ≡ true
      → (elem x objs ≡ true) × (index (a.obj_size x) ≡ i) × (a.obj_size x ≤ 512)
  pub free_once : (i : ℕ) → Distinct (a.free_list i)
  pub free_in : (i x : ℕ) → elem x (a.free_list i) ≡ true → elem x out ≡ false
  pub out_known : (x : ℕ) → elem x out ≡ true → elem x objs ≡ true
  pub out_once : Distinct out

-- Memory from malloc does not meet the objects that the allocator has.
pub record IsFresh (a : Allocator) (objs : List ℕ) (chunk bytes : ℕ) : Type 0 where
  pub away : (x : ℕ) → elem x objs ≡ true → Apart x (a.obj_size x) chunk bytes

pub update-cases {ℓ} :
    {A : Type ℓ} (i j : ℕ) (v : A) (f : ℕ → A)
    → ((j ≡ i) × (update i v f j ≡ v)) ⊎ ((j ≢ i) × (update i v f j ≡ f j))
update-cases i j v f = elim (Bool-cases (j == i)) [
  | inl here ↦ inl (ground (arith, here), rw here)
  | inr other ↦ inr (λ same. ground (arith, other, same), rw other)
]

-- Where an element of a list was taken from its class, it is in no free list any more.
other_class :
    {a : Allocator} {objs out : List ℕ} (v : IsValid a objs out) (i j x y : ℕ)
    → elem x (a.free_list i) ≡ true
    → elem y (a.free_list j) ≡ true
    → j ≢ i
    → y ≢ x
other_class {a} v i j x y hx hy differ same =
    let class_x = (v.free_known i x hx).1 in
    let class_y = (v.free_known j y hy).1 in
    differ (sym class_y ∙ (ap (λ k. index (a.obj_size k)) same ∙ class_x))

pub elem-cons : (x y : ℕ) (ys : List ℕ) → x ≢ y → elem x ys ≡ false → elem x (y ∷ ys) ≡ false
elem-cons x y ys other absent = ground (arith, other, absent)

pub elem-head : (x : ℕ) (xs : List ℕ) → elem x (x ∷ xs) ≡ true
elem-head x xs = ground arith

pub elem-absent : (x y : ℕ) (ys : List ℕ) → elem x ys ≡ false → elem y ys ≡ true → y ≢ x
elem-absent x y ys absent present same =
    let twice : true ≡ false = sym present ∙ (ap (λ k. elem k ys) same ∙ absent) in absurd (cc)

-- What was free is free still, and is not the object that was taken.
still_free :
    {a : Allocator} {objs out : List ℕ} (v : IsValid a objs out) (i x : ℕ) (xs : List ℕ)
    → a.free_list i ≡ x ∷ xs
    → (j y : ℕ) → elem y (update i xs a.free_list j) ≡ true
    → (elem y (a.free_list j) ≡ true) × (y ≢ x)
still_free {a} v i x xs e j y h = elim (update-cases i j xs a.free_list) [
  | inl (here, list) ↦
      let in_rest : elem y xs ≡ true = sym (ap (elem y) list) ∙ h in
      let once : Distinct (x ∷ xs) = subst Distinct e (v.free_once i) in
      let in_list : elem y (a.free_list j) ≡ true =
        ap (λ k. elem y (a.free_list k)) here ∙ (ap (elem y) e ∙ ground (arith, in_rest)) in
      (in_list, elem-absent x y xs once.0 in_rest)
  | inr (there, list) ↦
      let in_list : elem y (a.free_list j) ≡ true = sym (ap (elem y) list) ∙ h in
      let head : elem x (a.free_list i) ≡ true = ap (elem x) e ∙ elem-head x xs in
      (in_list, other_class v i j x y head in_list there)
]

-- A free object is handed out.
pub taken-IsValid :
    (a : Allocator) (objs out : List ℕ) (i x : ℕ) (xs : List ℕ)
    → a.free_list i ≡ x ∷ xs
    → IsValid a objs out
    → IsValid (record a { free_list = update i xs a.free_list }) objs (x ∷ out)
taken-IsValid a objs out i x xs e v =
    let head : elem x (a.free_list i) ≡ true = ap (elem x) e ∙ elem-head x xs in
    let known = (v.free_known i x head).0 in
    record {
      apart = v.apart;
      sized = v.sized;
      rounded = v.rounded;
      free_known = λ j y h. v.free_known j y (still_free v i x xs e j y h).0;
      free_once = λ j. elim (update-cases i j xs a.free_list) [
        | inl (here, list) ↦
            let once : Distinct (x ∷ xs) = subst Distinct e (v.free_once i) in
            subst Distinct (sym list) once.1
        | inr (there, list) ↦ subst Distinct (sym list) (v.free_once j)
      ];
      free_in = λ j y h.
          let (before, other) = still_free v i x xs e j y h in
          elem-cons y x out other (v.free_in j y before);
      out_known = λ y h. elim (Bool-cases (y == x)) [
        | inl same ↦ let equal : y ≡ x = ground (arith, same) in ap (λ k. elem k objs) equal ∙ known
        | inr other ↦ v.out_known y (ground (arith, h, other))
      ];
      out_once = (v.free_in i x head, v.out_once);
    }
