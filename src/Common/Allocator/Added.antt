-- ===== src/Common/Allocator/Added.antt =====
-- Objects that join those of an FTAllocator (common/src/allocator.cpp).
use lib_fantuan.Prelude.{
  ℕ, ◌%◌, ◌≤◌, ◌≡◌, ◌≢◌, ◌⊎◌, inl, inr, sym, ap, subst, ◌∙◌, true, false, List, ◌∷◌, ◌++◌, ◌==◌,
  arith, Bool-cases, elem, elem-append, Distinct,
}
use lib_fantuan.Common.Allocator.{Allocator, index}
use lib_fantuan.Common.Allocator.Carving.{Apart}
use lib_fantuan.Common.Allocator.Blocks.{IsValid, elem-cons, elem-absent}

-- Objects of `b` bytes at the addresses `new`, which meet neither one another nor the objects that were there:
-- `f` has the sizes before and `g` those after.
pub record Added (f g : ℕ → ℕ) (b : ℕ) (objs new : List ℕ) : Type 0 where
  pub wide : 8 ≤ b
  pub round : b ≤ 512 → b % 8 ≡ 0
  pub size_new : (y : ℕ) → elem y new ≡ true → g y ≡ b
  pub size_old : (y : ℕ) → elem y new ≡ false → g y ≡ f y
  pub apart_new : (y z : ℕ) → elem y new ≡ true → elem z new ≡ true → y ≢ z → Apart y b z b
  pub away : (x y : ℕ) → elem x objs ≡ true → elem y new ≡ true → Apart x (f x) y b

turned : (x m y n : ℕ) → Apart x m y n → Apart y n x m
turned x m y n (inl h) = inr h
turned x m y n (inr h) = inl h

sizes-Apart : {m n p q : ℕ} (x y : ℕ) → m ≡ p → n ≡ q → Apart x p y q → Apart x m y n
sizes-Apart {m} {n} {p} {q} x y hm hn h =
    subst (λ k. Apart x k y n) (sym hm) (subst (λ k. Apart x p y k) (sym hn) h)

-- An object that was there is none of the new ones.
old-new :
    {f g : ℕ → ℕ} {b : ℕ} {objs new : List ℕ}
    → Added f g b objs new
    → ((x : ℕ) → elem x objs ≡ true → 8 ≤ f x)
    → (x : ℕ) → elem x objs ≡ true
    → elem x new ≡ false
old-new {f} {g} {b} {objs} {new} d sized x h = elim (Bool-cases (elem x new)) [
  | inl listed ↦ elim (d.away x x h listed) [
    | inl left ↦ absurd (omega (arith, left, sized x h))
    | inr right ↦ absurd (omega (arith, right, d.wide))
  ]
  | inr absent ↦ absent
]

Added-sized :
    {f g : ℕ → ℕ} {b : ℕ} {objs new : List ℕ}
    → Added f g b objs new
    → ((x : ℕ) → elem x objs ≡ true → 8 ≤ f x)
    → (x : ℕ) → elem x (new ++ objs) ≡ true
    → 8 ≤ g x
Added-sized {f} {g} {b} {objs} {new} d sized x h = elim (Bool-cases (elem x new)) [
  | inl listed ↦ omega (arith, d.size_new x listed, d.wide)
  | inr absent ↦
      let old : elem x objs ≡ true = ground (arith, h, elem-append x new objs, absent) in
      omega (arith, d.size_old x absent, sized x old)
]

Added-rounded :
    {f g : ℕ → ℕ} {b : ℕ} {objs new : List ℕ}
    → Added f g b objs new
    → ((x : ℕ) → elem x objs ≡ true → f x ≤ 512 → f x % 8 ≡ 0)
    → (x : ℕ) → elem x (new ++ objs) ≡ true
    → g x ≤ 512
    → g x % 8 ≡ 0
Added-rounded {f} {g} {b} {objs} {new} d rounded x h small = elim (Bool-cases (elem x new)) [
  | inl listed ↦
      let size = d.size_new x listed in
      let even = d.round (omega (arith, size, small)) in omega (arith, size, even)
  | inr absent ↦
      let old : elem x objs ≡ true = ground (arith, h, elem-append x new objs, absent) in
      let size = d.size_old x absent in
      let even = rounded x old (omega (arith, size, small)) in omega (arith, size, even)
]

Added-Apart :
    {f g : ℕ → ℕ} {b : ℕ} {objs new : List ℕ}
    → Added f g b objs new
    → ((x y : ℕ) → elem x objs ≡ true → elem y objs ≡ true → x ≢ y → Apart x (f x) y (f y))
    → (x y : ℕ) → elem x (new ++ objs) ≡ true
    → elem y (new ++ objs) ≡ true
    → x ≢ y
    → Apart x (g x) y (g y)
Added-Apart {f} {g} {b} {objs} {new} d apart x y hx hy other =
    let split : (k : ℕ) → elem k (new ++ objs) ≡ true → elem k new ≡ false → elem k objs ≡ true =
      λ k h absent. ground (arith, h, elem-append k new objs, absent) in
    elim (Bool-cases (elem x new)) [
      | inl new_x ↦ elim (Bool-cases (elem y new)) [
        | inl new_y ↦
            sizes-Apart x y (d.size_new x new_x) (d.size_new y new_y)
              (d.apart_new x y new_x new_y other)
        | inr old_y ↦
            sizes-Apart x y (d.size_new x new_x) (d.size_old y old_y)
              (turned y (f y) x b (d.away y x (split y hy old_y) new_x))
      ]
      | inr old_x ↦ elim (Bool-cases (elem y new)) [
        | inl new_y ↦
            sizes-Apart x y (d.size_old x old_x) (d.size_new y new_y)
              (d.away x y (split x hx old_x) new_y)
        | inr old_y ↦
            sizes-Apart x y (d.size_old x old_x) (d.size_old y old_y)
              (apart x y (split x hx old_x) (split y hy old_y) other)
      ]
    ]

-- Where the new objects are handed out one by one: the first is out, and the free lists are the old ones,
-- but for one class, which was empty and has the others.
pub made-IsValid :
    {a c : Allocator} {objs out new : List ℕ} {b first : ℕ} (i : ℕ) (linked : List ℕ)
    → Added a.obj_size c.obj_size b objs new
    → IsValid a objs out
    → elem first new ≡ true
    → ((j y : ℕ)
        → elem y (c.free_list j) ≡ true
        → ((j ≡ i) × (elem y linked ≡ true)) ⊎ (elem y (a.free_list j) ≡ true))
    → ((j : ℕ) → Distinct (c.free_list j))
    → ((y : ℕ)
        → elem y linked ≡ true
        → (elem y new ≡ true) × (y ≢ first) × (index b ≡ i) × (b ≤ 512))
    → IsValid c (new ++ objs) (first ∷ out)
made-IsValid {a} {c} {objs} {out} {new} {b} {first} i linked d v h free once fit =
    let old_known : (y : ℕ) → elem y objs ≡ true → elem y (new ++ objs) ≡ true =
      λ y k. ground (arith, elem-append y new objs, k) in
    let new_known : (y : ℕ) → elem y new ≡ true → elem y (new ++ objs) ≡ true =
      λ y k. ground (arith, elem-append y new objs, k) in
    let old : (y : ℕ) → elem y objs ≡ true → elem y new ≡ false = old-new d v.sized in
    let not_out : (y : ℕ) → elem y new ≡ true → elem y out ≡ false = λ y k.
      elim (Bool-cases (elem y out)) [
        | inl listed ↦
            let twice : true ≡ false = sym k ∙ old y (v.out_known y listed) in absurd (cc)
        | inr absent ↦ absent
      ] in
    record {
      apart = Added-Apart d v.apart;
      sized = Added-sized d v.sized;
      rounded = Added-rounded d v.rounded;
      free_known = λ j y k. elim (free j y k) [
        | inl (class, listed) ↦
            let (is_new, other, class_b, small) = fit y listed in
            let size = d.size_new y is_new in
            (new_known y is_new, ap index size ∙ (class_b ∙ sym class), omega (arith, size, small))
        | inr before ↦
            let (known, class, small) = v.free_known j y before in
            let size = d.size_old y (old y known) in
            (old_known y known, ap index size ∙ class, omega (arith, size, small))
      ];
      free_once = once;
      free_in = λ j y k. elim (free j y k) [
        | inl (class, listed) ↦
            let (is_new, other, class_b, small) = fit y listed in
            elem-cons y first out other (not_out y is_new)
        | inr before ↦
            let (known, class, small) = v.free_known j y before in
            elem-cons y first out (λ same. elem-absent y first new (old y known) h (sym same))
              (v.free_in j y before)
      ];
      out_known = λ y k. elim (Bool-cases (y == first)) [
        | inl same ↦
            let equal : y ≡ first = ground (arith, same) in
            new_known y (ap (λ z. elem z new) equal ∙ h)
        | inr other ↦ old_known y (v.out_known y (ground (arith, k, other)))
      ];
      out_once = (not_out first h, v.out_once);
    }
