-- ===== src/Common/Allocator/Returned.antt =====
-- A block that is given back to FTAllocator (common/src/allocator.cpp).
use lib_fantuan.Prelude.{
  ℕ, ◌≤◌, ◌≡◌, ◌≢◌, ◌⊎◌, inl, inr, refl, sym, ap, subst, ◌∙◌, true, false, List, [], ◌∷◌, ◌==◌,
  if◌then◌else◌, arith, Distinct, Bool-cases, elem,
}
use lib_fantuan.Common.Allocator.{Allocator, index, update}
use lib_fantuan.Common.Allocator.Blocks.{IsValid, update-cases, elem-absent}

abbrev pub without : ℕ → List ℕ → List ℕ
without x [] = []
without x (y ∷ ys) = if y == x then without x ys else y ∷ without x ys

pub elem-without :
    (x y : ℕ) (ys : List ℕ) → elem y (without x ys) ≡ true → (elem y ys ≡ true) × (y ≢ x)
elem-without x y [] h = absurd (cc)
elem-without x y (z ∷ zs) h = elim (Bool-cases (z == x)) [
  | inl gone ↦ let rest = elem-without x y zs (rw gone at h) in (ground (arith, rest.0), rest.1)
  | inr kept ↦
      let h2 : elem y (z ∷ without x zs) ≡ true = rw kept at h in
      elim (Bool-cases (y == z)) [
        | inl here ↦ (ground (arith, here), ground (arith, here, kept))
        | inr later ↦
            let rest = elem-without x y zs (ground (arith, h2, later)) in
            (ground (arith, rest.0), rest.1)
      ]
]

pub elem-without_other :
    (x y : ℕ) (ys : List ℕ) → y ≢ x → elem y ys ≡ true → elem y (without x ys) ≡ true
elem-without_other x y [] other h = absurd (cc)
elem-without_other x y (z ∷ zs) other h = elim (Bool-cases (z == x)) [
  | inl gone ↦
      let differs : (y == z) ≡ false = ground (arith, gone, other) in
      rw gone (elem-without_other x y zs other (ground (arith, h, differs)))
  | inr kept ↦ rw kept (elim (Bool-cases (y == z)) [
    | inl here ↦ ground (arith, here)
    | inr later ↦
        let rest = elem-without_other x y zs other (ground (arith, h, later)) in
        ground (arith, rest)
  ])
]

pub without-absent : (x y : ℕ) (ys : List ℕ) → elem y ys ≡ false → elem y (without x ys) ≡ false
without-absent x y ys h = elim (Bool-cases (elem y (without x ys))) [
  | inl found ↦ let twice : true ≡ false = sym (elem-without x y ys found).0 ∙ h in absurd (cc)
  | inr absent ↦ absent
]

pub without-gone : (x : ℕ) (ys : List ℕ) → elem x (without x ys) ≡ false
without-gone x ys = elim (Bool-cases (elem x (without x ys))) [
  | inl found ↦ absurd ((elem-without x x ys found).1 refl)
  | inr absent ↦ absent
]

pub Distinct-without : (x : ℕ) (ys : List ℕ) → Distinct ys → Distinct (without x ys)
Distinct-without x [] d = tt
Distinct-without x (y ∷ ys) d = elim (Bool-cases (y == x)) [
  | inl gone ↦ rw gone (Distinct-without x ys d.1)
  | inr kept ↦ rw kept (without-absent x y ys d.0, Distinct-without x ys d.1)
]

-- What is free after that was free before, or is the object.
free_after :
    (a : Allocator) (x i j y : ℕ)
    → elem y (update i (x ∷ a.free_list i) a.free_list j) ≡ true
    → ((y ≡ x) × (j ≡ i)) ⊎ (elem y (a.free_list j) ≡ true)
free_after a x i j y h = elim (update-cases i j (x ∷ a.free_list i) a.free_list) [
  | inr (there, list) ↦ inr (sym (ap (elem y) list) ∙ h)
  | inl (here, list) ↦
      let found : elem y (x ∷ a.free_list i) ≡ true = sym (ap (elem y) list) ∙ h in
      elim (Bool-cases (y == x)) [
        | inl same ↦ inl (ground (arith, same), here)
        | inr other ↦
            let old : elem y (a.free_list i) ≡ true = ground (arith, found, other) in
            inr (ap (λ k. elem y (a.free_list k)) here ∙ old)
      ]
]

not_free :
    {a : Allocator} {objs out : List ℕ} (v : IsValid a objs out) (i x : ℕ)
    → elem x out ≡ true
    → elem x (a.free_list i) ≡ false
not_free {a} v i x h = elim (Bool-cases (elem x (a.free_list i))) [
  | inl listed ↦ let twice : true ≡ false = sym h ∙ v.free_in i x listed in absurd (cc)
  | inr absent ↦ absent
]

-- An object goes back to the list of its class.
pub returned-IsValid :
    (a : Allocator) (objs out : List ℕ) (x : ℕ)
    → elem x out ≡ true
    → a.obj_size x ≤ 512
    → IsValid a objs out
    → let i = index (a.obj_size x) in
      IsValid
        (record a { free_list = update i (x ∷ a.free_list i) a.free_list })
        objs
        (without x out)
returned-IsValid a objs out x h small v =
    let i = index (a.obj_size x) in
    let list = x ∷ a.free_list i in
    record {
      apart = v.apart;
      sized = v.sized;
      rounded = v.rounded;
      free_known = λ j y hy. elim (free_after a x i j y hy) [
        | inl (same, class) ↦ (
          ap (λ k. elem k objs) same ∙ v.out_known x h,
          ap (λ k. index (a.obj_size k)) same ∙ sym class,
          subst (λ k. a.obj_size k ≤ 512) (sym same) small,
        )
        | inr old ↦ v.free_known j y old
      ];
      free_once = λ j. elim (update-cases i j list a.free_list) [
        | inl (here, now) ↦ subst Distinct (sym now) (not_free v i x h, v.free_once i)
        | inr (there, now) ↦ subst Distinct (sym now) (v.free_once j)
      ];
      free_in = λ j y hy. elim (free_after a x i j y hy) [
        | inl (same, class) ↦ ap (λ k. elem k (without x out)) same ∙ without-gone x out
        | inr old ↦ without-absent x y out (v.free_in j y old)
      ];
      out_known = λ y hy. v.out_known y (elem-without x y out hy).0;
      out_once = Distinct-without x out v.out_once;
    }

-- A large object goes back to the system.
pub freed-IsValid :
    (a : Allocator) (objs out : List ℕ) (x : ℕ)
    → elem x out ≡ true
    → IsValid a objs out
    → IsValid a (without x objs) (without x out)
freed-IsValid a objs out x h v = record {
  apart = λ y z hy hz. v.apart y z (elem-without x y objs hy).0 (elem-without x z objs hz).0;
  sized = λ y hy. v.sized y (elem-without x y objs hy).0;
  rounded = λ y hy. v.rounded y (elem-without x y objs hy).0;
  free_known = λ i y hy.
      let (known, class, small) = v.free_known i y hy in
      (
        elem-without_other x y objs (elem-absent x y (a.free_list i) (not_free v i x h) hy) known,
        class,
        small,
      );
  free_once = v.free_once;
  free_in = λ i y hy. without-absent x y out (v.free_in i y hy);
  out_known = λ y hy.
      let (before, other) = elem-without x y out hy in
      elem-without_other x y objs other (v.out_known y before);
  out_once = Distinct-without x out v.out_once;
}
