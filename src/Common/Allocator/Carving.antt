-- ===== src/Common/Allocator/Carving.antt =====
-- The objects that _refill carves out of a chunk (common/src/allocator.cpp).
use lib_fantuan.Prelude.{
  ℕ, suc, zero, ◌+◌, ◌*◌, ◌≤◌, ◌≡◌, ◌≢◌, ◌⊎◌, inl, inr, refl, sym, ◌∙◌, true, false, List, [], ◌∷◌,
  ◌==◌, arith, Bool-cases, elem, Distinct,
}
use lib_fantuan.Common.Allocator.{link, set_sizes}

-- Two stretches of memory that do not meet.
abbrev pub Apart : ℕ → ℕ → ℕ → ℕ → Type 0
Apart x m y n = (x + m ≤ y) ⊎ (y + n ≤ x)

pub link-bounds : (b n s y : ℕ) → elem y (link b n s) ≡ true → (s ≤ y) × (y + b ≤ s + suc n * b)
unfolding link
link-bounds b zero s y h = let same : y ≡ s = ground (arith, h) in grind (arith, same)
link-bounds b (suc n) s y h = elim (Bool-cases (y == s)) [
  | inl first ↦ let same : y ≡ s = ground (arith, first) in grind (arith, same)
  | inr other ↦
      let rest = link-bounds b n (s + b) y (ground (arith, h, other)) in
      grind (arith, rest.0, rest.1)
]

-- Two objects of a chunk do not meet.
pub link-Apart :
    (b n s y z : ℕ)
    → elem y (link b n s) ≡ true
    → elem z (link b n s) ≡ true
    → y ≢ z
    → Apart y b z b
unfolding link
link-Apart b zero s y z hy hz other =
    let sy : y ≡ s = ground (arith, hy) in
    let sz : z ≡ s = ground (arith, hz) in absurd (other (sy ∙ sym sz))
link-Apart b (suc n) s y z hy hz other = elim (Bool-cases (y == s)) [
  | inl y_first ↦
      let sy : y ≡ s = ground (arith, y_first) in
      elim (Bool-cases (z == s)) [
        | inl z_first ↦ let sz : z ≡ s = ground (arith, z_first) in absurd (other (sy ∙ sym sz))
        | inr z_later ↦
            let bounds = link-bounds b n (s + b) z (ground (arith, hz, z_later)) in
            inl (omega (arith, bounds.0, sy))
      ]
  | inr y_later ↦
      let rest_y : elem y (link b n (s + b)) ≡ true = ground (arith, hy, y_later) in
      elim (Bool-cases (z == s)) [
        | inl z_first ↦
            let sz : z ≡ s = ground (arith, z_first) in
            let bounds = link-bounds b n (s + b) y rest_y in inr (omega (arith, bounds.0, sz))
        | inr z_later ↦ link-Apart b n (s + b) y z rest_y (ground (arith, hz, z_later)) other
      ]
]

pub link-Distinct : (b n s : ℕ) → 1 ≤ b → Distinct (link b n s)
unfolding link
link-Distinct b zero s h = (refl, tt)
link-Distinct b (suc n) s h =
    let absent : elem s (link b n (s + b)) ≡ false = elim (Bool-cases (elem s (link b n (s + b)))) [
      | inl found ↦ let bounds = link-bounds b n (s + b) s found in absurd (omega (arith, bounds.0))
      | inr none ↦ none
    ] in
    (absent, link-Distinct b n (s + b) h)

-- The sizes that were stored, and the others.
pub set_sizes-in :
    (b : ℕ) (xs : List ℕ) (f : ℕ → ℕ) (y : ℕ) → elem y xs ≡ true → set_sizes b xs f y ≡ b
set_sizes-in b [] f y h = absurd (cc)
set_sizes-in b (x ∷ xs) f y h = elim (Bool-cases (y == x)) [
  | inl here ↦ rw here
  | inr other ↦ rw other (set_sizes-in b xs f y (ground (arith, h, other)))
]

pub set_sizes-out :
    (b : ℕ) (xs : List ℕ) (f : ℕ → ℕ) (y : ℕ) → elem y xs ≡ false → set_sizes b xs f y ≡ f y
set_sizes-out b [] f y h = refl
set_sizes-out b (x ∷ xs) f y h =
    let other : (y == x) ≡ false = ground (arith, h) in
    rw other (set_sizes-out b xs f y (ground (arith, h, other)))
