-- ===== src/Prelude/Elems.antt =====
-- Single elements of a list under append and set, and membership of a list of numbers.
use Prim.Native.Nat.{ℕ, zero, suc, ◌<◌}
use mathlib.Core.Path.{◌≡◌, refl, sym, ap, subst, ◌∙◌}
use mathlib.Core.Logic.{◌≢◌, ◌⊎◌, inl, inr}
use native.Mathlib.Decide.{ℕ_discrete}
use mathlib.Core.Bool.{Bool, false, ◌||◌}
use mathlib.Core.List.{List, [], ◌∷◌, ◌++◌}
use mathlib.Core.Option.{some}
use native.Mathlib.Omega.{arith}
use lib_fantuan.Prelude.Tests.{◌==◌}
use lib_fantuan.Prelude.Lists.{length, get_elem?, set}

module _ {ℓ} {A : Type ℓ} where
  pub get_elem?-lt : (xs : List A) (i : ℕ) {x : A} → get_elem? xs i ≡ some x → i < length xs
  get_elem?-lt [] i e = absurd (cc)
  get_elem?-lt (y ∷ ys) zero e = omega arith
  get_elem?-lt (y ∷ ys) (suc i) e = omega (arith, get_elem?-lt ys i e)

  pub get_elem?-set :
      (xs : List A) (i : ℕ) (v : A) → i < length xs → get_elem? (set xs i v) i ≡ some v
  get_elem?-set [] i v h = absurd (omega arith)
  get_elem?-set (x ∷ xs) zero v h = refl
  get_elem?-set (x ∷ xs) (suc i) v h = get_elem?-set xs i v (omega arith)

  pub get_elem?-set_other :
      (xs : List A) (i j : ℕ) (v : A) → j ≢ i → get_elem? (set xs i v) j ≡ get_elem? xs j
  get_elem?-set_other [] i j v h = refl
  get_elem?-set_other (x ∷ xs) zero zero v h = absurd (h refl)
  get_elem?-set_other (x ∷ xs) zero (suc j) v h = refl
  get_elem?-set_other (x ∷ xs) (suc i) zero v h = refl
  get_elem?-set_other (x ∷ xs) (suc i) (suc j) v h =
      get_elem?-set_other xs i j v (λ e. h (ap suc e))

  pub get_elem?-append :
      (xs ys : List A) (i : ℕ) → i < length xs → get_elem? (xs ++ ys) i ≡ get_elem? xs i
  get_elem?-append [] ys i h = absurd (omega arith)
  get_elem?-append (x ∷ xs) ys zero h = refl
  get_elem?-append (x ∷ xs) ys (suc i) h = get_elem?-append xs ys i (omega arith)

  pub get_elem?-append_at : (xs ys : List A) (y : A) → get_elem? (xs ++ y ∷ ys) (length xs) ≡ some y
  get_elem?-append_at [] ys y = refl
  get_elem?-append_at (x ∷ xs) ys y = get_elem?-append_at xs ys y

abbrev pub elem : ℕ → List ℕ → Bool
elem x [] = false
elem x (y ∷ ys) = (x == y) || elem x ys

pub elem-append : (x : ℕ) (xs ys : List ℕ) → elem x (xs ++ ys) ≡ (elem x xs || elem x ys)
elem-append x [] ys = refl
elem-append x (z ∷ zs) ys = ground (arith, elem-append x zs ys)

abbrev pub Distinct : List ℕ → Type 0
Distinct [] = Unit {0}
Distinct (x ∷ xs) = (elem x xs ≡ false) × Distinct xs

pub elem-append_one : (x y : ℕ) (ys : List ℕ) → elem x (ys ++ y ∷ []) ≡ (elem x ys || (x == y))
elem-append_one x y [] = ground arith
elem-append_one x y (z ∷ zs) = ground (arith, elem-append_one x y zs)

pub Distinct-append_one :
    (ys : List ℕ) (y : ℕ) → Distinct ys → elem y ys ≡ false → Distinct (ys ++ y ∷ [])
Distinct-append_one [] y d h = (refl, tt)
Distinct-append_one (z ∷ zs) y d h =
    (elem-append_one z y zs ∙ ground (arith, d.0), Distinct-append_one zs y d.1 (ground arith))

-- An element of a list after one was set is the new one, or was there before.
pub get_elem?-set_inv {ℓ} :
    {A : Type ℓ} (xs : List A) (i j : ℕ) (v : A) {t : A}
    → i < length xs
    → get_elem? (set xs i v) j ≡ some t
    → ((j ≡ i) × (v ≡ t)) ⊎ ((j ≢ i) × (get_elem? xs j ≡ some t))
get_elem?-set_inv xs i j v {t} h e = elim (ℕ_discrete j i) [
  | yes same ↦
      let there : get_elem? (set xs i v) i ≡ some t =
        subst (λ k. get_elem? (set xs i v) k ≡ some t) same e in
      let new : some v ≡ some t = sym (get_elem?-set xs i v h) ∙ there in inl (same, cc)
  | no other ↦ inr (other, sym (get_elem?-set_other xs i j v other) ∙ e)
]
