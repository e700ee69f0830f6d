-- ===== src/Common/TypeList.antt =====
-- Lists of types, and NumberPower (common/src/type_list.h, common/src/util.cpp). A type is known by a
-- number, which is what the templates do with it: they only tell types apart.
mod Tests
use lib_fantuan.Prelude.{
  ℕ, suc, zero, ◌+◌, ◌/◌, ◌^◌, ◌<◌, ◌≤◌, ◌≡◌, ◌≢◌, refl, sym, ap, ◌∙◌, inl, inr, Bool, true, false,
  Option, none, some, List, [], ◌∷◌, length, get_elem?, ◌==◌, ltb, not, ◌&&◌, if◌then◌else◌, arith,
  Bool-cases, elem, Distinct,
}

-- TypeList and NullType
pub data TypeList : Type 0 where
  null_type : TypeList
  type_list : ℕ → TypeList → TypeList

abbrev pub typelist_2 : ℕ → ℕ → TypeList
typelist_2 a b = type_list a (type_list b null_type)

abbrev pub typelist_4 : ℕ → ℕ → ℕ → ℕ → TypeList
typelist_4 a b c d = type_list a (type_list b (typelist_2 c d))

-- Length
abbrev pub length_of : TypeList → ℕ
length_of null_type = 0
length_of (type_list t u) = 1 + length_of u

-- TypeAt, which has no instance beyond the end.
abbrev pub type_at : TypeList → ℕ → Option ℕ
type_at null_type i = none
type_at (type_list t u) zero = some t
type_at (type_list t u) (suc i) = type_at u i

-- IsSameType
abbrev pub is_same_type : ℕ → ℕ → Bool
is_same_type t u = t == u

-- The sum in IndexOf, which keeps -1.
abbrev pub one_more : Option ℕ → Option ℕ
one_more none = none
one_more (some i) = some (1 + i)

-- IndexOf, where `none` is -1.
unfoldable pub index_of : TypeList → ℕ → Option ℕ
index_of null_type t = none
index_of (type_list u rest) t =
    let temp = index_of rest t in if is_same_type u t then some 0 else one_more temp

-- Select
abbrev pub select {ℓ} : {A : Type ℓ} → Bool → A → A → A
select true t u = t
select false t u = u

one_more-some : (o : Option ℕ) (i : ℕ) → one_more o ≡ some i → (j : ℕ) × (o ≡ some j) × (1 + j ≡ i)
one_more-some none i e = absurd (cc)
one_more-some (some j) i e = (j, refl, cc)

one_more-none : (o : Option ℕ) → one_more o ≡ none → o ≡ none
one_more-none none e = refl
one_more-none (some j) e = absurd (cc)

-- The type at the index that IndexOf gives is the type that was looked for, and the index is below
-- the length.
pub type_at-index_of :
    (l : TypeList) (t i : ℕ) → index_of l t ≡ some i → (type_at l i ≡ some t) × (i < length_of l)
unfolding index_of
type_at-index_of null_type t i e = absurd (cc)
type_at-index_of (type_list u rest) t i e = elim (Bool-cases (u == t)) [
  | inl here ↦
      let found : some 0 ≡ some i = rw here at e in
      let first : 0 ≡ i = cc in
      let same : u ≡ t = ground (arith, here) in
      (sym (ap (type_at (type_list u rest)) first) ∙ ap some same, omega (arith, first))
  | inr other ↦
      let later : one_more (index_of rest t) ≡ some i = rw other at e in
      let (j, found, next) = one_more-some (index_of rest t) i later in
      let (there, below) = type_at-index_of rest t j found in
      let step : suc j ≡ i = omega (arith, next) in
      (sym (ap (type_at (type_list u rest)) step) ∙ there, omega (arith, below, step))
]

-- IndexOf is -1 exactly for the types that are at no index.
pub index_of-none : (l : TypeList) (t : ℕ) → index_of l t ≡ none → (i : ℕ) → type_at l i ≢ some t
unfolding index_of
index_of-none null_type t e i at = absurd (cc)
index_of-none (type_list u rest) t e zero at = elim (Bool-cases (u == t)) [
  | inl here ↦ let found : index_of (type_list u rest) t ≡ some 0 = rw here in absurd (cc)
  | inr other ↦ let same : u ≡ t = cc in ground (arith, other, same)
]
index_of-none (type_list u rest) t e (suc i) at = elim (Bool-cases (u == t)) [
  | inl here ↦ let found : index_of (type_list u rest) t ≡ some 0 = rw here in absurd (cc)
  | inr other ↦
      let later : one_more (index_of rest t) ≡ none = rw other at e in
      index_of-none rest t (one_more-none (index_of rest t) later) i at
]

-- NumberPower: the loop, by the rounds that are left.
unfoldable pub shift_loop : ℕ → ℕ → ℕ → ℕ
shift_loop zero i number = i
shift_loop (suc left) i number =
    let rest = shift_loop left (i + 1) (number / 2 ^ i) in if number == 0 then i else rest

unfoldable pub number_power : ℕ → ℕ
unfolding shift_loop
number_power number = shift_loop 31 0 number

-- The shifts add up, as iNumber is shifted by i in every round: for 2 ^ 10 the result is 6 and not 11.
number_power-run : number_power (2 ^ 10) ≡ 6
unfolding number_power
number_power-run = refl
