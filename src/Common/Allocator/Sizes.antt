-- ===== src/Common/Allocator/Sizes.antt =====
-- Sizes, classes and chunks (common/src/allocator.h, common/src/allocator.cpp, ROUND_UP of common/src/util.h).
use Prim.Native.Nat.{bit_and, digits, bit_and-bitwise}
use native.Mathlib.Nat.{div-mul-le_self, le-div_iff_mul-le}
use lib_fantuan.Prelude.{
  ℕ, suc, zero, ◌+◌, ◌-◌, ◌*◌, ◌/◌, ◌%◌, ◌^◌, ◌≤◌, ◌<◌, ◌≡◌, refl, sym, Bool, true, ◌==◌, ◌&&◌,
  arith, min, Bool-cases, subst, inl, inr,
}
use lib_fantuan.Common.Allocator.{Allocator, round_up, index, chunk_bytes, chunk_alloc}

digits-le : (n a b : ℕ) → digits (λ d. zero) min n a b ≤ a
digits-le zero a b = omega arith
digits-le (suc n) zero b = omega arith
digits-le (suc n) (suc a) b = omega (arith, digits-le n (suc a / 2) (b / 2))

bit_and-le : (a b : ℕ) → bit_and a b ≤ a
bit_and-le a b =
    let same : bit_and a b ≡ digits (λ d. zero) min a a b = λ i. bit_and-bitwise a b i in
    subst (λ k. k ≤ a) (sym same) (digits-le a a b)

-- Every property of the numbers up to a bound, by trying each.
every : (ℕ → Bool) → ℕ → Bool
every p zero = p zero
every p (suc n) = every p n && p (suc n)

every-le : (p : ℕ → Bool) (n k : ℕ) → every p n ≡ true → k ≤ n → p k ≡ true
unfolding every
every-le p zero k h small = let same : zero ≡ k = omega arith in subst (λ j. p j ≡ true) same h
every-le p (suc n) k h small = elim (Bool-cases (k == suc n)) [
  | inl last ↦
      let same : suc n ≡ k = ground (arith, last) in
      subst (λ j. p j ≡ true) same (ground (arith, h))
  | inr before ↦ every-le p n k (ground (arith, h)) (ground (arith, before))
]

rounded-all : every (λ v. round_up v 8 == (v + 7) / 8 * 8) 512 ≡ true
unfolding every round_up
rounded-all = refl

-- A size that is a small object's, rounded up to a multiple of 8.
pub round_up-small : (v : ℕ) → v ≤ 512 → round_up v 8 ≡ (v + 7) / 8 * 8
round_up-small v h =
    let same = every-le (λ k. round_up k 8 == (k + 7) / 8 * 8) 512 v rounded-all h in
    ground (arith, same)

-- A chunk is at least forty objects, and at most that and a sixteenth of what its class has.
pub chunk_bytes-bounds :
    (bytes : ℕ) (a : Allocator)
    → 1 ≤ bytes
    → bytes ≤ 512
    → a.total_size (index bytes) < 2 ^ 31
    → (bytes * 40 ≤ chunk_bytes bytes 20 a) × (chunk_bytes bytes 20 a < 2 ^ 31)
unfolding chunk_bytes round_up
chunk_bytes-bounds bytes a some_bytes small few =
    let part =
      bit_and-le ((a.total_size (index bytes) / 16 + (bytes - 1)) % 2 ^ 32)
        (2 ^ 32 - 1 - (bytes - 1)) in
    omega (arith, part)

-- A chunk holds the objects that `_refill` makes of it, which are two or more.
pub chunk_alloc-bounds :
    (bytes : ℕ) (a : Allocator)
    → 1 ≤ bytes
    → bytes ≤ 512
    → a.total_size (index bytes) < 2 ^ 31
    → (2 ≤ (chunk_alloc bytes 20 a).1)
      × ((chunk_alloc bytes 20 a).1 * bytes ≤ chunk_bytes bytes 20 a)
unfolding chunk_alloc
chunk_alloc-bounds bytes a some_bytes small few =
    let bounds = chunk_bytes-bounds bytes a some_bytes small few in
    let fits = div-mul-le_self (chunk_bytes bytes 20 a) bytes in
    ((le-div_iff_mul-le some_bytes).1 (omega (arith, bounds.0)), fits)

-- The class of a small size and of its multiple of 8.
pub index-round_up : (v : ℕ) → 8 ≤ v → v ≤ 512 → index (round_up v 8) ≡ index v
unfolding index
index-round_up v h small = let same = round_up-small v small in rw same (omega arith)

-- An object of a class has room for every size of that class.
pub index-room :
    (m v : ℕ) → 8 ≤ m → m ≤ 512 → m % 8 ≡ 0 → 8 ≤ v → v ≤ 512 → index m ≡ index v → v ≤ m
unfolding index
index-room m v hm sm even hv sv same = omega arith
