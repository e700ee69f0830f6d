-- ===== src/Prelude/Memory.antt =====
-- Byte buffers: bounded copies, and 16-bit little-endian words.
-- A buffer is the list of its bytes; an access outside it is a fault, `none`.
use Prim.Native.Nat.{ℕ, ◌+◌, ◌-◌, ◌*◌, ◌/◌, ◌%◌, ◌^◌, ◌≤◌, ◌<◌}
use mathlib.Core.Path.{◌≡◌, refl, ap}
use mathlib.Core.Logic.{inl, inr}
use mathlib.Core.List.{List, [], ◌∷◌, ◌++◌}
use mathlib.Core.Option.{Option, none, some}
use native.Mathlib.Omega.{arith}
use lib_fantuan.Prelude.Tests.{leb, if◌then◌else◌, le→leb, lt→leb_false, leb→le, Bool-cases}
use lib_fantuan.Prelude.Lists.{
  length, get_or, take, drop, length-append, length-take, length-drop, take-append_ge, take_all,
  take-append_le, get_or-append,
}

-- `memcpy(dst + off, src, |src|)` into the array `dst`.
unfoldable pub memcpy {ℓ} : {A : Type ℓ} → List A → ℕ → List A → Option (List A)
memcpy dst off src =
    if leb (off + length src) (length dst)
    then some (take off dst ++ (src ++ drop (off + length src) dst))
    else none

-- The `n` elements from `src + off` on.
unfoldable pub read {ℓ} : {A : Type ℓ} → List A → ℕ → ℕ → Option (List A)
read src off n = if leb (off + n) (length src) then some (take n (drop off src)) else none

-- A prefix of three parts that ends after the second.
pub take_two {ℓ} :
    {A : Type ℓ} (n : ℕ) (xs ys zs : List A)
    → n ≡ length xs + length ys
    → take n (xs ++ (ys ++ zs)) ≡ xs ++ ys
take_two n xs ys zs h = rw (
  take-append_ge n xs (ys ++ zs) (omega arith),
  take-append_le (n - length xs) ys zs (omega arith),
  take_all (n - length xs) ys (omega arith),
)

pub read_lem {ℓ} :
    {A : Type ℓ} (src : List A) (off n : ℕ)
    → off + n ≤ length src
    → read src off n ≡ some (take n (drop off src))
unfolding read
read_lem src off n h = rw (le→leb (off + n) (length src) h)

module _ {ℓ} {A : Type ℓ} (dst : List A) (off : ℕ) (src : List A) where
  pub memcpy_lem :
      off + length src ≤ length dst
      → memcpy dst off src ≡ some (take off dst ++ (src ++ drop (off + length src) dst))
  unfolding memcpy
  memcpy_lem h = rw (le→leb _ _ h)

  pub memcpy_fault : length dst < off + length src → memcpy dst off src ≡ none
  unfolding memcpy
  memcpy_fault h = rw (lt→leb_false _ _ h)

  -- A copy that does not fault stays inside the array, and this is its result.
  pub memcpy_inv :
      {d : List A}
      → memcpy dst off src ≡ some d
      → (off + length src ≤ length dst) × (d ≡ take off dst ++ (src ++ drop (off + length src) dst))
  unfolding memcpy
  memcpy_inv {d} e = elim (Bool-cases (leb (off + length src) (length dst))) [
    | inl fits ↦ (leb→le _ _ fits, cc (rw fits at e))
    | inr over ↦ cc (rw over at e)
  ]

  pub length-memcpy : {d : List A} → memcpy dst off src ≡ some d → length d ≡ length dst
  length-memcpy {d} e = omega (
    arith,
    (memcpy_inv e).0,
    ap length (memcpy_inv e).1,
    length-append (take off dst) (src ++ drop (off + length src) dst),
    length-append src (drop (off + length src) dst),
    length-take off dst,
    length-drop (off + length src) dst,
  )

  -- After the copy the array begins with what stood before `off`, then the copied elements.
  pub take-memcpy :
      {d : List A} → memcpy dst off src ≡ some d → take (off + length src) d ≡ take off dst ++ src
  take-memcpy {d} e = rw (memcpy_inv e).1 (
      take_two (off + length src) (take off dst) src (drop (off + length src) dst)
        (omega (arith, (memcpy_inv e).0, length-take off dst)))

-- `value` as two bytes, the low one first.
unfoldable pub le16 : ℕ → List ℕ
le16 value = (value % 256) ∷ (value / 256 % 256) ∷ []

-- The 16-bit word at `buf + off`.
unfoldable pub get_le16 : List ℕ → ℕ → ℕ
get_le16 buf off = get_or buf off 0 + 256 * get_or buf (off + 1) 0

pub length-le16 : (v : ℕ) → length (le16 v) ≡ 2
unfolding le16
length-le16 v = refl

pub get_le16_lem : (v : ℕ) (xs : List ℕ) → v < 2 ^ 16 → get_le16 (le16 v ++ xs) 0 ≡ v
unfolding le16 get_le16
get_le16_lem v xs h = omega arith

-- A word that lies in the first part of a buffer.
pub get_le16-append :
    (xs ys : List ℕ) (off : ℕ) → off + 2 ≤ length xs → get_le16 (xs ++ ys) off ≡ get_le16 xs off
unfolding get_le16
get_le16-append xs ys off h =
    omega (
      arith,
      get_or-append xs ys off 0 (omega arith),
      get_or-append xs ys (off + 1) 0 (omega arith),
    )
