-- ===== src/Common/Allocator/Live.antt =====
-- FTAllocator::allocate and deallocate keep the blocks apart (common/src/allocator.cpp).
use lib_fantuan.Prelude.{
  ℕ, ◌+◌, ◌-◌, ◌%◌, ◌^◌, ◌≤◌, ◌<◌, ◌≡◌, ◌≢◌, inl, inr, refl, sym, ap, subst, ◌∙◌, true, false, List,
  [], ◌∷◌, ◌++◌, ◌==◌, ltb, if◌then◌else◌, arith, Bool-cases, elem,
}
use lib_fantuan.Common.Allocator.{
  Allocator, new_allocator, round_up, index, chunk_bytes, chunk_alloc, link, update, refill,
  default_allocate, allocate, deallocate, take_object,
}
use lib_fantuan.Common.Allocator.Sizes.{
  round_up-small, index-room, index-round_up, chunk_alloc-bounds,
}
use lib_fantuan.Common.Allocator.Carving.{link-bounds, set_sizes-out}
use lib_fantuan.Common.Allocator.Blocks.{IsValid, IsFresh, taken-IsValid, elem-head}
use lib_fantuan.Common.Allocator.Returned.{without, returned-IsValid, freed-IsValid}
use lib_fantuan.Common.Allocator.Refilled.{default-IsValid, refill-IsValid}

-- What allocate asks of malloc where it calls it.
abbrev pub asked : ℕ → Allocator → ℕ
asked requested a =
    if ltb 512 (requested + 8) then requested + 8 else chunk_bytes (round_up (requested + 8) 8) 20 a

-- An object that was handed out, with room for a request.
pub record Handed (out : List ℕ) (requested : ℕ) (r : Allocator × ℕ) : Type 0 where
  pub objects : List ℕ
  pub valid : IsValid r.0 objects ((r.1 - 8) ∷ out)
  pub room : requested + 8 ≤ r.0.obj_size (r.1 - 8)

handed :
    {out : List ℕ} {requested : ℕ} (r : Allocator × ℕ) (objs : List ℕ) (x : ℕ)
    → r.1 ≡ x + 8
    → IsValid r.0 objs (x ∷ out)
    → requested + 8 ≤ r.0.obj_size x
    → Handed out requested r
handed {out} {requested} r objs x e v h =
    let same : x ≡ r.1 - 8 = omega (arith, e) in
    record {
      objects = objs;
      valid = subst (λ k. IsValid r.0 objs (k ∷ out)) same v;
      room = subst (λ k. requested + 8 ≤ r.0.obj_size k) same h;
    }

default-Handed :
    (a : Allocator) (objs out : List ℕ) (chunk requested : ℕ)
    → 512 < requested + 8
    → IsFresh a objs chunk (requested + 8)
    → IsValid a objs out
    → Handed out requested (default_allocate chunk (requested + 8) a)
unfolding default_allocate
default-Handed a objs out chunk requested large fresh v =
    let made =
      default-IsValid a objs out chunk (requested + 8) (omega arith) (λ small. absurd (omega arith))
        fresh v in
    let here : (chunk == chunk) ≡ true = ground arith in
    handed (default_allocate chunk (requested + 8) a) (chunk ∷ objs) chunk refl made
      (rw here (omega arith))

refill-size :
    (a : Allocator) (chunk b : ℕ)
    → 8 ≤ b
    → b ≤ 512
    → a.total_size (index b) < 2 ^ 31
    → (refill chunk b a).0.obj_size chunk ≡ b
unfolding refill
refill-size a chunk b wide small few =
    let (two, fits) = chunk_alloc-bounds b a (omega (arith, wide)) small few in
    let count = (chunk_alloc b 20 a).1 in
    let many : (count == 1) ≡ false = ground (arith, two) in
    let linked = link b (count - 2) (chunk + b) in
    let absent : elem chunk linked ≡ false = elim (Bool-cases (elem chunk linked)) [
      | inl listed ↦
          let bounds = link-bounds b (count - 2) (chunk + b) chunk listed in
          absurd (omega (arith, bounds.0, wide))
      | inr out_of_it ↦ out_of_it
    ] in
    let here : (chunk == chunk) ≡ true = ground arith in
    let first : update chunk b a.obj_size chunk ≡ b = rw here in
    rw many (set_sizes-out b linked (update chunk b a.obj_size) chunk absent ∙ first)

refill-ptr : (a : Allocator) (chunk b : ℕ) → (refill chunk b a).1 ≡ chunk + 8
unfolding refill
refill-ptr a chunk b = elim (Bool-cases ((chunk_alloc b 20 a).1 == 1)) [
  | inl one ↦ rw one
  | inr many ↦ rw many
]

-- A small object, from the list of its class or from a new chunk.
take-Handed :
    (a : Allocator) (objs out : List ℕ) (chunk requested : ℕ) (free : List ℕ)
    → requested + 8 ≤ 512
    → a.total_size (index (requested + 8)) < 2 ^ 31
    → a.free_list (index (requested + 8)) ≡ free
    → IsFresh a objs chunk (chunk_bytes (round_up (requested + 8) 8) 20 a)
    → IsValid a objs out
    → Handed out requested (take_object chunk (requested + 8) a free)
unfolding take_object
take-Handed a objs out chunk requested [] small few e fresh v =
    let b = round_up (requested + 8) 8 in
    let size = round_up-small (requested + 8) small in
    let class = index-round_up (requested + 8) (omega arith) small in
    let wide : 8 ≤ b = omega (arith, size) in
    let fits : b ≤ 512 = omega (arith, size, small) in
    let few_b : a.total_size (index b) < 2 ^ 31 =
      subst (λ k. a.total_size k < 2 ^ 31) (sym class) few in
    let (more, made) =
      refill-IsValid a objs out chunk b wide fits (omega (arith, size)) few_b
        (ap a.free_list class ∙ e) fresh v in
    handed (refill chunk b a) ((chunk ∷ more) ++ objs) chunk (refill-ptr a chunk b) made
      (omega (arith, refill-size a chunk b wide fits few_b, size))
take-Handed a objs out chunk requested (x ∷ xs) small few e fresh v =
    let i = index (requested + 8) in
    let head : elem x (a.free_list i) ≡ true = ap (elem x) e ∙ elem-head x xs in
    let (known, class, low) = v.free_known i x head in
    handed (take_object chunk (requested + 8) a (x ∷ xs)) objs x refl
      (taken-IsValid a objs out i x xs e v)
      (index-room (a.obj_size x) (requested + 8) (v.sized x known) low (v.rounded x known low)
        (omega arith) small class)

-- The block that allocate hands out has room for what was requested, was not handed out before, and meets no other
-- block and no free object; and the allocator stays well-formed.
-- Conditions: the size and its header have 32 bits; what malloc gave for the class is less than 2 GiB; where
-- allocate calls malloc, the new memory does not meet the objects that the allocator has.
pub allocate-Handed :
    (a : Allocator) (objs out : List ℕ) (chunk requested : ℕ)
    → requested + 8 < 2 ^ 32
    → a.total_size (index (requested + 8)) < 2 ^ 31
    → IsFresh a objs chunk (asked requested a)
    → IsValid a objs out
    → Handed out requested (allocate chunk requested a)
unfolding allocate
allocate-Handed a objs out chunk requested wraps_not few fresh v =
    let whole : (requested + 8) % 2 ^ 32 ≡ requested + 8 = omega arith in
    elim (Bool-cases (ltb 512 (requested + 8))) [
      | inl large ↦
          let memory : IsFresh a objs chunk (requested + 8) = rw large at fresh in
          rw (whole, large)
            (default-Handed a objs out chunk requested (ground (arith, large)) memory v)
      | inr small ↦
          let memory : IsFresh a objs chunk (chunk_bytes (round_up (requested + 8) 8) 20 a) =
            rw small at fresh in
          rw (whole, small)
            (take-Handed a objs out chunk requested (a.free_list (index (requested + 8)))
              (ground (arith, small)) few refl memory v)
    ]

-- What giving back the block at `x` leaves: a block of a class is the first of the list of its class, which is
-- else as it was, and a large one is the system's; the other lists and all sizes stay.
pub record Returned (x : ℕ) (objs out : List ℕ) (a b : Allocator) : Type 0 where
  pub small :
      a.obj_size x ≤ 512
      → IsValid b objs (without x out)
        × (b.free_list (index (a.obj_size x)) ≡ x ∷ a.free_list (index (a.obj_size x)))
  pub large :
      512 < a.obj_size x
      → IsValid b (without x objs) (without x out)
        × (b.free_list (index (a.obj_size x)) ≡ a.free_list (index (a.obj_size x)))
  pub others : (j : ℕ) → j ≢ index (a.obj_size x) → b.free_list j ≡ a.free_list j
  pub sizes : b.obj_size ≡ a.obj_size

update-same {ℓ} : {A : Type ℓ} (i : ℕ) (v : A) (f : ℕ → A) → update i v f i ≡ v
update-same i v f = let here : (i == i) ≡ true = ground arith in rw here

update-other {ℓ} : {A : Type ℓ} (i j : ℕ) (v : A) (f : ℕ → A) → j ≢ i → update i v f j ≡ f j
update-other i j v f h = let other : (j == i) ≡ false = ground (arith, h) in rw other

-- A block that was handed out goes back: a block of a class becomes the first of the list of its class, and a larger
-- one goes to the system; the other free lists and the sizes stay, and the allocator stays
-- well-formed with that block no longer handed out.
pub deallocate-Returned :
    (a : Allocator) (objs out : List ℕ) (x : ℕ)
    → elem x out ≡ true
    → IsValid a objs out
    → Returned x objs out a (deallocate (x + 8) a)
unfolding deallocate
deallocate-Returned a objs out x h v =
    let here : x + 8 - 8 ≡ x = omega arith in
    let i = index (a.obj_size x) in
    elim (Bool-cases (ltb 512 (a.obj_size x))) [
      | inl large ↦
          let back : Returned x objs out a a = record {
            small = λ few. absurd (ground (arith, large, few));
            large = λ many. (freed-IsValid a objs out x h v, refl);
            others = λ j other. refl;
            sizes = refl;
          } in
          rw (here, large) back
      | inr small ↦
          let list = x ∷ a.free_list i in
          let b = record a { free_list = update i list a.free_list } in
          let back : Returned x objs out a b = record {
            small = λ few. (returned-IsValid a objs out x h few v, update-same i list a.free_list);
            large = λ many. absurd (ground (arith, small, many));
            others = λ j other. update-other i j list a.free_list other;
            sizes = refl;
          } in
          rw (here, small) back
    ]

pub new_allocator-IsValid : IsValid new_allocator [] []
new_allocator-IsValid = record {
  apart = λ x y hx. absurd (cc);
  sized = λ x h. absurd (cc);
  rounded = λ x h. absurd (cc);
  free_known = λ i x h. absurd (cc);
  free_once = λ i. tt;
  free_in = λ i x h. absurd (cc);
  out_known = λ x h. absurd (cc);
  out_once = tt;
}
