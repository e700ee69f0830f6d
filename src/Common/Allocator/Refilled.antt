-- ===== src/Common/Allocator/Refilled.antt =====
-- The objects that FTAllocator makes of new memory (common/src/allocator.cpp).
use lib_fantuan.Prelude.{
  ℕ, suc, ◌+◌, ◌-◌, ◌*◌, ◌%◌, ◌^◌, ◌≤◌, ◌<◌, ◌≡◌, inl, inr, refl, sym, ap, subst, ◌∙◌, true, false,
  List, [], ◌∷◌, ◌++◌, ◌==◌, arith, Bool-cases, elem, Distinct,
}
use lib_fantuan.Common.Allocator.{
  Allocator, index, chunk_bytes, chunk_alloc, link, update, set_sizes, refill, default_allocate,
}
use lib_fantuan.Common.Allocator.Sizes.{chunk_alloc-bounds}
use lib_fantuan.Common.Allocator.Carving.{
  Apart, link-bounds, link-Apart, link-Distinct, set_sizes-in, set_sizes-out,
}
use lib_fantuan.Common.Allocator.Blocks.{IsValid, IsFresh, update-cases, elem-head}
use lib_fantuan.Common.Allocator.Added.{Added, made-IsValid}

-- A single object, as DefaultAllocator makes it.
pub default-IsValid :
    (a : Allocator) (objs out : List ℕ) (chunk bytes : ℕ)
    → 8 ≤ bytes
    → (bytes ≤ 512 → bytes % 8 ≡ 0)
    → IsFresh a objs chunk bytes
    → IsValid a objs out
    → IsValid (default_allocate chunk bytes a).0 (chunk ∷ objs) (chunk ∷ out)
unfolding default_allocate
default-IsValid a objs out chunk bytes wide round fresh v =
    let only : (y : ℕ) → elem y (chunk ∷ []) ≡ true → y ≡ chunk = λ y k. ground (arith, k) in
    let d : Added a.obj_size (update chunk bytes a.obj_size) bytes objs (chunk ∷ []) = record {
      wide = wide;
      round = round;
      size_new = λ y k. let here : (y == chunk) ≡ true = ground (arith, k) in rw here;
      size_old = λ y k. let other : (y == chunk) ≡ false = ground (arith, k) in rw other;
      apart_new = λ y z ky kz other. absurd (other (only y ky ∙ sym (only z kz)));
      away = λ x y kx ky.
          subst (λ k. Apart x (a.obj_size x) k bytes) (sym (only y ky)) (fresh.away x kx);
    } in
    made-IsValid 0 [] d v (elem-head chunk []) (λ j y k. inr k) v.free_once (λ y k. absurd (cc))

-- The part of a chunk that one of its objects takes.
within : (x m c n y b : ℕ) → Apart x m c n → c ≤ y → y + b ≤ c + n → Apart x m y b
within x m c n y b (inl left) low high = inl (omega arith)
within x m c n y b (inr right) low high = inr (omega arith)

-- The sizes after a chunk was carved.
carved-Added :
    (f : ℕ → ℕ) (objs : List ℕ) (b i s n : ℕ)
    → 8 ≤ b
    → (b ≤ 512 → b % 8 ≡ 0)
    → suc (suc i) * b ≤ n
    → ((x : ℕ) → elem x objs ≡ true → Apart x (f x) s n)
    → Added f (set_sizes b (link b i (s + b)) (update s b f)) b objs (s ∷ link b i (s + b))
unfolding link
carved-Added f objs b i s n wide round room fresh =
    let linked = link b i (s + b) in
    record {
      wide = wide;
      round = round;
      size_new = λ y k. elim (Bool-cases (elem y linked)) [
        | inl listed ↦ set_sizes-in b linked (update s b f) y listed
        | inr absent ↦
            let here : (y == s) ≡ true = ground (arith, k, absent) in
            let first : update s b f y ≡ b = rw here in
            set_sizes-out b linked (update s b f) y absent ∙ first
      ];
      size_old = λ y k.
          let absent : elem y linked ≡ false = ground (arith, k) in
          let other : (y == s) ≡ false = ground (arith, k) in
          let kept : update s b f y ≡ f y = rw other in
          set_sizes-out b linked (update s b f) y absent ∙ kept;
      apart_new = λ y z ky kz other. link-Apart b (suc i) s y z ky kz other;
      away = λ x y kx ky.
          let bounds = link-bounds b (suc i) s y ky in
          within x (f x) s n y b (fresh x kx) bounds.0 (omega (arith, bounds.1, room));
    }

-- The objects of a chunk: the first is handed out, and the others are the free list of its class.
carved-IsValid :
    (a c : Allocator) (objs out : List ℕ) (b i s n : ℕ)
    → 8 ≤ b
    → b ≤ 512
    → b % 8 ≡ 0
    → suc (suc i) * b ≤ n
    → a.free_list (index b) ≡ []
    → IsFresh a objs s n
    → IsValid a objs out
    → IsValid
        (record c {
          free_list = update (index b) (link b i (s + b)) a.free_list;
          obj_size = set_sizes b (link b i (s + b)) (update s b a.obj_size);
        })
        ((s ∷ link b i (s + b)) ++ objs)
        (s ∷ out)
carved-IsValid a c objs out b i s n wide small even room none_free fresh v =
    let linked = link b i (s + b) in
    let class = index b in
    made-IsValid class linked
      (carved-Added a.obj_size objs b i s n wide (λ le. even) room fresh.away) v
      (elem-head s linked)
      (λ j y k. elim (update-cases class j linked a.free_list) [
        | inl (here, list) ↦ inl (here, sym (ap (elem y) list) ∙ k)
        | inr (there, list) ↦ inr (sym (ap (elem y) list) ∙ k)
      ])
      (λ j. elim (update-cases class j linked a.free_list) [
        | inl (here, list) ↦
            subst Distinct (sym list) (link-Distinct b i (s + b) (omega (arith, wide)))
        | inr (there, list) ↦ subst Distinct (sym list) (v.free_once j)
      ])
      (λ y k.
        let bounds = link-bounds b i (s + b) y k in
        (ground (arith, k), λ same. omega (arith, bounds.0, same, wide), refl, small))

-- What a refill makes: the objects of its chunk.
pub refill-IsValid :
    (a : Allocator) (objs out : List ℕ) (chunk b : ℕ)
    → 8 ≤ b
    → b ≤ 512
    → b % 8 ≡ 0
    → a.total_size (index b) < 2 ^ 31
    → a.free_list (index b) ≡ []
    → IsFresh a objs chunk (chunk_bytes b 20 a)
    → IsValid a objs out
    → (more : List ℕ) × IsValid (refill chunk b a).0 ((chunk ∷ more) ++ objs) (chunk ∷ out)
unfolding refill
refill-IsValid a objs out chunk b wide small even few none_free fresh v =
    let (c, count) = chunk_alloc b 20 a in
    let (two, fits) = chunk_alloc-bounds b a (omega (arith, wide)) small few in
    let many : (count == 1) ≡ false = ground (arith, two) in
    let all : suc (suc (count - 2)) ≡ count = omega (arith, two) in
    let room : suc (suc (count - 2)) * b ≤ chunk_bytes b 20 a =
      subst (λ k. k * b ≤ chunk_bytes b 20 a) (sym all) fits in
    let made =
      carved-IsValid a c objs out b (count - 2) chunk (chunk_bytes b 20 a) wide small even room
        none_free fresh v in
    (link b (count - 2) (chunk + b), rw many made)
