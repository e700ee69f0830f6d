-- ===== src/Common/Allocator.antt =====
-- FTAllocator and DefaultAllocator (common/src/allocator.h, common/src/allocator.cpp), in a 64-bit build,
-- where `data` is 8 bytes behind the start of an object. Objects are known by their addresses; the
-- address that malloc returns is an argument. The calls that hold the mutex are single steps.
pub mod Sizes
pub mod Carving
pub mod Blocks
pub mod Returned
pub mod Added
pub mod Refilled
pub mod Live
mod Tests
use Prim.Native.Nat.{bit_and}
use lib_fantuan.Prelude.{
  ℕ, suc, zero, ◌+◌, ◌-◌, ◌*◌, ◌/◌, ◌%◌, ◌^◌, Bool, List, [], ◌∷◌, ltb, ◌==◌, if◌then◌else◌,
}

abbrev pub object_offset : ℕ
object_offset = 8

abbrev pub alignment : ℕ
alignment = 8

abbrev pub max_bytes : ℕ
max_bytes = 512

-- ROUND_UP, in 32 bits.
unfoldable pub round_up : ℕ → ℕ → ℕ
round_up value mul = bit_and ((value + (mul - 1)) % 2 ^ 32) (2 ^ 32 - 1 - (mul - 1))

-- _index, in 32 bits. It is beyond the 64 classes only for 0, which is 2 ^ 32 - 8 bytes with their header.
unfoldable pub index : ℕ → ℕ
index bytes = ((bytes + (alignment - 1)) % 2 ^ 32 / alignment + (2 ^ 32 - 1)) % 2 ^ 32

-- The static members, by class, and the field obj_size of every object, by its address. The lists run along
-- free_list_link.
pub record Allocator : Type 0 where
  pub free_list : ℕ → List ℕ
  pub total_size : ℕ → ℕ
  pub obj_size : ℕ → ℕ

abbrev pub new_allocator : Allocator
new_allocator = record { free_list = λ i. []; total_size = λ i. 0; obj_size = λ x. 0 }

abbrev pub update {ℓ} : {A : Type ℓ} → ℕ → A → (ℕ → A) → ℕ → A
update i v f j = if j == i then v else f j

-- The bytes that _chunk_alloc takes from malloc for `nobject` objects: twice as many, and a part of what the class
-- has already.
unfoldable pub chunk_bytes : ℕ → ℕ → Allocator → ℕ
unfolding round_up index
chunk_bytes bytes nobject a =
    (bytes * nobject * 2 + round_up (a.total_size (index bytes) / 16) bytes) % 2 ^ 32

-- _chunk_alloc: the number of objects of the chunk, and the total size.
unfoldable pub chunk_alloc : ℕ → ℕ → Allocator → Allocator × ℕ
unfolding chunk_bytes
chunk_alloc bytes nobject a =
    let new_bytes = chunk_bytes bytes nobject a in
    let i = index bytes in
    (
      record a { total_size = update i ((a.total_size i + new_bytes) % 2 ^ 32) a.total_size },
      new_bytes / bytes,
    )

-- The loop of _refill from `next_obj` on: the list that it links.
unfoldable pub link : ℕ → ℕ → ℕ → List ℕ
link bytes zero next_obj = next_obj ∷ []
link bytes (suc i) next_obj = next_obj ∷ link bytes i (next_obj + bytes)

-- The stores of obj_size.
abbrev pub set_sizes : ℕ → List ℕ → (ℕ → ℕ) → ℕ → ℕ
set_sizes bytes [] f = f
set_sizes bytes (x ∷ xs) f = update x bytes (set_sizes bytes xs f)

-- _refill, where malloc returns `chunk`.
unfoldable pub refill : ℕ → ℕ → Allocator → Allocator × ℕ
unfolding chunk_alloc link
refill chunk bytes a =
    let (b, nobject) = chunk_alloc bytes 20 a in
    let first = record b { obj_size = update chunk bytes b.obj_size } in
    if nobject == 1
    then (first, chunk + object_offset)
    else (let linked = link bytes (nobject - 2) (chunk + bytes) in
        (
          record first {
            free_list = update (index bytes) linked first.free_list;
            obj_size = set_sizes bytes linked first.obj_size;
          },
          chunk + object_offset,
        ))

-- DefaultAllocator::allocate
unfoldable pub default_allocate : ℕ → ℕ → Allocator → Allocator × ℕ
default_allocate chunk bytes a =
    (record a { obj_size = update chunk bytes a.obj_size }, chunk + object_offset)

-- The rest of allocate, by the free list of the class.
unfoldable pub take_object : ℕ → ℕ → Allocator → List ℕ → Allocator × ℕ
unfolding refill
take_object chunk bytes a [] = refill chunk (round_up bytes alignment) a
take_object chunk bytes a (x ∷ xs) =
    (record a { free_list = update (index bytes) xs a.free_list }, x + object_offset)

-- FTAllocator::allocate, where malloc returns `chunk` if it is called.
unfoldable pub allocate : ℕ → ℕ → Allocator → Allocator × ℕ
unfolding default_allocate take_object
allocate chunk requested a =
    let bytes = (requested + object_offset) % 2 ^ 32 in
    if ltb max_bytes bytes
    then default_allocate chunk bytes a
    else take_object chunk bytes a (a.free_list (index bytes))

-- FTAllocator::deallocate. DefaultAllocator gives the object back to free.
unfoldable pub deallocate : ℕ → Allocator → Allocator
deallocate ptr a =
    let x = ptr - object_offset in
    if ltb max_bytes (a.obj_size x)
    then a
    else (let i = index (a.obj_size x) in
        record a { free_list = update i (x ∷ a.free_list i) a.free_list })
