-- ===== src/Common/Allocator/Tests.antt =====
-- Runs of FTAllocator (common/src/allocator.cpp).
use lib_fantuan.Prelude.{ℕ, ◌+◌, ◌-◌, ◌≡◌, refl, [], ◌∷◌, length, arith}
use lib_fantuan.Common.Allocator.{Allocator, new_allocator, allocate, deallocate}
use lib_fantuan.Common.Allocator.Blocks.{IsFresh}
use lib_fantuan.Common.Allocator.Live.{
  Handed, asked, allocate-Handed, Returned, deallocate-Returned, new_allocator-IsValid,
}

new_memory : (chunk requested : ℕ) → IsFresh new_allocator [] chunk (asked requested new_allocator)
new_memory chunk requested = record { away = λ x h. absurd (cc) }

allocate-Handed_example : Handed [] 20 (allocate 1000 20 new_allocator)
allocate-Handed_example =
    allocate-Handed new_allocator [] [] 1000 20 (omega arith) (omega arith) (new_memory 1000 20)
      new_allocator-IsValid

-- Twenty bytes have an object of 32, and its chunk has 40 of them.
allocate-run : (allocate 1000 20 new_allocator).1 ≡ 1008
unfolding allocate
allocate-run = refl

free-run : length ((allocate 1000 20 new_allocator).0.free_list 3) ≡ 39
unfolding allocate
free-run = refl

abbrev held : Allocator × ℕ
held = allocate 1000 20 new_allocator

block : Handed [] 20 held
block =
    allocate-Handed new_allocator [] [] 1000 20 (omega arith) (omega arith) (new_memory 1000 20)
      new_allocator-IsValid

deallocate-Returned_example :
    Returned
      (held.1 - 8)
      block.objects
      ((held.1 - 8) ∷ [])
      held.0
      (deallocate (held.1 - 8 + 8) held.0)
deallocate-Returned_example =
    deallocate-Returned held.0 block.objects ((held.1 - 8) ∷ []) (held.1 - 8) (ground arith)
      block.valid
