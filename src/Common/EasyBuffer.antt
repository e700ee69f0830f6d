-- ===== src/Common/EasyBuffer.antt =====
-- EasyBuffer (common/src/easy_buffer.h, common/src/easy_buffer.cpp): bytes that are pushed and
-- popped at one end of a block of memory. A pointer into the block is its offset; `none` is an
-- access outside a block.
pub mod Laws
pub mod Items
mod Tests
use lib_fantuan.Prelude.{
  ℕ, ◌+◌, ◌-◌, ◌%◌, ◌^◌, Bool, true, false, Option, none, some, List, [], ◌∷◌, length, replicate,
  leb, ltb, if◌then◌else◌, memcpy, read,
}

-- `block` is the memory at `m_pData`, `tail` is `m_pTail - m_pData`.
pub record EasyBuffer : Type 0 where
  pub block : List ℕ
  pub tail : ℕ
  pub max_size : ℕ
  pub size : ℕ

-- The constructor, where the allocation succeeds.
unfoldable pub create : ℕ → EasyBuffer
create max_size = record { block = replicate max_size 0; tail = 0; max_size = max_size; size = 0 }

-- The part of `Push` behind its test.
append_item : EasyBuffer → List ℕ → Option (EasyBuffer × Bool)
append_item b item = elim (memcpy b.block b.tail item) [
  | none ↦ none
  | some block ↦ some (
    record b { block = block; tail = b.tail + length item; size = (b.size + length item) % 2 ^ 32 },
    true,
  )
]

-- `Push` of the bytes of `item`. The sum in the test has 32 bits.
unfoldable pub push : EasyBuffer → List ℕ → Option (EasyBuffer × Bool)
unfolding append_item
push b item =
    if leb b.max_size ((b.size + length item) % 2 ^ 32) then some (b, false) else append_item b item

-- The part of `Pop` that moves `n` bytes to the memory `dst`.
take_item : EasyBuffer → List ℕ → ℕ → Option (EasyBuffer × List ℕ × ℕ)
take_item b dst n = elim (read b.block (b.tail - n) n) [
  | none ↦ none
  | some bytes ↦ elim (memcpy dst 0 bytes) [
    | none ↦ none
    | some dst' ↦ some (record b { tail = b.tail - n; size = b.size - n }, dst', n)
  ]
]

-- `Pop` of at most `n` bytes. `dst` is the memory at `pItem`, `none` where `pItem` is NULL. The
-- result holds that memory afterwards, and the number of bytes.
unfoldable pub pop : EasyBuffer → Option (List ℕ) → ℕ → Option (EasyBuffer × List ℕ × ℕ)
unfolding take_item
pop b none n = some (b, [], 0)
pop b (some dst) n = take_item b dst (if ltb b.size n then b.size else n)
