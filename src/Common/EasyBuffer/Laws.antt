-- ===== src/Common/EasyBuffer/Laws.antt =====
-- EasyBuffer (common/src/easy_buffer.cpp) as a bounded stack of bytes.
use lib_fantuan.Prelude.{
  ℕ, ◌+◌, ◌-◌, ◌%◌, ◌^◌, ◌≤◌, ◌<◌, min, ◌≡◌, refl, sym, ap, ap₂, ◌∙◌, true, some, List, [], ◌++◌,
  arith, length, take, drop, ltb, if◌then◌else◌, memcpy_lem, le→leb, lt→leb_false, ltb-eq_false,
  lt→ltb, read_lem, take-memcpy, length-memcpy, length-take, length-drop, length-replicate,
  drop-take, take-take, dec_lt,
}
use lib_fantuan.Common.EasyBuffer.{EasyBuffer, create, append_item, push, take_item, pop}

pub record IsValid (b : EasyBuffer) : Type 0 where
  pub block_size : length b.block ≡ b.max_size
  pub small : b.max_size < 2 ^ 31
  pub tail_at : b.tail ≡ b.size
  pub size_in : b.size ≤ b.max_size

-- The bytes in the buffer, the oldest first.
abbrev pub contents : EasyBuffer → List ℕ
contents b = take b.size b.block

pub length-contents : {b : EasyBuffer} → IsValid b → length (contents b) ≡ b.size
length-contents {b} v = omega (arith, length-take b.size b.block, v.block_size, v.size_in)

pub create-IsValid : (n : ℕ) → n < 2 ^ 31 → IsValid (create n) × (contents (create n) ≡ [])
unfolding create
create-IsValid n h = (
  record { block_size = length-replicate n 0; small = h; tail_at = refl; size_in = omega arith },
  refl,
)

append_item_lem :
    {b : EasyBuffer} (item : List ℕ)
    → IsValid b
    → b.size + length item < b.max_size
    → (b' : EasyBuffer) × (append_item b item ≡ some (b', true))
      × IsValid b'
      × (contents b' ≡ contents b ++ item)
      × (b'.max_size ≡ b.max_size)
unfolding append_item
append_item_lem {b} item v h =
    let copied = memcpy_lem b.block b.tail item (omega (arith, v.block_size, v.tail_at)) in
    let block = take b.tail b.block ++ (item ++ drop (b.tail + length item) b.block) in
    let sum : (b.size + length item) % 2 ^ 32 ≡ b.tail + length item =
      omega (arith, v.small, v.tail_at) in
    (
      record b {
        block = block;
        tail = b.tail + length item;
        size = (b.size + length item) % 2 ^ 32;
      },
      rw (copied, append_item) refl,
      record {
        block_size = omega (arith, length-memcpy b.block b.tail item copied, v.block_size);
        small = v.small;
        tail_at = sym sum;
        size_in = omega (arith, sum, v.tail_at);
      },
      rw sum (take-memcpy b.block b.tail item copied ∙ ap (λ n. take n b.block ++ item) v.tail_at),
      refl,
    )

-- Push takes the bytes if fewer than the capacity are held afterwards: they go behind those that
-- are held. Otherwise it returns false and changes nothing. It never writes outside the block.
-- Condition: the buffer is valid, and the item has fewer than 2 ^ 31 bytes.
pub push-contents :
    {b : EasyBuffer} (item : List ℕ)
    → IsValid b
    → length item < 2 ^ 31
    → (b' : EasyBuffer) × (push b item ≡ some (b', ltb (b.size + length item) b.max_size))
      × IsValid b'
      × (contents b'
          ≡ (if ltb (b.size + length item) b.max_size then contents b ++ item else contents b))
      × (b'.max_size ≡ b.max_size)
unfolding push
push-contents {b} item v short =
    let sum : (b.size + length item) % 2 ^ 32 ≡ b.size + length item =
      omega (arith, v.small, v.size_in) in
    elim (dec_lt (b.size + length item) b.max_size) [
      | yes fits ↦
          rw (sum, lt→leb_false b.max_size (b.size + length item) fits, lt→ltb _ _ fits)
            (append_item_lem item v fits)
      | no full ↦
          rw
            (
              sum,
              le→leb b.max_size (b.size + length item) (omega arith),
              ltb-eq_false (b.size + length item) b.max_size (omega arith),
            )
            (b, refl, v, refl, refl)
    ]

-- The bytes below the tail are the last of those that are held.
last_bytes :
    (b : EasyBuffer) (n : ℕ)
    → n ≤ b.size
    → b.tail ≡ b.size
    → take n (drop (b.tail - n) b.block) ≡ drop (b.size - n) (contents b)
last_bytes b n h t =
    let back : b.size - (b.size - n) ≡ n = omega arith in
    rw (t, drop-take (b.size - n) b.size b.block, back)

take_item_lem :
    {b : EasyBuffer} (dst : List ℕ) (n : ℕ)
    → IsValid b
    → n ≤ b.size
    → n ≤ length dst
    → (b' : EasyBuffer) × (take_item b dst n
        ≡ some (b', drop (b.size - n) (contents b) ++ drop n dst, n))
      × IsValid b'
      × (contents b' ≡ take (b.size - n) (contents b))
      × (b'.max_size ≡ b.max_size)
unfolding take_item
take_item_lem {b} dst n v h room =
    let start : b.tail - n ≡ b.size - n = ap (λ t. t - n) v.tail_at in
    let got = read_lem b.block (b.tail - n) n (omega (arith, v.tail_at, v.block_size, v.size_in)) in
    let bytes = take n (drop (b.tail - n) b.block) in
    let size : length bytes ≡ n = omega (
      arith,
      length-take n (drop (b.tail - n) b.block),
      length-drop (b.tail - n) b.block,
      v.tail_at,
      v.block_size,
      v.size_in,
    ) in
    let copied = memcpy_lem dst 0 bytes (omega (arith, size)) in
    let same : bytes ++ drop (0 + length bytes) dst ≡ drop (b.size - n) (contents b) ++ drop n dst =
      ap₂ ◌++◌ (last_bytes b n h v.tail_at) (ap (λ k. drop k dst) (omega (arith, size))) in
    (
      record b { tail = b.tail - n; size = b.size - n },
      rw (got, take_item)
          (rw (copied, take_item)
            (ap (λ x. some (record b { tail = b.tail - n; size = b.size - n }, x, n)) same)),
      record {
        block_size = v.block_size;
        small = v.small;
        tail_at = start;
        size_in = omega (arith, v.size_in);
      },
      sym (take-take (b.size - n) b.size b.block (omega arith)),
      refl,
    )

-- Pop of `n` bytes moves the last `min n size` bytes that are held to the front of the memory at
-- `pItem`, in the order in which they were pushed, and returns their number; the others stay. It
-- reads and writes inside its blocks. Condition: the buffer is valid, and the memory has that room.
pub pop-contents :
    {b : EasyBuffer} (dst : List ℕ) (n : ℕ)
    → IsValid b
    → min n b.size ≤ length dst
    → (b' : EasyBuffer) × (pop b (some dst) n
        ≡ some (b', drop (b.size - n) (contents b) ++ drop (min n b.size) dst, min n b.size))
      × IsValid b'
      × (contents b' ≡ take (b.size - n) (contents b))
      × (b'.max_size ≡ b.max_size)
unfolding pop
pop-contents {b} dst n v room = elim (dec_lt b.size n) [
  | yes more ↦
      let m : min n b.size ≡ b.size = omega arith in
      let z : b.size - n ≡ b.size - b.size = omega arith in
      rw (lt→ltb _ _ more, m, z) (take_item_lem dst b.size v (omega arith) (omega arith))
  | no fewer ↦
      let m : min n b.size ≡ n = omega arith in
      rw (ltb-eq_false b.size n (omega arith), m)
        (take_item_lem dst n v (omega arith) (omega arith))
]
