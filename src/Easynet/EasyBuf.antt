-- ===== src/Easynet/EasyBuf.antt =====
-- The buffer of easynet (easynet/easy_buf.c).
mod Tests
use lib_fantuan.Prelude.{
  ℕ, suc, ◌+◌, ◌-◌, ◌≤◌, ◌<◌, ◌≡◌, refl, sym, ap, ◌∙◌, inl, inr, Bool, true, false, Option, none,
  some, List, [], ◌∷◌, ◌++◌, length, take, drop, replicate, memcpy, read, leb, ltb, if◌then◌else◌,
  arith, Bool-cases, read_lem, memcpy_lem, take-memcpy, length-memcpy, length-append, length-take,
  length-drop, drop-take, drop-append_ge, take_all, take-append-drop, length-replicate,
  take-append_le, take-take,
}

-- `tail` is tail_ less data_.
pub record EasyBuf : Type 0 where
  pub data_bytes : List ℕ
  pub tail : ℕ
  pub size : ℕ
  pub curr_size : ℕ

abbrev pub create_easy_buf : ℕ → EasyBuf
create_easy_buf max_size = record {
  data_bytes = replicate max_size 0;
  tail = 0;
  size = max_size;
  curr_size = 0;
}

-- PushToEasyBuf: the buffer, and whether it took the item; nothing where it stores outside the memory.
unfoldable pub push_to_easy_buf : List ℕ → EasyBuf → Option (EasyBuf × Bool)
push_to_easy_buf item b =
    if leb b.size (b.curr_size + length item)
    then some (b, false)
    else elim (memcpy b.data_bytes b.tail item) [
      | none ↦ none
      | some bytes ↦ some (
        record b {
          data_bytes = bytes;
          tail = b.tail + length item;
          curr_size = b.curr_size + length item;
        },
        true,
      )
    ]

-- The end of PopFromEasyBuf, for the bytes that there are.
unfoldable pub pop_bytes : ℕ → EasyBuf → Option (EasyBuf × List ℕ)
pop_bytes n b = elim (read b.data_bytes (b.tail - n) n) [
  | none ↦ none
  | some bytes ↦ some (record b { tail = b.tail - n; curr_size = b.curr_size - n }, bytes)
]

-- PopFromEasyBuf with a buffer for the item: what is left, and the bytes that it copied.
unfoldable pub pop_from_easy_buf : ℕ → EasyBuf → Option (EasyBuf × List ℕ)
unfolding pop_bytes
pop_from_easy_buf len b = pop_bytes (if ltb b.curr_size len then b.curr_size else len) b

pub record IsValid (b : EasyBuf) : Type 0 where
  pub memory : length b.data_bytes ≡ b.size
  pub filled : b.tail ≡ b.curr_size
  pub room : b.curr_size ≤ b.size

-- The bytes of a buffer, the first pushed first.
abbrev pub contents : EasyBuf → List ℕ
contents b = take b.curr_size b.data_bytes

create_easy_buf-IsValid : (n : ℕ) → IsValid (create_easy_buf n)
create_easy_buf-IsValid n = record {
  memory = length-replicate {A = ℕ} n 0;
  filled = refl;
  room = omega arith;
}

-- The memory after a copy to `off`.
abbrev written : List ℕ → ℕ → List ℕ → List ℕ
written bytes off item = take off bytes ++ (item ++ drop (off + length item) bytes)

read-written :
    (bytes item : List ℕ) (off : ℕ)
    → off + length item ≤ length bytes
    → read (written bytes off item) off (length item) ≡ some item
read-written bytes item off h =
    let rest = item ++ drop (off + length item) bytes in
    let start : length (take off bytes) ≡ off = omega (arith, length-take off bytes) in
    let skipped : drop off (take off bytes ++ rest) ≡ rest =
      let none_left : off - length (take off bytes) ≡ 0 = omega (arith, start) in
      drop-append_ge off (take off bytes) rest (omega (arith, start))
      ∙ ap (λ k. drop k rest) none_left in
    let front : take (length item) rest ≡ item =
      take-append_le (length item) item (drop (off + length item) bytes) (omega arith)
      ∙ take_all (length item) item (omega arith) in
    let inside : off + length item ≤ length (take off bytes ++ rest) = omega (
      arith,
      length-append (take off bytes) rest,
      length-append item (drop (off + length item) bytes),
      start,
    ) in
    read_lem (written bytes off item) off (length item) inside
    ∙ ap some (ap (take (length item)) skipped ∙ front)

-- What is pushed is what the next pop of that length gives, and the buffer holds what it held before.
-- Condition: the buffer is valid, and has more room than the item needs.
pub pop-push :
    (b : EasyBuf) (item : List ℕ)
    → IsValid b
    → b.curr_size + length item < b.size
    → (c d : EasyBuf) × (push_to_easy_buf item b ≡ some (c, true))
      × (pop_from_easy_buf (length item) c ≡ some (d, item))
      × IsValid d
      × (contents d ≡ contents b)
unfolding push_to_easy_buf pop_from_easy_buf
pop-push b item v h =
    let bytes = written b.data_bytes b.tail item in
    let fits : b.tail + length item ≤ length b.data_bytes = omega (arith, v.memory, v.filled, h) in
    let copied : memcpy b.data_bytes b.tail item ≡ some bytes =
      memcpy_lem b.data_bytes b.tail item fits in
    let has_room : leb b.size (b.curr_size + length item) ≡ false = ground (arith, h) in
    let enough : ltb (b.curr_size + length item) (length item) ≡ false = ground arith in
    let back_tail : b.tail + length item - length item ≡ b.tail = omega arith in
    let back_size : b.curr_size + length item - length item ≡ b.curr_size = omega arith in
    let start : length (take b.tail b.data_bytes) ≡ b.tail =
      omega (arith, length-take b.tail b.data_bytes, fits) in
    let kept : take b.curr_size bytes ≡ take b.curr_size b.data_bytes =
      take-append_le b.curr_size (take b.tail b.data_bytes)
        (item ++ drop (b.tail + length item) b.data_bytes) (omega (arith, start, v.filled))
      ∙ take-take b.curr_size b.tail b.data_bytes (omega (arith, v.filled)) in
    let c = record b {
      data_bytes = bytes;
      tail = b.tail + length item;
      curr_size = b.curr_size + length item;
    } in
    let d = record c { tail = c.tail - length item; curr_size = c.curr_size - length item } in
    let got : read bytes (c.tail - length item) (length item) ≡ some item =
      ap (λ k. read bytes k (length item)) back_tail ∙ read-written b.data_bytes item b.tail fits in
    let valid : IsValid d = record {
      memory = length-memcpy b.data_bytes b.tail item copied ∙ v.memory;
      filled = omega (arith, v.filled);
      room = omega (arith, v.room);
    } in
    (
      c,
      d,
      rw (has_room, copied, push_to_easy_buf) refl,
      rw enough (rw (got, pop_bytes) refl),
      valid,
      ap (λ k. take k bytes) back_size ∙ kept,
    )
