-- ===== src/Midware/Receive/Buffer.antt =====
-- What one round of the loops of midware/src/easy_session.cpp does to the receive buffer.
use lib_fantuan.Prelude.{
  ℕ, ◌+◌, ◌-◌, ◌%◌, ◌^◌, ◌≤◌, ◌≡◌, refl, inl, inr, some, List, [], ◌++◌, arith, length, take, drop,
  ltb, Bool-cases, le→leb, memcpy_lem, length-take, length-drop, length-append, take-append_le,
  take_all, drop-take, length-memcpy, take-memcpy,
}
use lib_fantuan.Midware.Receive.{RecvBuf, max_input_buffer, filled, fill, consume}

pub record IsValid (b : RecvBuf) : Type 0 where
  pub size : length b.bytes ≡ max_input_buffer
  pub len_in : b.len ≤ max_input_buffer

-- The bytes that wait for the rest of their packet.
abbrev pub pending : RecvBuf → List ℕ
pending b = take b.len b.bytes

pub length-pending : {b : RecvBuf} → IsValid b → length (pending b) ≡ b.len
length-pending {b} v = omega (arith, length-take b.len b.bytes, v.size, v.len_in)

pub len-consume : (b : RecvBuf) (full : ℕ) → (consume b full).len ≡ b.len - full
unfolding consume
len-consume b full = refl

pub consume-IsValid : {b : RecvBuf} (full : ℕ) → IsValid b → IsValid (consume b full)
unfolding consume
consume-IsValid {b} full v = ground (
  arith,
  length-append (take (b.len - full) (drop full b.bytes)) (drop (b.len - full) b.bytes),
  length-take (b.len - full) (drop full b.bytes),
  length-drop full b.bytes,
  length-drop (b.len - full) b.bytes,
)

pub pending-consume :
    {b : RecvBuf} (full : ℕ)
    → IsValid b
    → full ≤ b.len
    → pending (consume b full) ≡ drop full (pending b)
unfolding consume
pending-consume {b} full v h = elim (Bool-cases (ltb full b.len)) [
  | inl less ↦ rw (
    less,
    drop-take full b.len b.bytes,
    take-append_le (b.len - full) (take (b.len - full) (drop full b.bytes))
        (drop (b.len - full) b.bytes)
        (omega (arith, length-take (b.len - full) (drop full b.bytes), length-drop full b.bytes)),
    take_all (b.len - full) (take (b.len - full) (drop full b.bytes))
        (omega (arith, length-take (b.len - full) (drop full b.bytes))),
  )
  | inr same ↦
      let none_left : b.len - full ≡ 0 = ground arith in
      rw (same, drop-take full b.len b.bytes, none_left)
]

-- A copy that fits goes behind the bytes that wait.
filled_fits :
    (b : RecvBuf) (more left : List ℕ)
    → IsValid b
    → b.len + length more ≤ max_input_buffer
    → (b' : RecvBuf) × (filled b more left ≡ some (b', left))
      × IsValid b'
      × (b'.len ≡ b.len + length more)
      × (pending b' ≡ pending b ++ more)
unfolding filled
filled_fits b more left v h =
    let copied = memcpy_lem b.bytes b.len more (omega (arith, v.size)) in
    let short : (b.len + length more) % 2 ^ 16 ≡ b.len + length more = omega arith in
    rw (copied, filled)
      (
        record {
          len = (b.len + length more) % 2 ^ 16;
          bytes = take b.len b.bytes ++ (more ++ drop (b.len + length more) b.bytes);
        },
        refl,
        record {
          size = omega (arith, v.size, length-memcpy b.bytes b.len more copied);
          len_in = omega arith;
        },
        short,
        rw short (take-memcpy b.bytes b.len more copied),
      )

-- Bytes that fit are all taken, behind those that wait.
pub fill_fits :
    (b : RecvBuf) (more : List ℕ)
    → IsValid b
    → b.len + length more ≤ max_input_buffer
    → (b' : RecvBuf) × (fill b more ≡ some (b', []))
      × IsValid b'
      × (b'.len ≡ b.len + length more)
      × (pending b' ≡ pending b ++ more)
unfolding fill
fill_fits b more v h =
    let total : (b.len + length more) % 2 ^ 32 ≡ b.len + length more = omega arith in
    rw (total, le→leb (b.len + length more) max_input_buffer h) (filled_fits b more [] v h)
