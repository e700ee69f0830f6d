-- ===== src/Midware/Receive/Faults.antt =====
-- Where the loops of EasySession::OnData (midware/src/easy_session.cpp) leave the buffer or do not
-- end: bytes that do not fit, and headers whose frame length is 0 in 16 bits.
use lib_fantuan.Prelude.{
  ℕ, zero, suc, ◌+◌, ◌-◌, ◌*◌, ◌%◌, ◌^◌, ◌≤◌, ◌<◌, ◌≡◌, refl, none, List, [], arith, length, take,
  lt→leb_false, length-take, take-append-drop, memcpy_fault, ℕ_discrete,
}
use lib_fantuan.Midware.Packet.{Packet, packet_head, packet_at}
use lib_fantuan.Midware.Receive.{
  RecvBuf, max_input_buffer, filled, fill, consume, Drained, waits, refused, drain_fuel,
  after_packet, drain, overrun, receive,
}
use lib_fantuan.Midware.Receive.Buffer.{IsValid, len-consume}

fill_overrun :
    (b : RecvBuf) (more : List ℕ)
    → IsValid b
    → length more < 2 ^ 16
    → 2 * max_input_buffer < 2 * b.len + length more
    → fill b more ≡ none
unfolding fill
fill_overrun b more v short h =
    let total : (b.len + length more) % 2 ^ 32 ≡ b.len + length more = omega arith in
    let copy : (b.len + length more - max_input_buffer) % 2 ^ 16
        ≡ b.len + length more - max_input_buffer =
      omega arith in
    rw (total, lt→leb_false (b.len + length more) max_input_buffer (omega arith), copy, filled)
      (rw
        (
          memcpy_fault b.bytes b.len (take (b.len + length more - max_input_buffer) more)
              (omega (arith, v.size, length-take (b.len + length more - max_input_buffer) more)),
          filled,
        )
        refl)

-- A call of the loops with `n` bytes, `len` of them waiting, writes behind `m_RecvBuf` at once if
-- `2 * len + n` is above 2048 and `n` is a 16-bit number.
pub receive_overrun :
    (handle : Packet → ℕ) (fuel : ℕ) (b : RecvBuf) (more : List ℕ)
    → IsValid b
    → length more < 2 ^ 16
    → 2 * max_input_buffer < 2 * b.len + length more
    → receive handle (suc fuel) b more ≡ overrun []
unfolding receive
receive_overrun handle fuel b more v short h = rw (fill_overrun b more v short h, receive) refl

consume_zero : (b : RecvBuf) → consume b 0 ≡ b
unfolding consume
consume_zero b = ground (arith, take-append-drop (b.len - 0) b.bytes)

-- Whatever the fuel, the inner loop does not end on a header whose length is 65532.
pub drain_never_ends :
    (handle : Packet → ℕ) (fuel : ℕ) (b : RecvBuf)
    → packet_head ≤ b.len
    → (packet_at b.bytes).len + packet_head ≡ 2 ^ 16
    → handle (packet_at b.bytes) ≡ 0
    → drain handle fuel b ≡ drain_fuel
unfolding drain
drain_never_ends handle zero b h e ok = refl
drain_never_ends handle (suc fuel) b h e ok =
    ground (arith, consume_zero b, drain_never_ends handle fuel b h e ok)

after_packet_fuel : (p : Packet) (d : Drained) → after_packet p d ≡ drain_fuel → d ≡ drain_fuel
after_packet_fuel p (waits b ps) e = cc
after_packet_fuel p (refused b ps) e = cc
after_packet_fuel p drain_fuel e = refl

-- `iFullLength` of the packet at the front.
abbrev pub full_length : RecvBuf → ℕ
full_length b = ((packet_at b.bytes).len + packet_head) % 2 ^ 16

-- The buffers that the rounds of the inner loop lead to, from `b` on.
pub data Leads : RecvBuf → RecvBuf → Type 0 where
  here : {b : RecvBuf} → Leads b b
  round :
      {b c : RecvBuf}
      → packet_head ≤ b.len
      → full_length b ≤ b.len
      → Leads (consume b (full_length b)) c
      → Leads b c

drain_fuel_round :
    (handle : Packet → ℕ) (fuel : ℕ) (b : RecvBuf)
    → drain handle (suc fuel) b ≡ drain_fuel
    → (packet_head ≤ b.len)
      × (full_length b ≤ b.len)
      × (drain handle fuel (consume b (full_length b)) ≡ drain_fuel)
unfolding drain
drain_fuel_round handle fuel b e =
    ground
      (arith, after_packet_fuel (packet_at b.bytes) (drain handle fuel (consume b (full_length b))))

-- With fuel above the length of the buffer the inner loop ends, unless its rounds lead to a buffer
-- that holds a header, and the frame length of that header is 0 in 16 bits.
pub drain_ends :
    (handle : Packet → ℕ) (fuel : ℕ) (b : RecvBuf)
    → b.len < fuel
    → drain handle fuel b ≡ drain_fuel
    → (c : RecvBuf) × Leads b c × (packet_head ≤ c.len) × (full_length c ≡ 0)
drain_ends handle zero b h e = absurd (omega arith)
drain_ends handle (suc fuel) b h e =
    let (head, whole, rest) = drain_fuel_round handle fuel b e in
    elim (ℕ_discrete (full_length b) 0) [
      | yes stuck ↦ (b, here, head, stuck)
      | no moves ↦
          let (c, leads, header, zero_length) =
            drain_ends handle fuel (consume b (full_length b))
              (omega (arith, len-consume b (full_length b))) rest in
          (c, round head whole leads, header, zero_length)
    ]
