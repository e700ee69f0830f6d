-- ===== src/Midware/Receive.antt =====
-- The receive buffer of EasySession::OnData (midware/src/easy_session.cpp) and of
-- EasyBaseClient::_OnCommandOnData (midware/src/easy_baseclient.cpp), which run the same loops:
-- bytes are gathered in `m_RecvBuf` and handed on as packets once a frame is whole.
pub mod Buffer
pub mod Drain
pub mod Faults
pub mod Reassembly
use lib_fantuan.Prelude.{
  ℕ, zero, suc, ◌+◌, ◌-◌, ◌%◌, ◌^◌, Option, none, some, List, [], ◌∷◌, ◌++◌, length, take, drop,
  leb, ltb, ◌==◌, if◌then◌else◌, memcpy,
}
use lib_fantuan.Midware.Packet.{Packet, packet_head, packet_at}

-- `MAX_INPUT_BUFFER`, the size of `m_RecvBuf`.
abbrev pub max_input_buffer : ℕ
max_input_buffer = 1024

-- `m_iRecvBufLen` and `m_RecvBuf`.
pub record RecvBuf : Type 0 where
  pub len : ℕ
  pub bytes : List ℕ

-- The state after `Reset`: the length is 0 and the first byte too; the others keep their values.
unfoldable pub reset : RecvBuf → RecvBuf
reset b = record { len = 0; bytes = 0 ∷ drop 1 b.bytes }

filled : RecvBuf → List ℕ → List ℕ → Option (RecvBuf × List ℕ)
filled b copied left = elim (memcpy b.bytes b.len copied) [
  | none ↦ none
  | some bytes ↦ some (record { len = (b.len + length copied) % 2 ^ 16; bytes = bytes }, left)
]

-- Step 1 of a round: the bytes that are copied, and those that are left. `m_iRecvBufLen + iLen` is
-- computed in 32 bits, `iCopyLen` in 16. `none`: the copy runs over the end of `m_RecvBuf`.
unfoldable pub fill : RecvBuf → List ℕ → Option (RecvBuf × List ℕ)
unfolding filled
fill b pending =
    let total = (b.len + length pending) % 2 ^ 32 in
    let copy_len = (total - max_input_buffer) % 2 ^ 16 in
    if leb total max_input_buffer
    then filled b pending []
    else filled b (take copy_len pending) (drop copy_len pending)

-- The end of step 3: the bytes behind the packet move to the front.
unfoldable pub consume : RecvBuf → ℕ → RecvBuf
consume b full = record {
  len = b.len - full;
  bytes =
      if ltb full b.len
      then take (b.len - full) (drop full b.bytes) ++ drop (b.len - full) b.bytes
      else b.bytes;
}

-- What the inner loop does: it ends as it waits for more bytes, or `_HandlePacket` returned an error.
pub data Drained : Type 0 where
  waits : RecvBuf → List Packet → Drained
  refused : RecvBuf → List Packet → Drained
  drain_fuel : Drained

abbrev pub after_packet : Packet → Drained → Drained
after_packet p (waits b ps) = waits b (p ∷ ps)
after_packet p (refused b ps) = refused b (p ∷ ps)
after_packet p drain_fuel = drain_fuel

-- How OnData ends. The packets are those that `_HandlePacket` was called with, in order.
pub data Received : Type 0 where
  done : RecvBuf → List Packet → Received
  stopped : RecvBuf → List Packet → Received
  overrun : List Packet → Received
  out_of_fuel : Received

abbrev pub after_packets : List Packet → Received → Received
after_packets ps (done b qs) = done b (ps ++ qs)
after_packets ps (stopped b qs) = stopped b (ps ++ qs)
after_packets ps (overrun qs) = overrun (ps ++ qs)
after_packets ps out_of_fuel = out_of_fuel

-- `handle` is `_HandlePacket`, 0 for success.
module _ (handle : Packet → ℕ) where
  -- The loop of steps 2 and 3. `iFullLength` is a 16-bit variable.
  unfoldable pub drain : ℕ → RecvBuf → Drained
  drain zero b = drain_fuel
  drain (suc fuel) b =
      let p = packet_at b.bytes in
      let full = (p.len + packet_head) % 2 ^ 16 in
      let next = after_packet p (drain fuel (consume b full)) in
      if leb packet_head b.len
      then (if leb full b.len
          then (if handle p == 0 then next else refused b (p ∷ []))
          else waits b [])
      else waits b []

  -- One round of the outer loop after another, until no byte is left.
  unfoldable pub receive : ℕ → RecvBuf → List ℕ → Received
  receive zero b pending = out_of_fuel
  receive (suc fuel) b pending = elim (fill b pending) [
    | none ↦ overrun []
    | some (b', left) ↦ elim (drain (suc b'.len) b') [
      | waits b'' ps ↦ elim left [
        | [] ↦ done b'' ps
        | x ∷ xs ↦ after_packets ps (receive fuel b'' (x ∷ xs))
      ]
      | refused b'' ps ↦ stopped b'' ps
      | drain_fuel ↦ out_of_fuel
    ]
  ]
