-- ===== src/Midware/Packet.antt =====
-- The packet of midware/src/easy_dispatcher.h as bytes in memory, and the dispatch of
-- midware/src/easy_dispatcher.cpp. The words of the header are little-endian, as on the x86
-- machines that the projects of the repository build for.
use lib_fantuan.Prelude.{
  ℕ, ◌+◌, ◌^◌, ◌≤◌, ◌<◌, ◌≡◌, refl, List, [], ◌∷◌, ◌++◌, arith, length, take, drop, take-append_le,
  take_all, drop-append_le, drop_all, le16, get_le16,
}

-- `EasyPacket`: `m_Buf` is the first byte of the payload, which `m_iLen` bytes follow.
pub record Packet : Type 0 where
  pub type_id : ℕ
  pub len : ℕ
  pub buf : List ℕ

-- `PACKET_HEAD`, two 16-bit words.
abbrev pub packet_head : ℕ
packet_head = 2 + 2

-- `(EasyPacket*)bytes`: the fields read in place. Of the payload it holds what lies in `bytes`.
unfoldable pub packet_at : List ℕ → Packet
packet_at bytes =
    let len = get_le16 bytes 2 in
    record { type_id = get_le16 bytes 0; len = len; buf = take len (drop packet_head bytes) }

-- The bytes of a packet on the wire.
unfoldable pub encode : Packet → List ℕ
encode p = le16 p.type_id ++ (le16 p.len ++ p.buf)

unfoldable pub encode_all : List Packet → List ℕ
encode_all [] = []
encode_all (p ∷ ps) = encode p ++ encode_all ps

-- A packet whose frame takes at most `limit` bytes, its length field true.
pub record IsWire (limit : ℕ) (p : Packet) : Type 0 where
  pub type_fits : p.type_id < 2 ^ 16
  pub len_fits : p.len < 2 ^ 16
  pub len_true : length p.buf ≡ p.len
  pub frame_fits : packet_head + p.len ≤ limit

abbrev pub AllWire : ℕ → List Packet → Type 0
AllWire limit [] = Unit {0}
AllWire limit (p ∷ ps) = IsWire limit p × AllWire limit ps

pub length-encode : (p : Packet) → length (encode p) ≡ packet_head + length p.buf
unfolding encode le16
length-encode p = omega arith

-- The header of an encoded packet reads back, whatever follows the frame.
pub get_le16-encode :
    (p : Packet) (rest : List ℕ)
    → p.type_id < 2 ^ 16
    → p.len < 2 ^ 16
    → (get_le16 (encode p ++ rest) 0 ≡ p.type_id) × (get_le16 (encode p ++ rest) 2 ≡ p.len)
unfolding encode le16 get_le16
get_le16-encode p rest ht hl = (omega arith, omega arith)

drop-encode : (p : Packet) (rest : List ℕ) → drop packet_head (encode p ++ rest) ≡ p.buf ++ rest
unfolding encode le16
drop-encode p rest = refl

payload-encode :
    (p : Packet) (rest : List ℕ)
    → length p.buf ≡ p.len
    → take p.len (drop packet_head (encode p ++ rest)) ≡ p.buf
payload-encode p rest h =
    rw (drop-encode p rest, take-append_le p.len p.buf rest (omega arith))
      (take_all p.len p.buf (omega arith))

-- The packet at the head of a stream of frames is the one that was encoded.
pub packet_at-encode :
    {limit : ℕ} (p : Packet) (rest : List ℕ) → IsWire limit p → packet_at (encode p ++ rest) ≡ p
unfolding packet_at
packet_at-encode p rest w =
    let head = get_le16-encode p rest w.type_fits w.len_fits in
    let body = payload-encode p rest w.len_true in
    rw (head.0, head.1) (λ i. record { type_id = p.type_id; len = p.len; buf = body i })

-- Past the frame stands what followed it.
pub drop-frame :
    {limit : ℕ} (p : Packet) (rest : List ℕ)
    → IsWire limit p
    → drop (packet_head + p.len) (encode p ++ rest) ≡ rest
drop-frame p rest w =
    let len = length-encode p in
    rw (
      drop-append_le (packet_head + p.len) (encode p) rest (omega (arith, w.len_true)),
      drop_all (packet_head + p.len) (encode p) (omega (arith, w.len_true)),
    )
