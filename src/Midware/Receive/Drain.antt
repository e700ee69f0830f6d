-- ===== src/Midware/Receive/Drain.antt =====
-- The inner loop of EasySession::OnData (midware/src/easy_session.cpp): the packets that it hands
-- on are those whose frames are whole in the buffer.
use lib_fantuan.Prelude.{
  ℕ, zero, suc, ◌+◌, ◌%◌, ◌^◌, ◌≤◌, ◌<◌, ◌≡◌, refl, sym, ap, ◌∙◌, List, [], ◌∷◌, ◌++◌, append_assoc,
  arith, length, drop, le→leb, lt→leb_false, length-append, append_split, get_le16, get_le16-append,
  take-append-drop, ==_iff, dec_lt,
}
use lib_fantuan.Midware.Packet.{
  Packet, packet_head, packet_at, encode, encode_all, IsWire, AllWire, length-encode,
  packet_at-encode, get_le16-encode,
}
use lib_fantuan.Midware.Receive.{RecvBuf, consume, Drained, waits, after_packet, drain}
use lib_fantuan.Midware.Receive.Buffer.{
  IsValid, len-consume, pending, length-pending, consume-IsValid, pending-consume,
}

module _ (handle : Packet → ℕ) where
  -- No header yet.
  drain_short :
      (fuel : ℕ) (b : RecvBuf) → b.len < packet_head → drain handle (suc fuel) b ≡ waits b []
  unfolding drain
  drain_short fuel b h = rw (lt→leb_false packet_head b.len h)

  -- A header, and a frame that is not whole.
  drain_partial :
      (fuel : ℕ) (b : RecvBuf)
      → (packet_at b.bytes).len + packet_head < 2 ^ 16
      → b.len < (packet_at b.bytes).len + packet_head
      → drain handle (suc fuel) b ≡ waits b []
  unfolding drain
  drain_partial fuel b small h = ground arith

  -- A whole frame, whose packet is accepted.
  drain_whole :
      (fuel : ℕ) (b : RecvBuf) (p : Packet)
      → packet_at b.bytes ≡ p
      → p.len + packet_head < 2 ^ 16
      → p.len + packet_head ≤ b.len
      → handle p ≡ 0
      → drain handle (suc fuel) b
        ≡ after_packet p (drain handle fuel (consume b (p.len + packet_head)))
  unfolding drain
  drain_whole fuel b p e small h ok =
      let full : (p.len + packet_head) % 2 ^ 16 ≡ p.len + packet_head = omega arith in
      rw (
        e,
        full,
        le→leb packet_head b.len (omega arith),
        le→leb (p.len + packet_head) b.len h,
        (==_iff (handle p) 0).1 ok,
      )

-- The frame that a buffer waits for is longer than what it holds.
abbrev pub Incomplete : List Packet → ℕ → Type 0
Incomplete [] n = Unit {0}
Incomplete (q ∷ qs) n = n < packet_head + q.len

-- From a buffer that holds the front of the frames of `qs`, the loop hands on a front of `qs`, and
-- leaves the front of the frames of the others, no frame of it whole.
pub record Drains (d : Drained) (rest : List ℕ) (qs : List Packet) : Type 0 where
  pub handed : List Packet
  pub left : List Packet
  pub buf : RecvBuf
  pub ends : d ≡ waits buf handed
  pub split : qs ≡ handed ++ left
  pub front : pending buf ++ rest ≡ encode_all left
  pub valid : IsValid buf
  pub incomplete : Incomplete left buf.len

packet_at_len : (bytes : List ℕ) → (packet_at bytes).len ≡ get_le16 bytes 2
unfolding packet_at
packet_at_len bytes = refl

-- The header of a buffer that holds at least the header of a frame.
header_len :
    {limit : ℕ} (b : RecvBuf) (rest tail : List ℕ) (q : Packet)
    → IsValid b
    → IsWire limit q
    → packet_head ≤ b.len
    → pending b ++ rest ≡ encode q ++ tail
    → (packet_at b.bytes).len ≡ q.len
header_len b rest tail q v w h e =
    let whole = take-append-drop b.len b.bytes in
    let in_buf =
      get_le16-append (pending b) (drop b.len b.bytes) 2 (omega (arith, length-pending v)) in
    let in_stream = get_le16-append (pending b) rest 2 (omega (arith, length-pending v)) in
    let read = (get_le16-encode q tail w.type_fits w.len_fits).1 in
    cc (
      packet_at_len b.bytes,
      ap (λ x. get_le16 x 2) whole,
      in_buf,
      in_stream,
      ap (λ x. get_le16 x 2) e,
      read,
    )

-- The packet of a buffer that holds a whole frame, and what follows the frame.
whole_frame :
    {limit : ℕ} (b : RecvBuf) (rest tail : List ℕ) (q : Packet)
    → IsValid b
    → IsWire limit q
    → packet_head + q.len ≤ b.len
    → pending b ++ rest ≡ encode q ++ tail
    → (packet_at b.bytes ≡ q) × (drop (q.len + packet_head) (pending b) ++ rest ≡ tail)
whole_frame b rest tail q v w h e =
    let size : length (encode q) ≡ q.len + packet_head =
      omega (arith, length-encode q, w.len_true) in
    let split = append_split (pending b) rest (encode q) tail (omega (arith, length-pending v)) e in
    let more = drop (length (encode q)) (pending b) ++ drop b.len b.bytes in
    let all : b.bytes ≡ encode q ++ more =
      sym (take-append-drop b.len b.bytes)
      ∙ ap (λ x. x ++ drop b.len b.bytes) split.0
      ∙ append_assoc (encode q) (drop (length (encode q)) (pending b)) (drop b.len b.bytes) in
    (ap packet_at all ∙ packet_at-encode q more w, rw size at split.1)

-- Less than the frame at the front of the stream.
drain_waiting :
    {limit : ℕ} (handle : Packet → ℕ) (fuel : ℕ) (b : RecvBuf) (rest tail : List ℕ) (q : Packet)
    → limit < 2 ^ 16
    → IsValid b
    → IsWire limit q
    → b.len < packet_head + q.len
    → pending b ++ rest ≡ encode q ++ tail
    → drain handle (suc fuel) b ≡ waits b []
drain_waiting handle fuel b rest tail q small v w part e = elim (dec_lt b.len packet_head) [
  | yes short ↦ drain_short handle fuel b short
  | no header ↦
      let len = header_len b rest tail q v w (omega arith) e in
      drain_partial handle fuel b (omega (arith, len, w.frame_fits)) (omega (arith, len))
]

module _ (handle : Packet → ℕ) (accepts : (p : Packet) → handle p ≡ 0) {limit : ℕ}
    (small : limit < 2 ^ 16) where
  -- With fuel above the length of the buffer, the loop ends, and hands on whole frames in order.
  pub drain-Drains :
      (qs : List Packet) (fuel : ℕ) (b : RecvBuf) (rest : List ℕ)
      → AllWire limit qs
      → IsValid b
      → b.len < fuel
      → pending b ++ rest ≡ encode_all qs
      → Drains (drain handle fuel b) rest qs
  unfolding encode_all
  drain-Drains qs zero b rest w v h e = absurd (omega arith)
  drain-Drains [] (suc fuel) b rest w v h e =
      let empty : b.len < packet_head =
        omega (arith, length-pending v, length-append (pending b) rest, ap length e) in
      record {
        handed = [];
        left = [];
        buf = b;
        ends = drain_short handle fuel b empty;
        split = refl;
        front = e;
        valid = v;
        incomplete = tt;
      }
  drain-Drains (q ∷ qs) (suc fuel) b rest w v h e = elim (dec_lt b.len (packet_head + q.len)) [
    | yes part ↦ record {
      handed = [];
      left = q ∷ qs;
      buf = b;
      ends = drain_waiting handle fuel b rest (encode_all qs) q small v w.0 part e;
      split = refl;
      front = e;
      valid = v;
      incomplete = part;
    }
    | no enough ↦
        let whole = whole_frame b rest (encode_all qs) q v w.0 (omega arith) e in
        let next =
          drain-Drains qs fuel (consume b (q.len + packet_head)) rest w.1
            (consume-IsValid (q.len + packet_head) v)
            (omega (arith, len-consume b (q.len + packet_head)))
            (rw (pending-consume (q.len + packet_head) v (omega arith)) whole.1) in
        record {
          handed = q ∷ next.handed;
          left = next.left;
          buf = next.buf;
          ends =
              drain_whole handle fuel b q whole.0 (omega (arith, w.0.frame_fits)) (omega arith)
                (accepts q)
              ∙ ap (after_packet q) next.ends;
          split = ap (◌∷◌ q) next.split;
          front = next.front;
          valid = next.valid;
          incomplete = next.incomplete;
        }
  ]
