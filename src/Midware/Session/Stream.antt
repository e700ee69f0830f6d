-- ===== src/Midware/Session/Stream.antt =====
-- A connection's bytes arrive in chunks, one EasySession::OnData (midware/src/easy_session.cpp)
-- each. The chunks need not end where frames end.
use lib_fantuan.Prelude.{
  ℕ, ◌+◌, ◌≤◌, ◌<◌, ◌≡◌, refl, ap, subst, List, [], ◌∷◌, ◌++◌, arith, length, length-append,
}
use lib_fantuan.Midware.Packet.{Packet, packet_head, encode, encode_all, AllWire, length-encode}
use lib_fantuan.Midware.Receive.{RecvBuf, max_input_buffer, Received, done, after_packets}
use lib_fantuan.Midware.Receive.Buffer.{IsValid, pending, length-pending}
use lib_fantuan.Midware.Receive.Drain.{Incomplete}
use lib_fantuan.Midware.Receive.Reassembly.{receive-Receives}
use lib_fantuan.Midware.Session.{Session, on_data}

-- The calls of OnData for one chunk after the other, as long as they return normally.
unfoldable pub feed : (Packet → ℕ) → Session → List (List ℕ) → Received
feed handle s [] = done s.buf []
feed handle s (chunk ∷ chunks) = elim (on_data handle s chunk) [
  | done b ps ↦ after_packets ps (feed handle (record s { buf = b }) chunks)
  | r ↦ r
]

unfoldable pub concat : List (List ℕ) → List ℕ
concat [] = []
concat (c ∷ cs) = c ++ concat cs

abbrev pub AllShort : ℕ → List (List ℕ) → Type 0
AllShort limit [] = Unit {0}
AllShort limit (c ∷ cs) = (length c ≤ limit) × AllShort limit cs

-- What is left of the frames of `ps` when `n` bytes wait: nothing, or less than a frame.
Incomplete-lt :
    (limit : ℕ) (ps : List Packet) (b : RecvBuf) (rest : List ℕ)
    → packet_head ≤ limit
    → AllWire limit ps
    → IsValid b
    → pending b ++ rest ≡ encode_all ps
    → Incomplete ps b.len
    → b.len < limit
unfolding encode_all
Incomplete-lt limit [] b rest h w v e i =
    omega (arith, length-pending v, length-append (pending b) rest, ap length e)
Incomplete-lt limit (p ∷ ps) b rest h w v e i = omega (arith, w.0.frame_fits)

-- The end of the stream: a buffer that holds all the frames that are left, and no whole one.
Incomplete-end :
    (limit : ℕ) (ps : List Packet) (b : RecvBuf)
    → AllWire limit ps
    → IsValid b
    → pending b ++ [] ≡ encode_all ps
    → Incomplete ps b.len
    → (ps ≡ []) × (b.len ≡ 0)
unfolding encode_all
Incomplete-end limit [] b w v e i =
    (refl, omega (arith, length-pending v, length-append (pending b) [], ap length e))
Incomplete-end limit (p ∷ ps) b w v e i = absurd (
    omega (
      arith,
      length-pending v,
      length-append (pending b) [],
      ap length e,
      length-append (encode p) (encode_all ps),
      length-encode p,
      w.0.len_true,
    ))

AllWire-split : (limit : ℕ) (ps qs : List Packet) → AllWire limit (ps ++ qs) → AllWire limit qs
AllWire-split limit [] qs w = w
AllWire-split limit (p ∷ ps) qs w = AllWire-split limit ps qs w.1

module _ (handle : Packet → ℕ) (accepts : (p : Packet) → handle p ≡ 0) (limit chunk_limit : ℕ)
    (head : packet_head ≤ limit) (room : limit + chunk_limit ≤ max_input_buffer + 1) where
  feed-packets :
      (qs : List Packet) (chunks : List (List ℕ)) (s : Session)
      → AllWire limit qs
      → AllShort chunk_limit chunks
      → IsValid s.buf
      → s.buf.len < limit
      → pending s.buf ++ concat chunks ≡ encode_all qs
      → Incomplete qs s.buf.len
      → (b : RecvBuf) × (feed handle s chunks ≡ done b qs) × (b.len ≡ 0) × IsValid b
  unfolding feed concat on_data
  feed-packets qs [] s w short v h e i =
      let last = Incomplete-end limit qs s.buf w v e i in (s.buf, rw last.0, last.1, v)
  feed-packets qs (c ∷ cs) s w short v h e i =
      let r =
        receive-Receives handle accepts {limit = limit} (omega arith) qs (length c) s.buf c
          (concat cs) w v (omega (arith, short.0)) e in
      let w' = AllWire-split limit r.handed r.left (subst (AllWire limit) r.split w) in
      let (b, ends, len, v') =
        feed-packets r.left cs (record s { buf = r.buf }) w' short.1 r.valid
          (Incomplete-lt limit r.left r.buf (concat cs) head w' r.valid r.front r.incomplete)
          r.front r.incomplete in
      (b, rw (r.ends, feed) (rw (ends, after_packets, ← r.split)), len, v')

  -- A session that waits for no bytes, given the frames of `qs` cut into chunks anywhere, calls
  -- `_HandlePacket` with the packets `qs`, each once and in order, and ends up waiting for no bytes.
  -- Conditions: every frame has at most `limit` bytes and every chunk at most `chunk_limit`, where
  -- `limit + chunk_limit` is at most 1025, and `_HandlePacket` accepts every packet.
  pub feed-encode_all :
      (qs : List Packet) (chunks : List (List ℕ)) (s : Session)
      → AllWire limit qs
      → AllShort chunk_limit chunks
      → IsValid s.buf
      → s.buf.len ≡ 0
      → concat chunks ≡ encode_all qs
      → (b : RecvBuf) × (feed handle s chunks ≡ done b qs) × (b.len ≡ 0) × IsValid b
  feed-encode_all qs chunks s w short v h e =
      feed-packets qs chunks s w short v (omega arith) (rw h e) (starts qs (omega arith))
    where
      starts : (ps : List Packet) {n : ℕ} → n ≡ 0 → Incomplete ps n
      starts [] z = tt
      starts (p ∷ ps) z = omega arith
