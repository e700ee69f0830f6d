-- ===== src/Midware/Session/Send.antt =====
-- EasySession::SendData (midware/src/easy_session.cpp): the frame that goes to the connection.
use lib_fantuan.Prelude.{
  ℕ, ◌+◌, ◌≤◌, ◌<◌, ◌≡◌, refl, sym, ap, ◌∙◌, Option, none, some, List, [], ◌∷◌, ◌++◌, append-nil,
  arith, length, take, drop, le→leb, take_all, memcpy, memcpy_lem, memcpy_fault, length-memcpy,
  read, le16, length-take, length-drop, take-append_le, Option-cases, inl, inr,
}
use lib_fantuan.Midware.Packet.{
  Packet, packet_head, encode, encode_all, AllWire, IsWire, length-encode,
}
use lib_fantuan.Midware.Session.{Session, Effect, send, max_output_buffer, post, send_data}

-- The bytes that the effects send, in order.
pub sent : List Effect → List ℕ
sent [] = []
sent (Effect.send conn bytes ∷ es) = bytes ++ sent es
sent (Effect.set_client conn client ∷ es) = sent es
sent (Effect.close conn ∷ es) = sent es
sent (Effect.delete conn ∷ es) = sent es

pub read_all : (bs : List ℕ) (n : ℕ) → n ≡ length bs → read bs 0 n ≡ some bs
unfolding read
read_all bs n h =
    rw (le→leb (0 + n) (length bs) (omega arith)) (ap some (take_all n bs (omega arith)))

pub length-header :
    (t n : ℕ) (body : List ℕ) → length (le16 t ++ (le16 n ++ body)) ≡ packet_head + length body
unfolding le16
length-header t n body = omega arith

-- What is read has the length that was asked for.
length-read : (bs : List ℕ) (off n : ℕ) {r : List ℕ} → read bs off n ≡ some r → length r ≡ n
unfolding read
length-read bs off n {r} e = ground (arith, length-take n (drop off bs), length-drop off bs)

-- The frame at the front of `m_SendBuf`.
pub take-frame :
    (p : Packet) (rest : List ℕ) (n : ℕ)
    → n ≡ length (encode p)
    → take n (encode p ++ rest) ≡ encode p
take-frame p rest n h =
    rw (take-append_le n (encode p) rest (omega arith)) (take_all n (encode p) (omega arith))

-- With the copies done, SendData is the call of SendMessage.
send_data_copied :
    (s : Session) (type_id len : ℕ) (payload buf : List ℕ)
    → len ≡ length payload
    → memcpy s.send_buf 0 (le16 type_id ++ (le16 len ++ payload)) ≡ some buf
    → send_data s type_id len payload
      ≡ post (record s { send_buf = buf }) (len + packet_head) s.connection
unfolding send_data
send_data_copied s type_id len payload buf h e =
    rw (read_all payload len h, send_data) (rw (e, send_data) refl)

-- A packet whose frame fits into `m_SendBuf` goes out as its frame, and `m_SendBuf` keeps its size.
pub send_data-encode :
    (s : Session) (conn : ℕ) (p : Packet)
    → s.connection ≡ some conn
    → length s.send_buf ≡ max_output_buffer
    → IsWire max_output_buffer p
    → (s' : Session) × (send_data s p.type_id p.len p.buf ≡ some (s', send conn (encode p) ∷ []))
      × (s'.connection ≡ some conn)
      × (length s'.send_buf ≡ max_output_buffer)
unfolding encode post
send_data-encode s conn p open_conn size w =
    let fits : 0 + length (encode p) ≤ length s.send_buf =
      omega (arith, length-encode p, w.len_true, w.frame_fits) in
    let copied = memcpy_lem s.send_buf 0 (encode p) fits in
    let buf = encode p ++ drop (0 + length (encode p)) s.send_buf in
    let frame =
      take-frame p (drop (0 + length (encode p)) s.send_buf) (p.len + packet_head)
        (omega (arith, length-encode p, w.len_true)) in
    (
      record s { send_buf = buf },
      send_data_copied s p.type_id p.len p.buf buf (sym w.len_true) copied
          ∙ ap (post (record s { send_buf = buf }) (p.len + packet_head)) open_conn
          ∙ ap (λ x. some (record s { send_buf = buf }, send conn x ∷ [])) frame,
      open_conn,
      omega (arith, size, length-memcpy s.send_buf 0 (encode p) copied),
    )

-- A payload of more than 65496 bytes is copied past the end of `m_SendBuf`.
pub send_data_fault :
    (s : Session) (type_id len : ℕ) (payload : List ℕ)
    → length s.send_buf ≡ max_output_buffer
    → max_output_buffer < packet_head + len
    → send_data s type_id len payload ≡ none
unfolding send_data
send_data_fault s type_id len payload size big = elim (Option-cases (read payload 0 len)) [
  | inl short ↦ rw (short, send_data)
  | inr (body, whole) ↦
      rw (whole, send_data)
        (rw
          (
            memcpy_fault s.send_buf 0 (le16 type_id ++ (le16 len ++ body)) (
                omega
                  (arith, size, length-read payload 0 len whole, length-header type_id len body)),
            send_data,
          )
          refl)
]

-- SendData for one packet after the other: the bytes that go to the connection.
unfoldable pub send_all : Session → List Packet → Option (List ℕ)
send_all s [] = some []
send_all s (p ∷ ps) = elim (send_data s p.type_id p.len p.buf) [
  | none ↦ none
  | some (s', es) ↦ elim (send_all s' ps) [ none ↦ none | some bytes ↦ some (sent es ++ bytes) ]
]

-- A session with a connection sends packets as their frames, one after the other, and no copy
-- leaves `m_SendBuf`, which holds 65500 bytes. Condition: every frame has at most 65500 bytes.
pub send_all-encode_all :
    (s : Session) (conn : ℕ) (ps : List Packet)
    → s.connection ≡ some conn
    → length s.send_buf ≡ max_output_buffer
    → AllWire max_output_buffer ps
    → send_all s ps ≡ some (encode_all ps)
unfolding send_all encode_all sent
send_all-encode_all s conn [] open_conn size w = refl
send_all-encode_all s conn (p ∷ ps) open_conn size w =
    let (s', e, open_conn', size') = send_data-encode s conn p open_conn size w.0 in
    rw (e, send_all) (rw (send_all-encode_all s' conn ps open_conn' size' w.1, append-nil) refl)
