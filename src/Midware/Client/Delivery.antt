-- ===== src/Midware/Client/Delivery.antt =====
-- From EasyBaseClient::SendData (midware/src/easy_baseclient.cpp) over the wire to EasySession::OnData
-- (midware/src/easy_session.cpp).
use lib_fantuan.Prelude.{
  ℕ, ◌+◌, ◌≤◌, ◌<◌, ◌≡◌, refl, sym, ap₂, ◌∙◌, inl, inr, Option, none, some, List, [], ◌∷◌, ◌++◌,
  arith, length, drop, replicate, length-replicate, memcpy_lem, memcpy_fault, le16, Option-cases,
}
use lib_fantuan.Midware.Packet.{
  Packet, packet_head, encode, encode_all, length-encode, IsWire, AllWire,
}
use lib_fantuan.Midware.Receive.{RecvBuf, done, max_input_buffer}
use lib_fantuan.Midware.Receive.Buffer.{IsValid}
use lib_fantuan.Midware.Session.{Session}
use lib_fantuan.Midware.Session.Send.{read_all, take-frame, length-header}
use lib_fantuan.Midware.Session.Stream.{feed, concat, AllShort, feed-encode_all}
use lib_fantuan.Midware.Client.{send_data}
use lib_fantuan.Network.Sending.{
  EasyContext, rest, SendAnswer, Sending, all_sent, suspended, disconnected, gave_up, blocks,
  outside, send_simple,
}
use lib_fantuan.Network.Sending.Wire.{Accounts, AnyAnswers, send_simple-Accounts}

-- The context with which SimpleConnection::SendData starts.
abbrev pub frame : Packet → EasyContext
frame p = record {
  memory = encode p ++ drop (0 + length (encode p)) (replicate max_input_buffer 0);
  off = 0;
  len = p.len + packet_head;
}

rest-frame : (p : Packet) → length p.buf ≡ p.len → rest (frame p) ≡ encode p
rest-frame p h =
    take-frame p (drop (0 + length (encode p)) (replicate max_input_buffer 0)) (p.len + packet_head)
      (omega (arith, length-encode p))

-- SendData of a packet whose frame has at most 1024 bytes hands that frame to the connection.
send_data-frame :
    (p : Packet) (answers : List SendAnswer)
    → IsWire max_input_buffer p
    → send_data p.type_id p.len p.buf answers ≡ some (send_simple (frame p) answers)
unfolding send_data encode
send_data-frame p answers w =
    let copied = memcpy_lem (replicate max_input_buffer 0) 0 (encode p) (
      omega (
        arith,
        length-encode p,
        w.len_true,
        w.frame_fits,
        length-replicate {A = ℕ} max_input_buffer 0,
      )) in
    rw (read_all p.buf p.len (sym w.len_true), send_data) (rw (copied, send_data) refl)

-- A payload of more than 1020 bytes is copied past the end of the buffer on the stack.
-- Condition: `pData` holds the payload.
pub send_data_past :
    (type_id : ℕ) (payload : List ℕ) (answers : List SendAnswer)
    → max_input_buffer < packet_head + length payload
    → send_data type_id (length payload) payload answers ≡ none
unfolding send_data
send_data_past type_id payload answers big =
    rw (read_all payload (length payload) refl, send_data)
      (rw
        (
          memcpy_fault (replicate max_input_buffer 0) 0
              (le16 type_id ++ (le16 (length payload) ++ payload))
              (omega (
                arith,
                length-replicate {A = ℕ} max_input_buffer 0,
                length-header type_id (length payload) payload,
              )),
          send_data,
        )
        refl)

-- A packet with what `send` answers while it is sent.
pub record Message : Type 0 where
  pub packet : Packet
  pub answers : List SendAnswer

abbrev pub packets : List Message → List Packet
packets [] = []
packets (m ∷ ms) = m.packet ∷ packets ms

abbrev pub AllAnswers : List Message → Type 0
AllAnswers [] = Unit {0}
AllAnswers (m ∷ ms) = AnyAnswers (frame m.packet) m.answers × AllAnswers ms

-- The bytes on the wire, where all of the message was sent.
abbrev pub complete : Sending → Option (List ℕ)
complete (all_sent wire c) = some wire
complete (suspended wire c) = none
complete (disconnected wire c) = none
complete (gave_up wire c) = none
complete (blocks wire c) = none
complete outside = none

-- SendData for one message after the other: the bytes on the wire, if all of them were sent.
unfoldable pub send_messages : List Message → Option (List ℕ)
send_messages [] = some []
send_messages (m ∷ ms) = elim (send_data m.packet.type_id m.packet.len m.packet.buf m.answers) [
  | none ↦ none
  | some s ↦ elim (complete s) [
    | none ↦ none
    | some bytes ↦ elim (send_messages ms) [ none ↦ none | some more ↦ some (bytes ++ more) ]
  ]
]

complete-Accounts :
    (message : List ℕ) (s : Sending) {wire : List ℕ}
    → Accounts message s
    → complete s ≡ some wire
    → wire ≡ message
complete-Accounts message (all_sent bytes c) {wire} a e =
    let same : bytes ≡ wire = cc in sym same ∙ a
complete-Accounts message (suspended bytes c) a e = absurd (cc)
complete-Accounts message (disconnected bytes c) a e = absurd (cc)
complete-Accounts message (gave_up bytes c) a e = absurd (cc)
complete-Accounts message (blocks bytes c) a e = absurd (cc)
complete-Accounts message outside a e = absurd (cc)

send_messages-encode_all :
    (ms : List Message) {wire : List ℕ}
    → AllWire max_input_buffer (packets ms)
    → AllAnswers ms
    → send_messages ms ≡ some wire
    → wire ≡ encode_all (packets ms)
unfolding send_messages encode_all
send_messages-encode_all [] w a e = cc
send_messages-encode_all (m ∷ ms) {wire} w a e =
    let sent = send_data-frame m.packet m.answers w.0 in
    let s = send_simple (frame m.packet) m.answers in
    elim (Option-cases (complete s)) [
      | inl part ↦ absurd (cc (rw (part, send_messages) at (rw (sent, send_messages) at e)))
      | inr (bytes, whole) ↦ elim (Option-cases (send_messages ms)) [
        | inl part ↦ absurd (
            cc (
              rw (part, send_messages) at
                (rw (whole, send_messages) at (rw (sent, send_messages) at e))))
        | inr (more, others) ↦
            let equal : bytes ++ more ≡ wire = cc (
              rw (others, send_messages) at
                (rw (whole, send_messages) at (rw (sent, send_messages) at e))) in
            let one : bytes ≡ encode m.packet =
              complete-Accounts (rest (frame m.packet)) s (send_simple-Accounts a.0) whole
              ∙ rest-frame m.packet w.0.len_true in
            sym equal ∙ ap₂ ◌++◌ one (send_messages-encode_all ms w.1 a.1 others)
      ]
    ]

-- What a client sends arrives: when all of a sequence of packets was sent, and a session gets the
-- bytes on the wire cut into chunks anywhere, it hands on exactly these packets in order.
-- Conditions: `send` takes no more bytes than it is given, every frame has at most `limit` bytes and
-- every chunk at most `chunk_limit`, where `limit` is 4 or more, `chunk_limit` 1 or more, and their sum
-- at most 1025, the session waits for no bytes, and `_HandlePacket` accepts every packet.
pub feed-send_messages :
    (handle : Packet → ℕ) (limit chunk_limit : ℕ) (ms : List Message) (chunks : List (List ℕ))
    (wire : List ℕ) (s : Session)
    → ((p : Packet) → handle p ≡ 0)
    → packet_head ≤ limit
    → limit + chunk_limit ≤ max_input_buffer + 1
    → 0 < chunk_limit
    → AllWire limit (packets ms)
    → AllAnswers ms
    → AllShort chunk_limit chunks
    → IsValid s.buf
    → s.buf.len ≡ 0
    → send_messages ms ≡ some wire
    → concat chunks ≡ wire
    → (b : RecvBuf) × (feed handle s chunks ≡ done b (packets ms)) × (b.len ≡ 0) × IsValid b
feed-send_messages handle limit chunk_limit ms chunks wire s accepts head room some_chunk w a short
      v start sent cut =
    feed-encode_all handle accepts limit chunk_limit head room (packets ms) chunks s w short v start
      (cut ∙ send_messages-encode_all ms (weaken (packets ms) w) a sent)
  where
    weaken : (ps : List Packet) → AllWire limit ps → AllWire max_input_buffer ps
    weaken [] h = tt
    weaken (p ∷ ps) h = (
      record {
        type_fits = h.0.type_fits;
        len_fits = h.0.len_fits;
        len_true = h.0.len_true;
        frame_fits = omega (arith, h.0.frame_fits);
      },
      weaken ps h.1,
    )
