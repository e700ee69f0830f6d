-- ===== src/Midware/Session/Tests.antt =====
-- Runs of EasySession (midware/src/easy_session.cpp), and its theorems at concrete inputs.
use lib_fantuan.Prelude.{
  ℕ, ◌≡◌, refl, none, some, List, [], ◌∷◌, arith, replicate, length-replicate, le16, get_le16,
}
use lib_fantuan.Midware.Packet.{Packet, packet_at, encode_all, encode}
use lib_fantuan.Midware.Receive.{RecvBuf, done, overrun, receive, drain_fuel, drain}
use lib_fantuan.Midware.Receive.Buffer.{IsValid}
use lib_fantuan.Midware.Receive.Faults.{receive_overrun, drain_never_ends}
use lib_fantuan.Midware.Session.{Session}
use lib_fantuan.Midware.Session.Send.{send_all, send_all-encode_all}
use lib_fantuan.Midware.Session.Stream.{feed, concat, feed-encode_all}

abbrev accept : Packet → ℕ
accept p = 0

abbrev ping : Packet
ping = record { type_id = 1; len = 2; buf = 7 ∷ 8 ∷ [] }

abbrev empty_packet : Packet
empty_packet = record { type_id = 258; len = 0; buf = [] }

-- The frames of both, cut inside the first header and inside the second one.
abbrev chunks : List (List ℕ)
chunks = (1 ∷ 0 ∷ 2 ∷ []) ∷ (0 ∷ 7 ∷ 8 ∷ 2 ∷ []) ∷ (1 ∷ 0 ∷ 0 ∷ []) ∷ []

abbrev zeroes : RecvBuf
zeroes = record { len = 0; bytes = replicate 1024 0 }

zeroes-IsValid : IsValid zeroes
zeroes-IsValid = record { size = length-replicate {A = ℕ} 1024 0; len_in = omega arith }

abbrev fresh : Session
fresh = record { session_id = 3; connection = none; buf = zeroes; send_buf = [] }

feed-encode_all_example :
    (b : RecvBuf) × (feed accept fresh chunks ≡ done b (ping ∷ empty_packet ∷ []))
    × (b.len ≡ 0)
    × IsValid b
unfolding concat encode_all encode le16
feed-encode_all_example =
    feed-encode_all accept (λ p. refl) 6 4 (omega arith) (omega arith) (ping ∷ empty_packet ∷ [])
      chunks fresh (omega arith) (omega arith) zeroes-IsValid refl refl

receive_overrun_example : receive accept 3001 zeroes (replicate 3000 1) ≡ overrun []
receive_overrun_example =
    receive_overrun accept 3000 zeroes (replicate 3000 1) zeroes-IsValid (omega arith) (omega arith)

-- A header that announces 65532 bytes, and nothing else.
abbrev endless : RecvBuf
endless = record { len = 4; bytes = 1 ∷ 0 ∷ 252 ∷ 255 ∷ replicate 1020 0 }

drain_never_ends_example : drain accept 1000 endless ≡ drain_fuel
unfolding packet_at get_le16
drain_never_ends_example = drain_never_ends accept 1000 endless (omega arith) refl refl

abbrev open_session : Session
open_session = record fresh { connection = some 12; send_buf = replicate 65500 0 }

send_all-encode_all_example :
    send_all open_session (ping ∷ empty_packet ∷ []) ≡ some (encode_all (ping ∷ empty_packet ∷ []))
send_all-encode_all_example =
    send_all-encode_all open_session 12 (ping ∷ empty_packet ∷ []) refl
      (length-replicate {A = ℕ} 65500 0) (omega arith)
