-- ===== src/Midware/Client/Tests.antt =====
-- Runs of EasyBaseClient (midware/src/easy_baseclient.cpp), and its theorems at concrete inputs.
use lib_fantuan.Prelude.{
  ℕ, ◌≡◌, refl, false, some, List, [], ◌∷◌, arith, replicate, length-replicate, memcpy, read, le16,
  get_le16,
}
use lib_fantuan.Midware.Packet.{Packet, packet_at}
use lib_fantuan.Midware.Receive.{RecvBuf, done, receive, fill, drain, consume}
use lib_fantuan.Midware.Receive.Buffer.{IsValid}
use lib_fantuan.Midware.Session.{Session}
use lib_fantuan.Midware.Session.Stream.{feed, concat}
use lib_fantuan.Midware.Command
use lib_fantuan.Midware.Client.{Client, command_turn, send_data}
use lib_fantuan.Midware.Client.Delivery.{Message, packets, send_messages, feed-send_messages}
use lib_fantuan.Network.Sending.{wrote, send_simple}
use lib_fantuan.Network.Sending.Wire.{AnyAnswers}

abbrev accept : Packet → ℕ
accept p = 0

-- Two packets; the first one is sent in two parts.
abbrev messages : List Message
messages =
    record {
      packet = record { type_id = 1; len = 2; buf = 7 ∷ 8 ∷ [] };
      answers = wrote 5 ∷ wrote 1 ∷ [];
    }
    ∷ record { packet = record { type_id = 258; len = 0; buf = [] }; answers = wrote 4 ∷ [] }
    ∷ []

abbrev on_wire : List ℕ
on_wire = 1 ∷ 0 ∷ 2 ∷ 0 ∷ 7 ∷ 8 ∷ 2 ∷ 1 ∷ 0 ∷ 0 ∷ []

abbrev chunks : List (List ℕ)
chunks = (1 ∷ 0 ∷ 2 ∷ []) ∷ (0 ∷ 7 ∷ 8 ∷ 2 ∷ []) ∷ (1 ∷ 0 ∷ 0 ∷ []) ∷ []

abbrev session : Session
session = record {
  session_id = 3;
  connection = some 12;
  buf = record { len = 0; bytes = replicate 1024 0 };
  send_buf = [];
}

messages_run : send_messages messages ≡ some on_wire
unfolding send_messages send_data send_simple read memcpy le16
messages_run = refl

feed-send_messages_example :
    (b : RecvBuf) × (feed accept session chunks ≡ done b (packets messages))
    × (b.len ≡ 0)
    × IsValid b
unfolding concat
feed-send_messages_example =
    feed-send_messages accept 6 4 messages chunks on_wire session (λ p. refl) (omega arith)
      (omega arith) (omega arith)
      (
        record {
          type_fits = omega arith;
          len_fits = omega arith;
          len_true = refl;
          frame_fits = omega arith;
        },
        (
          record {
            type_fits = omega arith;
            len_fits = omega arith;
            len_true = refl;
            frame_fits = omega arith;
          },
          tt,
        ),
      )
      (
        AnyAnswers.takes 5 (omega arith) (AnyAnswers.takes 1 (omega arith) AnyAnswers.ends),
        (AnyAnswers.takes 4 (omega arith) AnyAnswers.ends, tt),
      )
      (omega arith, (omega arith, (omega arith, tt)))
      (record { size = length-replicate {A = ℕ} 1024 0; len_in = omega arith }) refl messages_run
      refl

-- A connection is made and sends a packet without a payload.
abbrev client : Client
client = record {
  ready_for_shutdown = false;
  commands = Command.on_connect 5 ∷ Command.on_data 5 (7 ∷ 0 ∷ 0 ∷ 0 ∷ []) ∷ [];
  buf = record { len = 0; bytes = replicate 8 0 };
}

turn_run :
    command_turn accept client
    ≡ some (
      record {
        ready_for_shutdown = false;
        commands = [];
        buf = record { len = 0; bytes = 7 ∷ 0 ∷ 0 ∷ 0 ∷ replicate 4 0 };
      },
      record { type_id = 7; len = 0; buf = [] } ∷ [],
    )
unfolding command_turn receive fill drain consume packet_at memcpy get_le16
turn_run = refl
