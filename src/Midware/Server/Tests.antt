-- ===== src/Midware/Server/Tests.antt =====
-- Runs of EasyBaseServer (midware/src/easy_baseserver.cpp), and its theorems at concrete inputs.
use lib_fantuan.Prelude.{
  ℕ, ◌≡◌, refl, true, false, Option, none, some, [], ◌∷◌, arith, get_elem?, replicate, memcpy,
  get_le16,
}
use lib_fantuan.Midware.Packet.{Packet, packet_at}
use lib_fantuan.Midware.Receive.{receive, drain, fill, consume}
use lib_fantuan.Midware.Session
use lib_fantuan.Midware.Session.{Session, Effect, reset_session}
use lib_fantuan.Midware.Server.{Server, calls, handles, initialize, accept_connection, with_client}
use lib_fantuan.Midware.Server.Handlers.{
  command_turn, command_on_data, command_on_connect, command_on_disconnect,
}
use lib_fantuan.Midware.Server.Reach.{Reach, starts, moves, accepts, works, Reach-Ready}
use lib_fantuan.Midware.Server.Turn.{Ready}
use lib_fantuan.Midware.Server.Isolation.{command_on_data-others}
use lib_fantuan.Midware.Server.Valid.{
  IsValid, command_on_connect-IsValid, command_on_disconnect-IsValid,
}
use lib_fantuan.Midware.Server.Pool.{single, initialize_aliases}

abbrev accept_all : Packet → ℕ
accept_all p = 0

-- New connections get memory of zeros.
abbrev cleared : Server → ℕ → Option ℕ
cleared s conn = none

abbrev blank : Session
blank = record {
  session_id = 0;
  connection = none;
  buf = record { len = 0; bytes = replicate 16 0 };
  send_buf = [];
}

abbrev server : Server
server = initialize blank 2

-- Two connections, at 40 and 50, and their sessions.
abbrev accepted : Server
accepted = (accept_connection (accept_connection server 40 none).0 50 none).0

abbrev session_40 : Session
session_40 = record {
  session_id = 1;
  connection = some 40;
  buf = record { len = 0; bytes = replicate 16 0 };
  send_buf = [];
}

abbrev session_50 : Session
session_50 = record {
  session_id = 0;
  connection = some 50;
  buf = record { len = 0; bytes = replicate 16 0 };
  send_buf = [];
}

-- The state after their commands.
abbrev two_connected : Server
two_connected = record {
  ready_for_shutdown = false;
  commands = [];
  pool = record { objects = session_40 ∷ session_50 ∷ []; free_list = [] };
  array = 0 ∷ 0 ∷ [];
  sessions = (1, 0) ∷ (0, 1) ∷ [];
  clients =
      with_client
        (with_client (with_client (with_client (λ conn. none) 40 (some none)) 50 (some none)) 40
          (some (some 0)))
        50 (some (some 1));
}

two_connected_run :
    command_turn blank accept_all accepted
    ≡ some (two_connected, calls (Effect.set_client 40 0) ∷ calls (Effect.set_client 50 1) ∷ [])
unfolding command_turn accept_connection initialize
two_connected_run = refl

two_connected-Reach : Reach blank cleared accept_all 2 two_connected
unfolding accept_connection initialize
two_connected-Reach =
    moves (moves (moves starts (accepts 40 refl)) (accepts 50 refl)) (works two_connected_run)

Reach-Ready_example : Ready two_connected []
Reach-Ready_example =
    Reach-Ready blank cleared accept_all 2 refl (λ s conn. refl) two_connected-Reach

-- One packet without a payload arrives on the first connection.
abbrev session_40_after : Session
session_40_after = record session_40 {
  buf = record { len = 0; bytes = 7 ∷ 0 ∷ 0 ∷ 0 ∷ replicate 12 0 };
}

data_run :
    command_on_data accept_all two_connected 40 (7 ∷ 0 ∷ 0 ∷ 0 ∷ [])
    ≡ some (
      record two_connected {
        pool = record { objects = session_40_after ∷ session_50 ∷ []; free_list = [] };
      },
      true,
      handles 0 (record { type_id = 7; len = 0; buf = [] } ∷ []) ∷ [],
    )
unfolding command_on_data Session.on_data receive fill drain consume packet_at memcpy get_le16
data_run = refl

others_example :
    get_elem? (session_40_after ∷ session_50 ∷ []) 1 ≡ get_elem? (session_40 ∷ session_50 ∷ []) 1
others_example =
    command_on_data-others blank cleared accept_all 2 40 50 1 (7 ∷ 0 ∷ 0 ∷ 0 ∷ []) refl
      (λ s conn. refl) two_connected-Reach data_run (λ e. absurd (omega arith)) refl

initialize_aliases_example :
    ((initialize blank 2).pool ≡ single (record blank { session_id = 1 }))
    × ((initialize blank 2).array ≡ 0 ∷ 0 ∷ [])
initialize_aliases_example = initialize_aliases blank 1

connect_example :
    (s' : Server) × (x : ℕ) × (command_on_connect blank
        (accept_connection two_connected 60 none).0
        60
      ≡ some (s', true, calls (Effect.set_client 60 x) ∷ []))
    × IsValid s'
    × (s'.clients
        ≡ with_client (accept_connection two_connected 60 none).0.clients 60 (some (some x)))
unfolding accept_connection
connect_example =
    command_on_connect-IsValid blank (accept_connection two_connected 60 none).0 60 refl
      (Reach-Ready blank cleared accept_all 2 refl (λ s conn. refl)
        (moves two_connected-Reach (accepts 60 refl))).0
      refl

disconnect_example :
    (s' : Server) × (command_on_disconnect two_connected 40
      ≡ some (s', true, calls (Effect.close 40) ∷ calls (Effect.delete 40) ∷ []))
    × IsValid s'
    × (s'.clients ≡ with_client two_connected.clients 40 none)
    × (s'.pool.free_list ≡ 0 ∷ [])
disconnect_example =
    command_on_disconnect-IsValid two_connected 40 0
      (Reach-Ready blank cleared accept_all 2 refl (λ s conn. refl) two_connected-Reach).0 refl
