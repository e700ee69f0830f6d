-- ===== src/Network/Tests.antt =====
-- Runs of the loops of the connections (network/src/easy_connection.cpp,
-- simplenetwork/src/simple_connection.cpp), and their theorems at concrete inputs.
use lib_fantuan.Prelude.{
  ℕ, ◌+◌, ◌≡◌, refl, true, false, some, none, List, [], ◌∷◌, ◌++◌, arith, length, replicate,
  length-replicate, take,
}
use lib_fantuan.Network.Receiving.{got, on_data, recv_data}
use lib_fantuan.Network.Receiving.Chunks.{recv_data-overwrites}
use lib_fantuan.Network.Sending
use lib_fantuan.Network.Sending.{
  wrote, EasyContext, Sending, rest, clear_context, all_sent, disconnected, suspended, send_message,
  send_simple, retry_message, retry_loop, again,
}
use lib_fantuan.Network.Sending.Wire.{
  Accounts, Answers, ends, takes, delays, send_message-Accounts, send_message-resends,
}
use lib_fantuan.Network.Sending.Outgoing.{
  Outgoing, new_outgoing, send_buffer, flush, History, accepted, sends, flushes, Balanced,
  History-Balanced,
}

-- A whole line of 256 bytes, and the memory of 1024.
abbrev line : ℕ → List ℕ
line byte = replicate 256 byte

abbrev memory : List ℕ
memory = replicate 1024 0

recv_data-overwrites_example :
    (buf : List ℕ) × (recv_data memory (got (line 1) ∷ got (line 2) ∷ got (3 ∷ []) ∷ [])
      ≡ on_data (length (line 1) + length (line 2) + 1) buf)
    × (take (length (line 2) + 1) buf ≡ line 1 ++ 3 ∷ [])
recv_data-overwrites_example =
    recv_data-overwrites memory (line 1) (line 2) (3 ∷ []) [] (length-replicate {A = ℕ} 256 1)
      (length-replicate {A = ℕ} 256 2) (omega arith)
      (omega (
        arith,
        length-replicate {A = ℕ} 256 1,
        length-replicate {A = ℕ} 256 2,
        length-replicate {A = ℕ} 1024 0,
      ))

abbrev message : EasyContext
message = record { memory = 10 ∷ 11 ∷ 12 ∷ 13 ∷ []; off = 0; len = 4 }

abbrev two_parts : Answers message (wrote 1 ∷ wrote 3 ∷ [])
two_parts = takes 1 (omega arith) (takes 3 (omega arith) ends)

send_message-Accounts_example :
    Accounts (10 ∷ 11 ∷ 12 ∷ 13 ∷ []) (send_message message (wrote 1 ∷ wrote 3 ∷ []))
send_message-Accounts_example = send_message-Accounts two_parts

send_message_run :
    send_message message (wrote 1 ∷ Sending.again ∷ [])
    ≡ suspended (10 ∷ []) (record { memory = 10 ∷ 11 ∷ 12 ∷ 13 ∷ []; off = 1; len = 3 })
unfolding send_message
send_message_run = refl

send_message-resends_example :
    (c : EasyContext) × (send_message message (wrote 2 ∷ Sending.interrupted ∷ wrote 3 ∷ [])
      ≡ all_sent (10 ∷ 11 ∷ 11 ∷ 12 ∷ 13 ∷ []) c)
send_message-resends_example = send_message-resends message 2 (omega arith) (omega arith)

-- Accepted, and a message of which `send` has taken one byte.
abbrev suspended_one : Outgoing
suspended_one = record {
  context = record { memory = 10 ∷ 11 ∷ 12 ∷ 13 ∷ []; off = 1; len = 3 };
  permits = 0;
  watched = true;
  lost = 0;
}

abbrev sent_whole : Outgoing
sent_whole = record {
  context = record { memory = 10 ∷ 0 ∷ 12 ∷ 13 ∷ []; off = 1; len = 0 };
  permits = 1;
  watched = false;
  lost = 0;
}

suspended_one_run :
    send_buffer message (wrote 1 ∷ Sending.again ∷ []) (new_outgoing message) ≡ some suspended_one
unfolding send_buffer send_message
suspended_one_run = refl

-- Nobody else may send until EPOLLOUT.
second_run : send_buffer message (wrote 4 ∷ []) suspended_one ≡ none
unfolding send_buffer
second_run = refl

flush_run : flush (wrote 3 ∷ []) suspended_one ≡ some sent_whole
unfolding flush retry_message retry_loop
flush_run = refl

flush_loop :
    retry_message suspended_one.context (wrote 3 ∷ [])
    ≡ all_sent (11 ∷ 12 ∷ 13 ∷ []) sent_whole.context
unfolding retry_message retry_loop
flush_loop = refl

suspended_one-History : History suspended_one
suspended_one-History =
    sends message (wrote 1 ∷ Sending.again ∷ []) (accepted message) (omega arith)
      (takes 1 (omega arith) delays) suspended_one_run

sent_whole-History : History sent_whole
sent_whole-History =
    flushes (wrote 3 ∷ []) (11 ∷ 12 ∷ 13 ∷ []) sent_whole.context suspended_one-History refl
      flush_loop flush_run

History-Balanced_example : Balanced sent_whole
History-Balanced_example = History-Balanced sent_whole-History
