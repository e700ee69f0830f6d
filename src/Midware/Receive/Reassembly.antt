-- ===== src/Midware/Receive/Reassembly.antt =====
-- EasySession::OnData (midware/src/easy_session.cpp) on bytes that fit into the receive buffer.
use lib_fantuan.Prelude.{
  ℕ, suc, ◌+◌, ◌^◌, ◌≤◌, ◌<◌, ◌≡◌, refl, some, List, [], ◌++◌, append_assoc, arith, length,
}
use lib_fantuan.Midware.Packet.{Packet, encode_all, AllWire}
use lib_fantuan.Midware.Receive.{
  RecvBuf, max_input_buffer, fill, waits, drain, Received, done, receive,
}
use lib_fantuan.Midware.Receive.Buffer.{IsValid, pending, fill_fits}
use lib_fantuan.Midware.Receive.Drain.{Incomplete, drain-Drains}

-- How a call ends that was given bytes up to `rest`, of a stream of the frames of `qs`.
pub record Receives (r : Received) (rest : List ℕ) (qs : List Packet) : Type 0 where
  pub handed : List Packet
  pub left : List Packet
  pub buf : RecvBuf
  pub ends : r ≡ done buf handed
  pub split : qs ≡ handed ++ left
  pub front : pending buf ++ rest ≡ encode_all left
  pub valid : IsValid buf
  pub incomplete : Incomplete left buf.len

receive_round :
    (handle : Packet → ℕ) (fuel : ℕ) (b b' b'' : RecvBuf) (chunk : List ℕ) (ps : List Packet)
    → fill b chunk ≡ some (b', [])
    → drain handle (suc b'.len) b' ≡ waits b'' ps
    → receive handle (suc fuel) b chunk ≡ done b'' ps
unfolding receive
receive_round handle fuel b b' b'' chunk ps f d = rw (f, receive) (rw (d, receive) refl)

module _ (handle : Packet → ℕ) (accepts : (p : Packet) → handle p ≡ 0) {limit : ℕ}
    (small : limit < 2 ^ 16) where
  pub receive-Receives :
      (qs : List Packet) (fuel : ℕ) (b : RecvBuf) (chunk rest : List ℕ)
      → AllWire limit qs
      → IsValid b
      → b.len + length chunk ≤ max_input_buffer
      → pending b ++ (chunk ++ rest) ≡ encode_all qs
      → Receives (receive handle (suc fuel) b chunk) rest qs
  receive-Receives qs fuel b chunk rest w v fits e =
      let (b', filled, v', len, front) = fill_fits b chunk v fits in
      let drained =
        drain-Drains handle accepts small qs (suc b'.len) b' rest w v' (omega arith)
          (rw (front, append_assoc (pending b) chunk rest) e) in
      record {
        handed = drained.handed;
        left = drained.left;
        buf = drained.buf;
        ends = receive_round handle fuel b b' drained.buf chunk drained.handed filled drained.ends;
        split = drained.split;
        front = drained.front;
        valid = drained.valid;
        incomplete = drained.incomplete;
      }
