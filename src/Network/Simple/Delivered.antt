-- ===== src/Network/Simple/Delivered.antt =====
-- What the thread of the client makes of the answers of select and recv
-- (simplenetwork/src/simple_worker.cpp, simplenetwork/src/simple_connection.cpp).
use lib_fantuan.Prelude.{
  ℕ, suc, zero, ◌+◌, ◌≤◌, ◌≡◌, refl, sym, ap, ◌∙◌, Bool, true, false, some, List, [], ◌∷◌, ◌++◌,
  length, replicate, take, drop, take_two, length-memcpy, memcpy_lem, append_assoc, append-nil,
  arith,
}
use lib_fantuan.Midware.Receive.{max_input_buffer}
use lib_fantuan.Network.Simple.{
  Notice, on_connection, on_data, on_disconnect, SimpleConnection, new_simple, close_simple, got,
  closed, recv_simple, Selected, select_failed, timed_out, readable, goes_round, returned,
  exceptional, Running, simple_thread, login,
}

-- The bytes that the calls of OnData hand over.
abbrev pub bytes_of : List Notice → List ℕ
bytes_of [] = []
bytes_of (on_data n buf ∷ ks) = take n buf ++ bytes_of ks
bytes_of (on_connection ∷ ks) = bytes_of ks
bytes_of (on_disconnect ∷ ks) = bytes_of ks

bytes_of-append :
    (ks : List Notice) (n : ℕ) (buf : List ℕ)
    → bytes_of (ks ++ on_data n buf ∷ []) ≡ bytes_of ks ++ take n buf
bytes_of-append [] n buf = rw append-nil
bytes_of-append (on_data m b ∷ ks) n buf = rw (bytes_of-append ks n buf, append_assoc)
bytes_of-append (on_connection ∷ ks) n buf = bytes_of-append ks n buf
bytes_of-append (on_disconnect ∷ ks) n buf = bytes_of-append ks n buf

bytes_of-append_disconnect :
    (ks : List Notice) → bytes_of (ks ++ on_disconnect ∷ []) ≡ bytes_of ks ++ []
bytes_of-append_disconnect [] = refl
bytes_of-append_disconnect (on_data m b ∷ ks) =
    ap (◌++◌ (take m b)) (bytes_of-append_disconnect ks)
    ∙ sym (append_assoc (take m b) (bytes_of ks) [])
bytes_of-append_disconnect (on_connection ∷ ks) = bytes_of-append_disconnect ks
bytes_of-append_disconnect (on_disconnect ∷ ks) = bytes_of-append_disconnect ks

-- Rounds of the thread, the bytes of those up to an error of select or an exception, and whether there is one.
-- No recv fails.
pub data Rounds : List Selected → List ℕ → Bool → Type 0 where
  ends : Rounds [] [] false
  waits :
      {answers : List Selected} {bytes : List ℕ} {over : Bool}
      → Rounds answers bytes over
      → Rounds (timed_out ∷ answers) bytes over
  shuts :
      {answers : List Selected} {bytes : List ℕ} {over : Bool}
      → Rounds answers bytes over
      → Rounds (readable closed ∷ answers) bytes over
  comes :
      {answers : List Selected} {bytes : List ℕ} {over : Bool} (chunk : List ℕ)
      → 1 ≤ length chunk
      → length chunk ≤ max_input_buffer
      → Rounds answers bytes over
      → Rounds (readable (got chunk) ∷ answers) (chunk ++ bytes) over
  errs : (answers : List Selected) → Rounds (select_failed ∷ answers) [] true
  excepts : (answers : List Selected) → Rounds (exceptional ∷ answers) [] true

-- How the thread stands after such rounds.
abbrev pub standing : Bool → SimpleConnection → Running
standing true d = returned d
standing false d = goes_round d

-- A connection after bytes have come.
record Got (chunk : List ℕ) (c : SimpleConnection) : Type 0 where
  next : SimpleConnection
  received : recv_simple (got chunk) c ≡ some next
  buffer_stays : length next.buffer ≡ length c.buffer
  handed : bytes_of next.notices ≡ bytes_of c.notices ++ chunk

recv_simple-Got :
    (chunk : List ℕ) (c : SimpleConnection)
    → 1 ≤ length chunk
    → length chunk ≤ length c.buffer
    → Got chunk c
unfolding recv_simple
recv_simple-Got [] c some_bytes fits = absurd (omega arith)
recv_simple-Got (x ∷ xs) c some_bytes fits =
    let copied = memcpy_lem c.buffer 0 (x ∷ xs) (omega arith) in
    let buf = take 0 c.buffer ++ ((x ∷ xs) ++ drop (0 + length (x ∷ xs)) c.buffer) in
    let front : take (length (x ∷ xs)) buf ≡ x ∷ xs =
      take_two (length (x ∷ xs)) [] (x ∷ xs) (drop (0 + length (x ∷ xs)) c.buffer) (omega arith) in
    record {
      next = record c { buffer = buf; notices = c.notices ++ on_data (length (x ∷ xs)) buf ∷ [] };
      received = rw (copied, recv_simple) refl;
      buffer_stays = length-memcpy c.buffer 0 (x ∷ xs) copied;
      handed =
          bytes_of-append c.notices (length (x ∷ xs)) buf ∙ ap (λ k. bytes_of c.notices ++ k) front;
    }

close-bytes_of :
    (c : SimpleConnection) → bytes_of (close_simple c).notices ≡ bytes_of c.notices ++ []
unfolding close_simple
close-bytes_of c = bytes_of-append_disconnect c.notices

-- The thread hands the bytes that come to OnData, all of them and in order, up to the first error of select or
-- exception, with which it returns; until then it goes round, also where the other side has closed.
-- Conditions: no recv fails, and recv gives at most the 1024 bytes that the buffer has.
pub simple_thread-delivers :
    {answers : List Selected} {bytes : List ℕ} {over : Bool} (c : SimpleConnection)
    → Rounds answers bytes over
    → length c.buffer ≡ max_input_buffer
    → (d : SimpleConnection) × (simple_thread answers c ≡ standing over d)
      × (bytes_of d.notices ≡ bytes_of c.notices ++ bytes)
unfolding simple_thread recv_simple
simple_thread-delivers c ends h = (c, refl, sym (append-nil (bytes_of c.notices)))
simple_thread-delivers c (waits r) h = simple_thread-delivers c r h
simple_thread-delivers c (shuts r) h = simple_thread-delivers c r h
simple_thread-delivers c (errs answers) h = (close_simple c, refl, close-bytes_of c)
simple_thread-delivers c (excepts answers) h = (close_simple c, refl, close-bytes_of c)
simple_thread-delivers c (comes {bytes = bytes} chunk some_bytes fits r) h =
    let g = recv_simple-Got chunk c some_bytes (omega (arith, fits, h)) in
    let (d, runs, seen) = simple_thread-delivers g.next r (g.buffer_stays ∙ h) in
    (
      d,
      rw (g.received, simple_thread) runs,
      seen ∙ (ap (λ k. k ++ bytes) g.handed ∙ append_assoc (bytes_of c.notices) chunk bytes),
    )

-- Where the server closes, the thread goes round for ever, and OnDisconnect does not come: RecvData returns -1,
-- which nobody looks at.
pub simple_thread-closed :
    (n : ℕ) (c : SimpleConnection) → simple_thread (replicate n (readable closed)) c ≡ goes_round c
unfolding simple_thread recv_simple
simple_thread-closed zero c = refl
simple_thread-closed (suc n) c = simple_thread-closed n c

-- Where connect fails, the client starts its thread all the same, on the closed socket: the handler is given
-- OnDisconnect twice, and OnConnection never.
pub login-refused :
    (answers : List Selected)
    → login false (select_failed ∷ answers) new_simple
      ≡ returned (record new_simple { notices = on_disconnect ∷ on_disconnect ∷ [] })
unfolding login close_simple
login-refused answers = refl
