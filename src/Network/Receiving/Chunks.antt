-- ===== src/Network/Receiving/Chunks.antt =====
-- What EasyConnection::RecvData (network/src/easy_connection.cpp) hands on of the chunks that arrive.
use lib_fantuan.Prelude.{
  ℕ, ◌+◌, ◌≤◌, ◌<◌, ◌≡◌, refl, ap, ◌∙◌, true, false, Option, some, List, ◌∷◌, ◌++◌, arith, length,
  take, drop, set, ◌==◌, memcpy, memcpy_lem, length-memcpy, take-memcpy, length-set, take-append_le,
  take_all, length-take, take-take,
}
use lib_fantuan.Network.Receiving.{
  maxline, RecvAnswer, got, interrupted, on_data, outside, recv_loop, recv_data, store_at,
}

full_test : (n : ℕ) → n ≡ maxline → (n == maxline) ≡ true
full_test n h = ground arith

short_test : (n : ℕ) → n < maxline → (n == maxline) ≡ false
short_test n h = ground arith

module _ (buf : List ℕ) {buf' : List ℕ} (len off : ℕ) (bytes : List ℕ) (answers : List RecvAnswer)
    (stored : memcpy buf off bytes ≡ some buf') where
  recv_short :
      length bytes < maxline
      → recv_loop buf len (some off) (got bytes ∷ answers) ≡ on_data (len + length bytes) buf'
  unfolding recv_loop store_at
  recv_short h = rw (stored, recv_loop) (rw (short_test (length bytes) h) refl)

  recv_full :
      length bytes ≡ maxline
      → recv_loop buf len (some off) (got bytes ∷ answers)
        ≡ recv_loop buf' (len + length bytes) (some (length bytes)) answers
  unfolding recv_loop store_at
  recv_full h = rw (stored, recv_loop) (rw (full_test (length bytes) h) refl)

-- A chunk of fewer than 256 bytes is handed on as it is. Condition: the memory has room for it.
pub recv_data-short :
    (buf bytes : List ℕ) (answers : List RecvAnswer)
    → length bytes < maxline
    → length bytes ≤ length buf
    → (buf' : List ℕ) × (recv_data buf (got bytes ∷ answers) ≡ on_data (length bytes) buf')
      × (take (length bytes) buf' ≡ bytes)
unfolding recv_data
recv_data-short buf bytes answers short room =
    let stored = memcpy_lem (set buf 0 10) 0 bytes (omega (arith, length-set buf 0 10)) in
    (
      bytes ++ drop (0 + length bytes) (set buf 0 10),
      recv_short (set buf 0 10) 0 0 bytes answers stored short
          ∙ ap (λ n. on_data n (bytes ++ drop (0 + length bytes) (set buf 0 10))) (omega arith),
      take-append_le (length bytes) bytes (drop (0 + length bytes) (set buf 0 10)) (omega arith)
          ∙ take_all (length bytes) bytes (omega arith),
    )

-- A chunk of 256 bytes and a shorter one are handed on together, in order. Condition: the memory has
-- room for both.
pub recv_data-two :
    (buf first second : List ℕ) (answers : List RecvAnswer)
    → length first ≡ maxline
    → length second < maxline
    → length first + length second ≤ length buf
    → (buf' : List ℕ) × (recv_data buf (got first ∷ got second ∷ answers)
        ≡ on_data (length first + length second) buf')
      × (take (length first + length second) buf' ≡ first ++ second)
unfolding recv_data
recv_data-two buf first second answers full short room =
    let blank = set buf 0 10 in
    let stored = memcpy_lem blank 0 first (omega (arith, length-set buf 0 10)) in
    let buf1 = first ++ drop (0 + length first) blank in
    let stored' =
      memcpy_lem buf1 (length first) second
        (omega (arith, length-memcpy blank 0 first stored, length-set buf 0 10)) in
    let buf2 = take (length first) buf1 ++ (second ++ drop (length first + length second) buf1) in
    (
      buf2,
      recv_full blank 0 0 first (got second ∷ answers) stored full
          ∙ (recv_short buf1 (0 + length first) (length first) second answers stored' short
              ∙ ap (λ n. on_data n buf2) (omega arith)),
      take-memcpy buf1 (length first) second stored'
          ∙ ap (λ k. k ++ second)
              (take-append_le (length first) first (drop (0 + length first) blank) (omega arith)
                ∙ take_all (length first) first (omega arith)),
    )

-- A third chunk is stored over the second one: after two chunks of 256 bytes and a shorter one, the
-- length that is handed on counts all three, and behind the first one the memory holds the third.
-- Condition: the memory has room for two chunks.
pub recv_data-overwrites :
    (buf first second third : List ℕ) (answers : List RecvAnswer)
    → length first ≡ maxline
    → length second ≡ maxline
    → length third < maxline
    → length first + length second ≤ length buf
    → (buf' : List ℕ) × (recv_data buf (got first ∷ got second ∷ got third ∷ answers)
        ≡ on_data (length first + length second + length third) buf')
      × (take (length second + length third) buf' ≡ first ++ third)
unfolding recv_data
recv_data-overwrites buf first second third answers full full' short room =
    let blank = set buf 0 10 in
    let stored = memcpy_lem blank 0 first (omega (arith, length-set buf 0 10)) in
    let buf1 = first ++ drop (0 + length first) blank in
    let size1 = length-memcpy blank 0 first stored in
    let stored' =
      memcpy_lem buf1 (length first) second (omega (arith, size1, length-set buf 0 10)) in
    let buf2 = take (length first) buf1 ++ (second ++ drop (length first + length second) buf1) in
    let size2 = length-memcpy buf1 (length first) second stored' in
    let stored'' =
      memcpy_lem buf2 (length second) third (omega (arith, size1, size2, length-set buf 0 10)) in
    let buf3 = take (length second) buf2 ++ (third ++ drop (length second + length third) buf2) in
    let kept : take (length first) buf1 ≡ first =
      take-append_le (length first) first (drop (0 + length first) blank) (omega arith)
      ∙ take_all (length first) first (omega arith) in
    let front : take (length second) buf2 ≡ first =
      take-append_le (length second) (take (length first) buf1)
        (second ++ drop (length first + length second) buf1)
        (omega (arith, length-take (length first) buf1, size1, length-set buf 0 10))
      ∙ (take-take (length second) (length first) buf1 (omega arith)
          ∙ (ap (λ n. take n buf1) (omega arith) ∙ kept)) in
    (
      buf3,
      recv_full blank 0 0 first (got second ∷ got third ∷ answers) stored full
          ∙ (recv_full buf1 (0 + length first) (length first) second (got third ∷ answers) stored'
                full'
              ∙ (recv_short buf2 (0 + length first + length second) (length second) third answers
                    stored'' short
                  ∙ ap (λ n. on_data n buf3) (omega arith))),
      take-memcpy buf2 (length second) third stored'' ∙ ap (λ k. k ++ third) front,
    )

-- Bytes that arrive after an interrupted call are stored before the start of the memory.
pub recv_loop-interrupted :
    (buf bytes : List ℕ) (len : ℕ) (at : Option ℕ) (answers : List RecvAnswer)
    → recv_loop buf len at (interrupted ∷ got bytes ∷ answers) ≡ outside
unfolding recv_loop store_at
recv_loop-interrupted buf bytes len at answers = refl
