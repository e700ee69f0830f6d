-- ===== src/Midware/Stream.antt =====
-- The streams of midware/src/easy_stream.h, over memory as bytes. A value is the bytes of its type, so
-- its length is `sizeof(T)`; an array is the bytes of its elements, and `cell` is `sizeof(T)`.
pub mod Writing
pub mod RoundTrip
mod Tests
use lib_fantuan.Prelude.{
  ℕ, zero, suc, ◌+◌, ◌-◌, ◌*◌, ◌%◌, ◌^◌, Bool, true, false, Option, none, some, List, [], ◌∷◌,
  length, leb, if◌then◌else◌, memcpy, read, replicate,
}
use lib_fantuan.Midware.Session.{max_output_buffer}

-- What the methods that write share: `n` bytes of `src` go to `buf + len`. The result holds the
-- memory, the length and what is returned; `none` is an access outside the memory.
unfoldable pub write : List ℕ → ℕ → ℕ → List ℕ → Option (List ℕ × ℕ × Bool)
write buf len n src =
    if leb (len + n) max_output_buffer
    then elim (read src 0 n) [
      | none ↦ none
      | some bytes ↦ elim (memcpy buf len bytes) [
        | none ↦ none
        | some buf' ↦ some (buf', (len + n) % 2 ^ 16, true)
      ]
    ]
    else some (buf, len, false)

-- What the methods that read share: the bytes that are read and the index, or no bytes where false
-- is returned.
fetch : List ℕ → ℕ → ℕ → Bool → Option (Option (List ℕ) × ℕ)
fetch buf index n true = elim (read buf index n) [
  | none ↦ none
  | some bytes ↦ some (some bytes, (index + n) % 2 ^ 16)
]
fetch buf index n false = some (none, index)

-- `OutputStream`.
pub record OutputStream : Type 0 where
  pub data_length : ℕ
  pub data_buffer : List ℕ

unfoldable pub new_output : OutputStream
new_output = record { data_length = 0; data_buffer = replicate max_output_buffer 0 }

written : OutputStream → Option (List ℕ × ℕ × Bool) → Option (OutputStream × Bool)
written s none = none
written s (some (buf, len, ok)) = some (record { data_length = len; data_buffer = buf }, ok)

-- `OutputStream::Serialize(value)`.
unfoldable pub serialize : OutputStream → List ℕ → Option (OutputStream × Bool)
unfolding write written
serialize s value = written s (write s.data_buffer s.data_length (length value) value)

-- `OutputStream::Serialize(iCount, array)`. The product has 16 bits.
unfoldable pub serialize_array : OutputStream → ℕ → ℕ → List ℕ → Option (OutputStream × Bool)
unfolding write written
serialize_array s count cell array =
    written s (write s.data_buffer s.data_length (count * cell % 2 ^ 16) array)

-- `InputStream`.
pub record InputStream : Type 0 where
  pub data_length : ℕ
  pub data_index : ℕ
  pub data_buffer : List ℕ

-- The constructor. The length is cast to 16 bits.
unfoldable pub new_input : ℕ → List ℕ → InputStream
new_input len buf = record { data_length = len % 2 ^ 16; data_index = 0; data_buffer = buf }

fetched : InputStream → Option (Option (List ℕ) × ℕ) → Option (InputStream × Option (List ℕ))
fetched s none = none
fetched s (some (bytes, index)) = some (record s { data_index = index }, bytes)

-- `InputStream::Serialize(value)` of a type of `cell` bytes. The difference is a signed number that
-- is compared in 64 bits. The result holds the value, if true is returned.
unfoldable pub deserialize : InputStream → ℕ → Option (InputStream × Option (List ℕ))
unfolding fetch fetched
deserialize s cell = fetched s (
    fetch s.data_buffer s.data_index cell
      (leb cell ((2 ^ 64 + s.data_length - s.data_index) % 2 ^ 64)))

-- `InputStream::Serialize(iCount, array)`. Both sides of the test are signed numbers.
unfoldable pub deserialize_array : InputStream → ℕ → ℕ → Option (InputStream × Option (List ℕ))
unfolding fetch fetched
deserialize_array s count cell =
    let n = count * cell % 2 ^ 16 in
    fetched s (fetch s.data_buffer s.data_index n (leb (s.data_index + n) s.data_length))

-- `Stream`, which is written and read: `owned` is `m_bDelete`.
pub record Stream : Type 0 where
  pub data_len : ℕ
  pub data_index : ℕ
  pub data_buffer : List ℕ
  pub owned : Bool

-- `Stream()`, where `memory` is what the allocation gives, and `index` what `m_iDataIndex` holds before:
-- it is not set.
unfoldable pub new_stream : List ℕ → ℕ → Stream
new_stream memory index = record {
  data_len = 0;
  data_index = index;
  data_buffer = memory;
  owned = true;
}

-- `Stream(iLength, pBuf)`.
unfoldable pub stream_on : ℕ → List ℕ → Stream
stream_on len buf = record {
  data_len = len % 2 ^ 16;
  data_index = 0;
  data_buffer = buf;
  owned = false;
}

stream_written : Stream → Option (List ℕ × ℕ × Bool) → Option (Stream × Bool)
stream_written s none = none
stream_written s (some (buf, len, ok)) = some (record s { data_len = len; data_buffer = buf }, ok)

stream_fetched : Stream → Option (Option (List ℕ) × ℕ) → Option (Stream × Option (List ℕ))
stream_fetched s none = none
stream_fetched s (some (bytes, index)) = some (record s { data_index = index }, bytes)

-- `Stream::Serialize` and `Stream::DeSerialize`, of a value and of an array.
unfoldable pub stream_serialize : Stream → List ℕ → Option (Stream × Bool)
unfolding write stream_written
stream_serialize s value = stream_written s (write s.data_buffer s.data_len (length value) value)

unfoldable pub stream_serialize_array : Stream → ℕ → ℕ → List ℕ → Option (Stream × Bool)
unfolding write stream_written
stream_serialize_array s count cell array =
    stream_written s (write s.data_buffer s.data_len (count * cell % 2 ^ 16) array)

unfoldable pub stream_deserialize : Stream → ℕ → Option (Stream × Option (List ℕ))
unfolding fetch stream_fetched
stream_deserialize s cell = stream_fetched s (
    fetch s.data_buffer s.data_index cell
      (leb cell ((2 ^ 64 + s.data_len - s.data_index) % 2 ^ 64)))

unfoldable pub stream_deserialize_array : Stream → ℕ → ℕ → Option (Stream × Option (List ℕ))
unfolding fetch stream_fetched
stream_deserialize_array s count cell =
    let n = count * cell % 2 ^ 16 in
    stream_fetched s (fetch s.data_buffer s.data_index n (leb (s.data_index + n) s.data_len))
