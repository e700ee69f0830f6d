-- ===== src/Midware/Stream/Tests.antt =====
-- Runs of the streams of midware/src/easy_stream.h, and their theorems at concrete inputs.
use lib_fantuan.Prelude.{
  ℕ, ◌+◌, ◌%◌, ◌^◌, ◌≡◌, refl, true, false, some, List, [], ◌∷◌, ◌++◌, arith, length, replicate,
  length-replicate, take, read, ◌≤◌,
}
use lib_fantuan.Midware.Stream.{
  OutputStream, new_output, serialize_array, new_input, stream_on, stream_deserialize,
}
use lib_fantuan.Midware.Stream.RoundTrip.{
  serialize_all, deserialize_all, deserialize_all-serialize_all,
}
use lib_fantuan.Midware.Stream.Writing.{
  IsValid, contents, new_output-IsEmpty, serialize_array-contents,
}

abbrev values : List (List ℕ)
values = (1 ∷ 2 ∷ []) ∷ (3 ∷ []) ∷ (4 ∷ 5 ∷ 6 ∷ 7 ∷ []) ∷ []

deserialize_all-serialize_all_example :
    (s : OutputStream) × (serialize_all new_output values ≡ some s)
    × (s.data_length ≡ 7)
    × (deserialize_all (new_input s.data_length s.data_buffer) (2 ∷ 1 ∷ 4 ∷ []) ≡ some values)
deserialize_all-serialize_all_example = deserialize_all-serialize_all values (omega arith)

-- An array of 16385 elements of four bytes each.
abbrev ones : List ℕ
ones = replicate 65540 1

length-ones : length ones ≡ 65540
length-ones = length-replicate {A = ℕ} 65540 1

array_fits : new_output.data_length + length ones % 2 ^ 16 ≤ 65500
array_fits = omega (arith, length-ones, new_output-IsEmpty.at_start)

serialize_array-contents_example :
    (s : OutputStream) × (serialize_array new_output 16385 4 ones ≡ some (s, true))
    × IsValid s
    × (contents s ≡ contents new_output ++ take (length ones % 2 ^ 16) ones)
serialize_array-contents_example =
    serialize_array-contents {s = new_output} 16385 4 ones new_output-IsEmpty.valid length-ones
      array_fits

-- A stream on memory of four bytes that were written before.
stream_run :
    stream_deserialize (stream_on 4 (9 ∷ 8 ∷ 7 ∷ 6 ∷ [])) 2
    ≡ some (
      record { data_len = 4; data_index = 2; data_buffer = 9 ∷ 8 ∷ 7 ∷ 6 ∷ []; owned = false },
      some (9 ∷ 8 ∷ []),
    )
unfolding stream_deserialize stream_on read
stream_run = refl
