-- ===== src/Midware/Stream/Writing.antt =====
-- What Serialize of an OutputStream (midware/src/easy_stream.h) leaves in the stream.
use lib_fantuan.Prelude.{
  ℕ, ◌+◌, ◌*◌, ◌%◌, ◌^◌, ◌≤◌, ◌<◌, ◌≡◌, refl, sym, ap, ◌∙◌, true, false, some, List, ◌++◌, arith,
  length, take, drop, memcpy, read, length-replicate, memcpy_lem, length-memcpy, take-memcpy,
  read_lem, take_all, le→leb, lt→leb_false, length-take,
}
use lib_fantuan.Midware.Session.{max_output_buffer}
use lib_fantuan.Midware.Stream.{
  write, written, OutputStream, new_output, serialize, serialize_array,
}

pub record IsValid (s : OutputStream) : Type 0 where
  pub size : length s.data_buffer ≡ max_output_buffer
  pub len_in : s.data_length ≤ max_output_buffer

-- The bytes that were written.
abbrev pub contents : OutputStream → List ℕ
contents s = take s.data_length s.data_buffer

-- A valid stream to which nothing was written.
pub record IsEmpty (s : OutputStream) : Type 0 where
  pub valid : IsValid s
  pub at_start : s.data_length ≡ 0

pub new_output-IsEmpty : IsEmpty new_output
unfolding new_output
new_output-IsEmpty = record {
  valid = record { size = length-replicate {A = ℕ} max_output_buffer 0; len_in = omega arith };
  at_start = refl;
}

write-some :
    (buf src bytes d : List ℕ) (len n : ℕ)
    → len + n ≤ max_output_buffer
    → read src 0 n ≡ some bytes
    → memcpy buf len bytes ≡ some d
    → write buf len n src ≡ some (d, (len + n) % 2 ^ 16, true)
unfolding write
write-some buf src bytes d len n h got copied =
    rw (le→leb (len + n) max_output_buffer h, write) (rw (got, write) (rw (copied, write) refl))

write-full :
    (buf src : List ℕ) (len n : ℕ)
    → max_output_buffer < len + n
    → write buf len n src ≡ some (buf, len, false)
unfolding write
write-full buf src len n h = rw (lt→leb_false (len + n) max_output_buffer h, write) refl

written_bytes :
    {s : OutputStream} (src bytes : List ℕ) (n : ℕ)
    → IsValid s
    → s.data_length + n ≤ max_output_buffer
    → read src 0 n ≡ some bytes
    → length bytes ≡ n
    → (s' : OutputStream) × (written s (write s.data_buffer s.data_length n src) ≡ some (s', true))
      × IsValid s'
      × (contents s' ≡ contents s ++ bytes)
      × (s'.data_length ≡ s.data_length + n)
unfolding written
written_bytes {s} src bytes n v h got size =
    let len = s.data_length in
    let copied = memcpy_lem s.data_buffer len bytes (omega (arith, v.size, size)) in
    let d = take len s.data_buffer ++ (bytes ++ drop (len + length bytes) s.data_buffer) in
    let whole : (len + n) % 2 ^ 16 ≡ len + n = omega arith in
    (
      record { data_length = (len + n) % 2 ^ 16; data_buffer = d },
      ap (written s) (write-some s.data_buffer src bytes d len n h got copied),
      record {
        size = length-memcpy s.data_buffer len bytes copied ∙ v.size;
        len_in = omega (arith, whole);
      },
      ap (λ k. take k d) (whole ∙ ap (λ k. len + k) (sym size))
          ∙ take-memcpy s.data_buffer len bytes copied,
      whole,
    )

-- Serialize of a value that fits puts its bytes behind those that were written, and returns true.
-- Condition: a valid stream.
pub serialize-contents :
    {s : OutputStream} (value : List ℕ)
    → IsValid s
    → s.data_length + length value ≤ max_output_buffer
    → (s' : OutputStream) × (serialize s value ≡ some (s', true))
      × IsValid s'
      × (contents s' ≡ contents s ++ value)
      × (s'.data_length ≡ s.data_length + length value)
unfolding serialize
serialize-contents {s} value v h =
    written_bytes value value (length value) v h
      (read_lem value 0 (length value) (omega arith)
        ∙ ap some (take_all (length value) value (omega arith)))
      refl

-- Serialize of an array whose bytes are 2 ^ 16 or more returns true where only the remainder of
-- their number by 2 ^ 16 was written. Condition: a valid stream, in which the remainder fits.
pub serialize_array-contents :
    {s : OutputStream} (count cell : ℕ) (array : List ℕ)
    → IsValid s
    → length array ≡ count * cell
    → s.data_length + length array % 2 ^ 16 ≤ max_output_buffer
    → (s' : OutputStream) × (serialize_array s count cell array ≡ some (s', true))
      × IsValid s'
      × (contents s' ≡ contents s ++ take (length array % 2 ^ 16) array)
unfolding serialize_array
serialize_array-contents {s} count cell array v whole h =
    let n = length array % 2 ^ 16 in
    let short : n ≤ length array = omega arith in
    let (s', e, v', c, l) =
      written_bytes {s = s} array (take n array) n v h (read_lem array 0 n (omega (arith, short)))
        (length-take n array ∙ omega (arith, short)) in
    (
      s',
      ap (λ k. written s (write s.data_buffer s.data_length (k % 2 ^ 16) array)) (sym whole) ∙ e,
      v',
      c,
    )
