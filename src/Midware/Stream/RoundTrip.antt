-- ===== src/Midware/Stream/RoundTrip.antt =====
-- What is written to an OutputStream (midware/src/easy_stream.h) reads back from an InputStream.
use lib_fantuan.Prelude.{
  ℕ, ◌+◌, ◌-◌, ◌%◌, ◌^◌, ◌≤◌, ◌<◌, ◌≡◌, refl, sym, ap, ◌∙◌, true, Option, none, some, List, [], ◌∷◌,
  ◌++◌, arith, length, take, drop, leb, if◌then◌else◌, read, read_lem, take_all, le→leb,
  length-append, length-take, append_assoc, drop-append_le, drop_all, take-append_le, drop-take,
  take-take, append-nil, drop-drop,
}
use lib_fantuan.Midware.Session.{max_output_buffer}
use lib_fantuan.Midware.Stream.{
  OutputStream, new_output, serialize, fetch, fetched, InputStream, new_input, deserialize,
}
use lib_fantuan.Midware.Stream.Writing.{
  IsValid, contents, IsEmpty, new_output-IsEmpty, serialize-contents,
}

-- Calls of Serialize, as long as each returns true.
unfoldable pub serialize_all : OutputStream → List (List ℕ) → Option OutputStream
serialize_all s [] = some s
serialize_all s (value ∷ values) = elim (serialize s value) [
  | none ↦ none
  | some (s', ok) ↦ let rest = serialize_all s' values in if ok then rest else none
]

-- Calls of Serialize that read values of the given sizes, as long as each returns true.
unfoldable pub deserialize_all : InputStream → List ℕ → Option (List (List ℕ))
deserialize_all s [] = some []
deserialize_all s (cell ∷ cells) = elim (deserialize s cell) [
  | none ↦ none
  | some (s', none) ↦ none
  | some (s', some value) ↦ elim (deserialize_all s' cells) [
    | none ↦ none
    | some values ↦ some (value ∷ values)
  ]
]

abbrev pub concat : List (List ℕ) → List ℕ
concat [] = []
concat (value ∷ values) = value ++ concat values

abbrev pub sizes : List (List ℕ) → List ℕ
sizes [] = []
sizes (value ∷ values) = length value ∷ sizes values

serialize_all-contents :
    (values : List (List ℕ)) {s : OutputStream}
    → IsValid s
    → s.data_length + length (concat values) ≤ max_output_buffer
    → (s' : OutputStream) × (serialize_all s values ≡ some s')
      × (contents s' ≡ contents s ++ concat values)
      × (s'.data_length ≡ s.data_length + length (concat values))
unfolding serialize_all
serialize_all-contents [] {s} v h = (s, refl, sym (append-nil (contents s)), omega arith)
serialize_all-contents (value ∷ values) {s} v h =
    let (s1, done, v1, c1, l1) =
      serialize-contents {s = s} value v (omega (arith, length-append value (concat values))) in
    let (s2, rest, c2, l2) =
      serialize_all-contents values {s = s1} v1
        (omega (arith, l1, length-append value (concat values))) in
    (
      s2,
      rw (done, serialize_all) rest,
      c2 ∙ (ap (λ k. k ++ concat values) c1 ∙ append_assoc (contents s) value (concat values)),
      omega (arith, l1, l2, length-append value (concat values)),
    )

-- What is left to read.
abbrev left : InputStream → List ℕ
left s = drop s.data_index (take s.data_length s.data_buffer)

record Readable (s : InputStream) (bytes : List ℕ) : Type 0 where
  pub inside : s.data_length ≤ length s.data_buffer
  pub short : s.data_length < 2 ^ 16
  pub whole : s.data_index + length bytes ≡ s.data_length
  pub holds : left s ≡ bytes

fetched_at :
    (s : InputStream) (cell : ℕ) (bytes : List ℕ)
    → s.data_index + cell ≤ s.data_length
    → s.data_length < 2 ^ 16
    → read s.data_buffer s.data_index cell ≡ some bytes
    → deserialize s cell ≡ some (record s { data_index = s.data_index + cell }, some bytes)
unfolding deserialize fetch fetched
fetched_at s cell bytes h small got =
    let room : leb cell ((2 ^ 64 + s.data_length - s.data_index) % 2 ^ 64) ≡ true =
      le→leb cell ((2 ^ 64 + s.data_length - s.data_index) % 2 ^ 64) (omega arith) in
    let next : (s.data_index + cell) % 2 ^ 16 ≡ s.data_index + cell = omega arith in
    ap (λ b. fetched s (fetch s.data_buffer s.data_index cell b)) room
    ∙ rw (got, fetched) (ap (λ k. some (record s { data_index = k }, some bytes)) next)

deserialize-value :
    (s : InputStream) (value rest : List ℕ)
    → Readable s (value ++ rest)
    → (deserialize s (length value)
        ≡ some (record s { data_index = s.data_index + length value }, some value))
      × Readable (record s { data_index = s.data_index + length value }) rest
deserialize-value s value rest r =
    let n = length value in
    let i = s.data_index in
    let size = length-append value rest in
    let same : take n (drop i s.data_buffer) ≡ value =
      sym (take-take n (s.data_length - i) (drop i s.data_buffer) (omega (arith, r.whole, size)))
      ∙ (ap (take n) (sym (drop-take i s.data_length s.data_buffer) ∙ r.holds)
          ∙ (take-append_le n value rest (omega arith) ∙ take_all n value (omega arith))) in
    let got : read s.data_buffer i n ≡ some value =
      read_lem s.data_buffer i n (omega (arith, r.whole, r.inside, size)) ∙ ap some same in
    (
      fetched_at s n value (omega (arith, r.whole, size)) r.short got,
      record {
        inside = r.inside;
        short = r.short;
        whole = omega (arith, r.whole, size);
        holds =
            sym (drop-drop n i (take s.data_length s.data_buffer))
            ∙ (ap (drop n) r.holds
                ∙ (drop-append_le n value rest (omega arith)
                    ∙ ap (λ k. k ++ rest) (drop_all n value (omega arith))));
      },
    )

deserialize_all-concat :
    (values : List (List ℕ)) (s : InputStream)
    → Readable s (concat values)
    → deserialize_all s (sizes values) ≡ some values
unfolding deserialize_all
deserialize_all-concat [] s r = refl
deserialize_all-concat (value ∷ values) s r =
    let (got, next) = deserialize-value s value (concat values) r in
    let rest =
      deserialize_all-concat values (record s { data_index = s.data_index + length value }) next in
    rw (got, deserialize_all) (rw (rest, deserialize_all) refl)

round_trip :
    (values : List (List ℕ)) {s0 : OutputStream}
    → IsEmpty s0
    → length (concat values) ≤ max_output_buffer
    → (s : OutputStream) × (serialize_all s0 values ≡ some s)
      × (s.data_length ≡ length (concat values))
      × (deserialize_all (new_input s.data_length s.data_buffer) (sizes values) ≡ some values)
unfolding new_input
round_trip values {s0} v h =
    let (s, done, held, len) =
      serialize_all-contents values {s = s0} v.valid (omega (arith, v.at_start)) in
    let count : s.data_length ≡ length (concat values) = omega (arith, len, v.at_start) in
    let whole : s.data_length % 2 ^ 16 ≡ s.data_length = omega (arith, count) in
    let all : contents s ≡ concat values =
      held ∙ ap (λ k. take k s0.data_buffer ++ concat values) v.at_start in
    let bound : s.data_length ≤ length s.data_buffer =
      omega (arith, ap length all, length-take s.data_length s.data_buffer, count) in
    (
      s,
      done,
      count,
      deserialize_all-concat values
          (record {
            data_length = s.data_length % 2 ^ 16;
            data_index = 0;
            data_buffer = s.data_buffer;
          })
          (record {
            inside = omega (arith, whole, bound);
            short = omega arith;
            whole = omega (arith, whole, count);
            holds = ap (λ k. take k s.data_buffer) whole ∙ all;
          }),
    )

-- Values that fit into an output stream all go in, and an input stream over its memory, with its
-- length, gives them back in order when it is asked for their sizes.
-- Condition: the values have at most 65500 bytes together.
pub deserialize_all-serialize_all :
    (values : List (List ℕ))
    → length (concat values) ≤ max_output_buffer
    → (s : OutputStream) × (serialize_all new_output values ≡ some s)
      × (s.data_length ≡ length (concat values))
      × (deserialize_all (new_input s.data_length s.data_buffer) (sizes values) ≡ some values)
deserialize_all-serialize_all values h = round_trip values new_output-IsEmpty h
