-- ===== src/Midware/Dispatcher.antt =====
-- EasyDispatcher (midware/src/easy_dispatcher.h, midware/src/easy_dispatcher.cpp): the table of functions, by the
-- type of a packet. What a function does with a session and a stream is an argument.
use lib_fantuan.Prelude.{
  ℕ, ◌≤◌, ◌≡◌, refl, Bool, true, false, Option, none, some, List, length, get_elem?,
}
use lib_fantuan.Midware.Stream.{InputStream, OutputStream, new_input, new_output}
use lib_fantuan.Midware.Session.{max_output_buffer}
use lib_fantuan.Midware.Stream.RoundTrip.{
  serialize_all, deserialize_all, concat, sizes, deserialize_all-serialize_all,
}

-- A function of m_pFuncList: the session afterwards, and what it returns.
abbrev pub Func : Type 0 → Type 0
Func S = S → InputStream → S × Bool

-- OnPacketReceived, or nothing for a type beyond the table.
unfoldable pub on_packet_received :
    {S : Type 0} → List (Func S) → S → ℕ → ℕ → List ℕ → Option (S × Bool)
on_packet_received funcs session type_id len buf = elim (get_elem? funcs type_id) [
  | none ↦ none
  | some func ↦ some (func session (new_input len buf))
]

-- A function that reads values of given sizes, and acts on them if all are there.
abbrev pub acting : {S : Type 0} → (S → List (List ℕ) → S) → S → Option (List (List ℕ)) → S × Bool
acting act session none = (session, false)
acting act session (some values) = (act session values, true)

-- Where a packet has the payload that an OutputStream wrote, the function of its type is given the values that were
-- written.
-- Conditions: the values fit into the buffer of the stream, and the table has a function for the type that reads values
-- of these sizes.
pub on_packet_received-serialize_all :
    {S : Type 0} (funcs : List (Func S)) (act : S → List (List ℕ) → S) (session : S) (type_id : ℕ)
    (values : List (List ℕ))
    → length (concat values) ≤ max_output_buffer
    → get_elem? funcs type_id
      ≡ some (λ s stream. acting act s (deserialize_all stream (sizes values)))
    → (o : OutputStream) × (serialize_all new_output values ≡ some o)
      × (on_packet_received funcs session type_id o.data_length o.data_buffer
          ≡ some (act session values, true))
unfolding on_packet_received
on_packet_received-serialize_all funcs act session type_id values fits known =
    let (o, written, same, back) = deserialize_all-serialize_all values fits in
    (o, written, rw (known, on_packet_received) (rw back refl))
