-- ===== src/Midware/Server/Isolation.antt =====
-- What a data command of EasyBaseServer (midware/src/easy_baseserver.cpp) leaves alone.
use lib_fantuan.Prelude.{
  ℕ, ◌≡◌, ◌≢◌, sym, ap, ◌∙◌, inl, inr, Bool, Option, none, some, List, get_elem?, set, Option-cases,
  get_elem?-set_other,
}
use lib_fantuan.Midware.Packet.{Packet}
use lib_fantuan.Midware.Receive.{Received, done, stopped, overrun, out_of_fuel}
use lib_fantuan.Midware.Session
use lib_fantuan.Midware.Session.{Session}
use lib_fantuan.Midware.Server.{Server, Output}
use lib_fantuan.Midware.Server.Handlers.{command_on_data, received, after_data}
use lib_fantuan.Midware.Server.Matched.{Unconnected, one_owner}
use lib_fantuan.Midware.Server.Reach.{Reach, Reach-Ready}

after_data_others :
    (s : Server) {s' : Server} (x : ℕ) (t : Session) (r : Received) {ok : Bool} {os : List Output}
    → after_data s x t r ≡ some (s', ok, os)
    → (y : ℕ) → y ≢ x
    → get_elem? s'.pool.objects y ≡ get_elem? s.pool.objects y
unfolding after_data
after_data_others s {s'} x t (done buf ps) e y other =
    let objects = set s.pool.objects x (record t { buf = buf }) in
    let equal : record s { pool = record s.pool { objects = objects } } ≡ s' = cc in
    ap (λ k. get_elem? k.pool.objects y) (sym equal)
    ∙ get_elem?-set_other s.pool.objects x y (record t { buf = buf }) other
after_data_others s {s'} x t (stopped buf ps) e y other =
    let objects = set s.pool.objects x (record t { buf = buf }) in
    let equal : record s { pool = record s.pool { objects = objects } } ≡ s' = cc in
    ap (λ k. get_elem? k.pool.objects y) (sym equal)
    ∙ get_elem?-set_other s.pool.objects x y (record t { buf = buf }) other
after_data_others s x t (overrun ps) e y other = absurd (cc)
after_data_others s x t out_of_fuel e y other = absurd (cc)

received_others :
    (handle : Packet → ℕ) (s : Server) {s' : Server} (bytes : List ℕ) (client : Option (Option ℕ))
    {ok : Bool} {os : List Output}
    → received handle s bytes client ≡ some (s', ok, os)
    → (y : ℕ) → client ≢ some (some y)
    → get_elem? s'.pool.objects y ≡ get_elem? s.pool.objects y
unfolding received
received_others handle s bytes none e y other = absurd (cc)
received_others handle s {s'} bytes (some none) e y other =
    let equal : s ≡ s' = cc in ap (λ k. get_elem? k.pool.objects y) (sym equal)
received_others handle s bytes (some (some x)) e y other =
    elim (Option-cases (get_elem? s.pool.objects x)) [
      | inl missing ↦ absurd (cc (rw (missing, received) at e))
      | inr (t, found) ↦
          after_data_others s x t (Session.on_data handle t bytes) (rw (found, received) at e) y
            (λ same. other (ap (λ k. some (some k)) (sym same)))
    ]

-- Data of one connection never touch the session of another: in every state that the server can
-- come to, a data command that goes through leaves the session of every other connection as it was.
-- Conditions: new sessions without a connection, and NULL in the memory that each new connection gets for `client_`.
pub command_on_data-others :
    (made : Session) (left : Server → ℕ → Option ℕ) (handle : Packet → ℕ) (n : ℕ) {s s' : Server}
    (c d y : ℕ) (bytes : List ℕ) {ok : Bool} {os : List Output}
    → Unconnected made
    → ((t : Server) (conn : ℕ) → left t conn ≡ none)
    → Reach made left handle n s
    → command_on_data handle s c bytes ≡ some (s', ok, os)
    → d ≢ c
    → s.clients d ≡ some (some y)
    → get_elem? s'.pool.objects y ≡ get_elem? s.pool.objects y
unfolding command_on_data
command_on_data-others made left handle n {s} c d y bytes idle cleared r e other held =
    let (v, w) = Reach-Ready made left handle n idle cleared r in
    received_others handle s bytes (s.clients c) e y
      (λ same. other (one_owner v.matched d c y held same))
