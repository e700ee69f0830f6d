-- ===== src/Midware/Server/Commands.antt =====
-- Every command of EasyBaseServer::_OnCommand (midware/src/easy_baseserver.cpp) keeps the server valid.
use lib_fantuan.Prelude.{
  ℕ, ◌+◌, ◌≡◌, refl, sym, ap, subst, ◌∙◌, inl, inr, Bool, Option, none, some, List, [], ◌∷◌, ◌++◌,
  get_elem?, Option-cases, read, memcpy, le16, take,
}
use lib_fantuan.Midware.Packet.{Packet, packet_head}
use lib_fantuan.Midware.Receive.{Received, done, stopped, overrun, out_of_fuel}
use lib_fantuan.Midware.Session
use lib_fantuan.Midware.Session.{Session, Effect}
use lib_fantuan.Midware.Server.{Server, Output, apply}
use lib_fantuan.Midware.Server.Handlers.{
  store, after_data, received, session_at, command_disconnect, command_send_data, disconnect_all,
}
use lib_fantuan.Midware.Server.Valid.{IsValid, put, store_eq, change-IsValid}

-- The server `r` is valid and knows the same connections as `s`.
abbrev pub Keeps : Server → Server → Type 0
Keeps s r = IsValid r × (r.clients ≡ s.clients)

store-Keeps :
    {s s' : Server} (x : ℕ) {t : Session} (u : Session) (es : List Effect) {ok : Bool}
    {os : List Output}
    → IsValid s
    → get_elem? s.pool.objects x ≡ some t
    → u.connection ≡ t.connection
    → apply s.clients es ≡ some s.clients
    → store s x (u, es) ≡ some (s', ok, os)
    → Keeps s s'
store-Keeps {s} {s'} x u es v found same applied e =
    let stored = store_eq s x u es applied in
    let equal : put s x u s.clients ≡ s' = cc in
    subst (Keeps s) equal (change-IsValid x u v found same, refl)

after_data-Keeps :
    {s s' : Server} (x : ℕ) {t : Session} (r : Received) {ok : Bool} {os : List Output}
    → IsValid s
    → get_elem? s.pool.objects x ≡ some t
    → after_data s x t r ≡ some (s', ok, os)
    → Keeps s s'
unfolding after_data
after_data-Keeps {s} {s'} x {t} (done buf ps) v found e =
    let equal : put s x (record t { buf = buf }) s.clients ≡ s' = cc in
    subst (Keeps s) equal (change-IsValid x (record t { buf = buf }) v found refl, refl)
after_data-Keeps {s} {s'} x {t} (stopped buf ps) v found e =
    let equal : put s x (record t { buf = buf }) s.clients ≡ s' = cc in
    subst (Keeps s) equal (change-IsValid x (record t { buf = buf }) v found refl, refl)
after_data-Keeps x (overrun ps) v found e = absurd (cc)
after_data-Keeps x out_of_fuel v found e = absurd (cc)

pub received-Keeps :
    (handle : Packet → ℕ) {s s' : Server} (bytes : List ℕ) (client : Option (Option ℕ)) {ok : Bool}
    {os : List Output}
    → IsValid s
    → received handle s bytes client ≡ some (s', ok, os)
    → Keeps s s'
unfolding received
received-Keeps handle bytes none v e = absurd (cc)
received-Keeps handle {s} {s'} bytes (some none) v e =
    let equal : s ≡ s' = cc in subst (Keeps s) equal (v, refl)
received-Keeps handle {s} {s'} bytes (some (some x)) v e =
    elim (Option-cases (get_elem? s.pool.objects x)) [
      | inl missing ↦ absurd (cc (rw (missing, received) at e))
      | inr (t, found) ↦
          after_data-Keeps x (Session.on_data handle t bytes) v found (rw (found, received) at e)
    ]

pub session_at_inv :
    (s : Server) (id : ℕ) {x : ℕ} {t : Session}
    → session_at s id ≡ some (x, t)
    → get_elem? s.pool.objects x ≡ some t
unfolding session_at
session_at_inv s id {x} {t} e = elim (Option-cases (get_elem? s.array id)) [
  | inl missing ↦ absurd (cc (rw (missing, session_at) at e))
  | inr (y, listed) ↦ elim (Option-cases (get_elem? s.pool.objects y)) [
    | inl missing ↦ absurd (cc (rw (missing, session_at) at (rw (listed, session_at) at e)))
    | inr (u, found) ↦
        let both : some (y, u) ≡ some (x, t) =
          rw (found, session_at) at (rw (listed, session_at) at e) in
        cc
  ]
]

disconnect_shape :
    (t : Session)
    → ((Session.disconnect t).0.connection ≡ t.connection) × ((Session.disconnect t).1 ≡ [])
unfolding Session.disconnect Session.on_disconnect Session.reset_session
disconnect_shape t = elim (Option-cases t.connection) [
  | inl closed ↦ rw (closed, Session.disconnect) (rw closed (refl, refl))
  | inr (conn, held) ↦ rw (held, Session.disconnect) (rw held (refl, refl))
]

disconnect-Keeps :
    {s s' : Server} (x : ℕ) {t : Session} {ok : Bool} {os : List Output}
    → IsValid s
    → get_elem? s.pool.objects x ≡ some t
    → store s x (Session.disconnect t) ≡ some (s', ok, os)
    → Keeps s s'
unfolding apply
disconnect-Keeps {s} x {t} v found e =
    store-Keeps x (Session.disconnect t).0 (Session.disconnect t).1 v found (disconnect_shape t).0
      (ap (apply s.clients) (disconnect_shape t).1) e

pub command_disconnect-Keeps :
    {s s' : Server} (id : ℕ) {ok : Bool} {os : List Output}
    → IsValid s
    → command_disconnect s id ≡ some (s', ok, os)
    → Keeps s s'
unfolding command_disconnect
command_disconnect-Keeps {s} id v e = elim (Option-cases (session_at s id)) [
  | inl missing ↦ absurd (cc (rw (missing, command_disconnect) at e))
  | inr ((x, t), listed) ↦
      disconnect-Keeps x v (session_at_inv s id listed) (rw (listed, command_disconnect) at e)
]

-- What a send that returns did.
record Sent (t : Session) (r : Session × List Effect) : Type 0 where
  pub conn : ℕ
  pub held : t.connection ≡ some conn
  pub same : r.0.connection ≡ t.connection
  pub bytes : List ℕ
  pub effects : r.1 ≡ Effect.send conn bytes ∷ []

post_shape :
    (t : Session) (n : ℕ) (c : Option ℕ) {r : Session × List Effect}
    → Session.post t n c ≡ some r
    → (conn : ℕ) × (c ≡ some conn) × (r ≡ (t, Effect.send conn (take n t.send_buf) ∷ []))
unfolding Session.post
post_shape t n none e = absurd (cc)
post_shape t n (some conn) {r} e = (conn, refl, cc)

send_shape :
    (t : Session) (type_id len : ℕ) (payload : List ℕ) {r : Session × List Effect}
    → Session.send_data t type_id len payload ≡ some r
    → Sent t r
unfolding Session.send_data
send_shape t type_id len payload {r} e = elim (Option-cases (read payload 0 len)) [
  | inl short ↦ absurd (cc (rw (short, Session.send_data) at e))
  | inr (body, got) ↦
      elim (Option-cases (memcpy t.send_buf 0 (le16 type_id ++ (le16 len ++ body)))) [
        | inl over ↦
            absurd (cc (rw (over, Session.send_data) at (rw (got, Session.send_data) at e)))
        | inr (buf, copied) ↦
            let (conn, held, equal) =
              post_shape (record t { send_buf = buf }) (len + packet_head) t.connection
                (rw (copied, Session.send_data) at (rw (got, Session.send_data) at e)) in
            subst (Sent t) (sym equal) (record {
              conn = conn;
              held = held;
              same = refl;
              bytes = take (len + packet_head) buf;
              effects = refl;
            })
      ]
]

apply_send :
    {clients : ℕ → Option (Option ℕ)} (conn : ℕ) {x : Option ℕ} (bytes : List ℕ)
    → clients conn ≡ some x
    → apply clients (Effect.send conn bytes ∷ []) ≡ some clients
unfolding apply
apply_send conn bytes live = rw (live, apply) refl

pub command_send_data-Keeps :
    {s s' : Server} (id type_id len : ℕ) (payload : List ℕ) {ok : Bool} {os : List Output}
    → IsValid s
    → command_send_data s id type_id len payload ≡ some (s', ok, os)
    → Keeps s s'
unfolding command_send_data
command_send_data-Keeps {s} id type_id len payload v e = elim (Option-cases (session_at s id)) [
  | inl missing ↦ absurd (cc (rw (missing, command_send_data) at e))
  | inr ((x, t), listed) ↦ elim (Option-cases (Session.send_data t type_id len payload)) [
    | inl fault ↦
        absurd (cc (rw (fault, command_send_data) at (rw (listed, command_send_data) at e)))
    | inr (r, sent) ↦
        let shape = send_shape t type_id len payload sent in
        let found = session_at_inv s id listed in
        store-Keeps x r.0 r.1 v found shape.same
          (ap (apply s.clients) shape.effects
            ∙ apply_send shape.conn shape.bytes (v.matched.backed x t shape.conn found shape.held))
          (rw (sent, command_send_data) at (rw (listed, command_send_data) at e))
  ]
]

pub disconnect_all-Keeps :
    (m : List (ℕ × ℕ)) {s s' : Server} {os : List Output}
    → IsValid s
    → disconnect_all s m ≡ some (s', os)
    → Keeps s s'
unfolding disconnect_all
disconnect_all-Keeps [] {s} {s'} v e = let equal : s ≡ s' = cc in subst (Keeps s) equal (v, refl)
disconnect_all-Keeps ((id, x) ∷ m) {s} {s'} v e = elim (Option-cases (get_elem? s.pool.objects x)) [
  | inl missing ↦ absurd (cc (rw (missing, disconnect_all) at e))
  | inr (t, found) ↦ elim (Option-cases (store s x (Session.disconnect t))) [
    | inl fault ↦ absurd (cc (rw (fault, disconnect_all) at (rw (found, disconnect_all) at e)))
    | inr ((s1, ok, os1), stored) ↦ elim (Option-cases (disconnect_all s1 m)) [
      | inl fault ↦ absurd (
          cc (
            rw (fault, disconnect_all) at
              (rw (stored, disconnect_all) at (rw (found, disconnect_all) at e))))
      | inr ((s2, os2), rest) ↦
          let (v1, same1) = disconnect-Keeps x v found stored in
          let (v2, same2) = disconnect_all-Keeps m v1 rest in
          let equal : s2 ≡ s' = cc (
            rw (rest, disconnect_all) at
              (rw (stored, disconnect_all) at (rw (found, disconnect_all) at e))) in
          subst (Keeps s) equal (v2, same2 ∙ same1)
    ]
  ]
]
