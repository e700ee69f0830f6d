-- ===== src/Midware/Server/Valid.antt =====
-- The commands of EasyBaseServer (midware/src/easy_baseserver.cpp) keep sessions, connections and
-- the pool consistent.
use lib_fantuan.Prelude.{
  ℕ, ◌≡◌, refl, sym, ap, ◌∙◌, inl, inr, true, false, Option, none, some, List, [], ◌∷◌, ◌++◌,
  get_elem?, set, get_elem?-lt, get_elem?-set, elem, Bool-cases,
}
use lib_fantuan.Common.EasyPool.{EasyPool, allocate, free}
use lib_fantuan.Common.EasyPool.Laws
use lib_fantuan.Common.EasyPool.Laws.{Allocated, allocate_lem, set-IsValid, free-IsValid}
use lib_fantuan.Midware.Session
use lib_fantuan.Midware.Session.{Session, Effect, reset_session}
use lib_fantuan.Midware.Server.{Server, calls, with_client, apply, called, insert, erase}
use lib_fantuan.Midware.Server.Handlers.{
  store, command_on_connect, freed, disconnected, command_on_disconnect,
}
use lib_fantuan.Midware.Server.Matched.{
  Unconnected, Matched, match_change, match_connect, match_disconnect, match-Allocated,
}

pub record IsValid (s : Server) : Type 0 where
  pub pool : Laws.IsValid Unconnected s.pool
  pub matched : Matched s.pool.objects s.clients

-- The session at `x` is `session`, and the clients are those given.
abbrev pub put : Server → ℕ → Session → (ℕ → Option (Option ℕ)) → Server
put s x session clients = record s {
  pool = record s.pool { objects = set s.pool.objects x session };
  clients = clients;
}

pub store_eq :
    (s : Server) (x : ℕ) (session : Session) (es : List Effect) {clients : ℕ → Option (Option ℕ)}
    → apply s.clients es ≡ some clients
    → store s x (session, es) ≡ some (put s x session clients, true, called es)
unfolding store
store_eq s x session es e = rw (e, store) refl

-- A session that is not connected and one that is out.
out_of_pool :
    {s : Server} (x : ℕ) {t : Session} {conn : ℕ}
    → IsValid s
    → get_elem? s.pool.objects x ≡ some t
    → t.connection ≡ some conn
    → elem x s.pool.free_list ≡ false
out_of_pool {s} x {t} {conn} v found held = elim (Bool-cases (elem x s.pool.free_list)) [
  | inl listed ↦
      let (u, found', idle) = v.pool.idle x listed in
      let equal : u ≡ t = cc in
      let bad : none ≡ some conn = sym idle ∙ (ap (λ k. k.connection) equal ∙ held) in absurd (cc)
  | inr absent ↦ absent
]

-- A session may change in all but its connection.
pub change-IsValid :
    {s : Server} (x : ℕ) {t : Session} (u : Session)
    → IsValid s
    → get_elem? s.pool.objects x ≡ some t
    → u.connection ≡ t.connection
    → IsValid (put s x u s.clients)
change-IsValid {s} x {t} u v found same = record {
  pool = set-IsValid Unconnected s.pool x u v.pool (get_elem?-lt s.pool.objects x found) (λ listed.
      let (w, found', idle) = v.pool.idle x listed in
      let equal : t ≡ w = cc in same ∙ (ap (λ k. k.connection) equal ∙ idle));
  matched = match_change v.matched x u found same;
}

-- The state after a connection got the session at `x`, with the pool `q` after it was handed out.
connected : Server → EasyPool Session → ℕ → Session → ℕ → Server
connected s q x t conn =
    put (record s { pool = q; sessions = insert t.session_id x s.sessions }) x
      (record t { connection = some conn }) (with_client s.clients conn (some (some x)))

connect_eq :
    (made : Session) (s : Server) (conn : ℕ) {t : Session} {old : Option ℕ}
    → get_elem? (allocate s.pool made).0.objects (allocate s.pool made).1 ≡ some t
    → s.clients conn ≡ some old
    → command_on_connect made s conn
      ≡ some (
        connected s (allocate s.pool made).0 (allocate s.pool made).1 t conn,
        true,
        calls (Effect.set_client conn (allocate s.pool made).1) ∷ [],
      )
unfolding command_on_connect Session.on_connection called connected apply
connect_eq made s conn {t} found live =
    let x = (allocate s.pool made).1 in
    let s' = record s {
      pool = (allocate s.pool made).0;
      sessions = insert t.session_id x s.sessions;
    } in
    let applied : apply s'.clients (Effect.set_client conn x ∷ [])
        ≡ some (with_client s.clients conn (some (some x))) =
      rw (live, apply) refl in
    rw (found, command_on_connect)
      (store_eq s' x (record t { connection = some conn }) (Effect.set_client conn x ∷ []) applied)

connected-IsValid :
    {s : Server} {q : EasyPool Session} {x : ℕ} (conn : ℕ) {t : Session}
    → IsValid s
    → Allocated Unconnected s.pool q x
    → get_elem? q.objects x ≡ some t
    → Unconnected t
    → s.clients conn ≡ some none
    → IsValid (connected s q x t conn)
unfolding connected
connected-IsValid {s} {q} {x} conn {t} v a found idle live = record {
  pool =
      set-IsValid Unconnected q x (record t { connection = some conn }) a.valid
        (get_elem?-lt q.objects x found)
        (λ listed. let bad : true ≡ false = sym listed ∙ a.absent in absurd (cc));
  matched =
      match_connect (match-Allocated a v.matched) x conn (record t { connection = some conn }) found
        idle live refl;
}

-- A connection that has no session yet gets one that was idle or is new, and its client is that
-- session afterwards. Condition: a valid server, and new sessions without a connection.
pub command_on_connect-IsValid :
    (made : Session) (s : Server) (conn : ℕ)
    → Unconnected made
    → IsValid s
    → s.clients conn ≡ some none
    → (s' : Server) × (x : ℕ) × (command_on_connect made s conn
        ≡ some (s', true, calls (Effect.set_client conn x) ∷ []))
      × IsValid s'
      × (s'.clients ≡ with_client s.clients conn (some (some x)))
unfolding connected
command_on_connect-IsValid made s conn idle v live =
    let a = allocate_lem Unconnected s.pool made v.pool idle in
    let (t, found, idle_t) = a.found in
    (
      connected s (allocate s.pool made).0 (allocate s.pool made).1 t conn,
      (allocate s.pool made).1,
      connect_eq made s conn found live,
      connected-IsValid conn v a found idle_t live,
      refl,
    )

-- The state after the connection `conn` of the session at `x` was lost.
unconnected : Server → ℕ → Session → ℕ → Server
unconnected s x t conn =
    let stored =
      put (record s { sessions = erase t.session_id s.sessions }) x (reset_session t)
        (with_client s.clients conn none) in
    record stored { pool = free stored.pool x }

session_lost :
    (t : Session) {conn : ℕ}
    → t.connection ≡ some conn
    → Session.on_disconnect t ≡ (reset_session t, Effect.close conn ∷ Effect.delete conn ∷ [])
unfolding Session.on_disconnect
session_lost t held = rw held refl

disconnected_at :
    (s : Server) (x : ℕ) {t : Session}
    → get_elem? s.pool.objects x ≡ some t
    → disconnected s (some (some x))
      ≡ freed x (
          store (record s { sessions = erase t.session_id s.sessions }) x (Session.on_disconnect t))
unfolding disconnected
disconnected_at s x found = rw (found, disconnected) refl

disconnect_eq :
    (s : Server) (conn x : ℕ) {t : Session}
    → s.clients conn ≡ some (some x)
    → get_elem? s.pool.objects x ≡ some t
    → t.connection ≡ some conn
    → command_on_disconnect s conn
      ≡ some (
        unconnected s x t conn,
        true,
        calls (Effect.close conn) ∷ calls (Effect.delete conn) ∷ [],
      )
unfolding command_on_disconnect freed called unconnected apply
disconnect_eq s conn x {t} live found held =
    let s' = record s { sessions = erase t.session_id s.sessions } in
    let es : List Effect = Effect.close conn ∷ Effect.delete conn ∷ [] in
    let applied : apply s'.clients es ≡ some (with_client s.clients conn none) =
      rw (live, apply) (rw (live, apply) refl) in
    ap (disconnected s) live
    ∙ (disconnected_at s x found
        ∙ ap (freed x)
            (ap (store s' x) (session_lost t held) ∙ store_eq s' x (reset_session t) es applied))

-- A connection that is lost is closed and deleted, and its session goes back to the pool without
-- a connection. Condition: a valid server.
pub command_on_disconnect-IsValid :
    (s : Server) (conn x : ℕ)
    → IsValid s
    → s.clients conn ≡ some (some x)
    → (s' : Server) × (command_on_disconnect s conn
        ≡ some (s', true, calls (Effect.close conn) ∷ calls (Effect.delete conn) ∷ []))
      × IsValid s'
      × (s'.clients ≡ with_client s.clients conn none)
      × (s'.pool.free_list ≡ s.pool.free_list ++ x ∷ [])
unfolding unconnected free reset_session
command_on_disconnect-IsValid s conn x v live =
    let (t, found, held) = v.matched.owned conn x live in
    let absent = out_of_pool x v found held in
    let short = get_elem?-lt s.pool.objects x found in
    let pool' = record s.pool { objects = set s.pool.objects x (reset_session t) } in
    (
      unconnected s x t conn,
      disconnect_eq s conn x live found held,
      record {
        pool =
            free-IsValid Unconnected pool' x
              (set-IsValid Unconnected s.pool x (reset_session t) v.pool short (λ listed. refl))
              (reset_session t, get_elem?-set s.pool.objects x (reset_session t) short, refl)
              absent;
        matched = match_disconnect v.matched x conn (reset_session t) live refl;
      },
      refl,
      refl,
    )
