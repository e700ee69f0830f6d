-- ===== src/Midware/Server/Reach.antt =====
-- The states that EasyBaseServer (midware/src/easy_baseserver.cpp) can come to, as the threads of the
-- network and the thread of the commands take turns.
use lib_fantuan.Prelude.{
  ℕ, zero, suc, ◌≡◌, refl, sym, ap, subst, ◌∙◌, Option, none, some, List, [], ◌∷◌, arith, get_elem?,
  ℕ_discrete,
}
use lib_fantuan.Common.EasyPool.Laws
use lib_fantuan.Midware.Packet.{Packet}
use lib_fantuan.Midware.Session.{Session}
use lib_fantuan.Midware.Command.{Command}
use lib_fantuan.Midware.Server.{
  Server, Output, push_command, accept_connection, connection_lost, data_received, initialize,
  init_sessions,
}
use lib_fantuan.Midware.Server.Handlers.{command_turn}
use lib_fantuan.Midware.Server.Matched.{Unconnected, Matched}
use lib_fantuan.Midware.Server.Turn.{connect_of, connects, Ready, command_turn-Ready}
use lib_fantuan.Midware.Server.Pool.{single, initialize_aliases}
use lib_fantuan.Midware.Server.Callbacks.{push_Ready, accept_Ready, lost_Ready, data_Ready}

-- `left` says what the memory of a new connection had at `client_`, where the server and the
-- address are given. One turn of a thread: the network accepts a connection at a free address, loses one or reads from
-- one, a command is pushed from elsewhere, or the commands that wait are worked off.
pub data Move (made : Session) (left : Server → ℕ → Option ℕ) (handle : Packet → ℕ)
    : Server → Server → Type 0 where
  accepts :
      {s : Server} (conn : ℕ)
      → s.clients conn ≡ none
      → Move made left handle s (accept_connection s conn (left s conn)).0
  loses : {s : Server} (conn : ℕ) → Move made left handle s (connection_lost s conn)
  reads :
      {s s' : Server} (conn len : ℕ) (buf : List ℕ)
      → data_received s conn len buf ≡ some s'
      → Move made left handle s s'
  pushes :
      {s : Server} (c : Command) → connect_of c ≡ [] → Move made left handle s (push_command s c)
  works :
      {s s' : Server} {os : List Output}
      → command_turn made handle s ≡ some (s', os)
      → Move made left handle s s'

-- The states that follow on a server that was initialized for `n` sessions.
pub data Reach (made : Session) (left : Server → ℕ → Option ℕ) (handle : Packet → ℕ) (n : ℕ)
    : Server → Type 0 where
  starts : Reach made left handle n (initialize made n)
  moves :
      {s s' : Server}
      → Reach made left handle n s
      → Move made left handle s s'
      → Reach made left handle n s'

single-IsValid :
    (session : Session)
    → Unconnected session
    → Laws.IsValid Unconnected (single session) × Matched (session ∷ []) (λ conn. none)
single-IsValid session idle = (
  record {
    idle = λ x listed. elim (ℕ_discrete x 0) [
      | yes same ↦ (session, ap (get_elem? (session ∷ [])) same, idle)
      | no other ↦ absurd (ground (arith, listed, other))
    ];
    distinct = (refl, tt);
  },
  record { owned = λ conn x e. absurd (cc); backed = only_idle },
)
  where
    only_idle :
        (x : ℕ) (t : Session) (conn : ℕ)
        → get_elem? (session ∷ []) x ≡ some t
        → t.connection ≡ some conn
        → none ≡ some (some x)
    only_idle zero t conn found held =
        let equal : session ≡ t = cc in
        let bad : none ≡ some conn = sym idle ∙ (ap (λ k. k.connection) equal ∙ held) in absurd (cc)
    only_idle (suc x) t conn found held = absurd (cc)

initialize-Ready :
    (made : Session) (n : ℕ)
    → Unconnected made
    → Ready (initialize made n) (initialize made n).commands
unfolding initialize init_sessions connects
initialize-Ready made zero idle = (
  record {
    pool = record { idle = λ x listed. absurd (cc); distinct = tt };
    matched = record {
      owned = λ conn x e. absurd (cc);
      backed = λ x t conn found held. absurd (cc);
    };
  },
  record { once = tt; new = λ d listed. absurd (cc) },
)
initialize-Ready made (suc n) idle =
    let e = (initialize_aliases made n).0 in
    let v = single-IsValid (record made { session_id = n }) idle in
    (
      record {
        pool = subst (Laws.IsValid Unconnected) (sym e) v.0;
        matched = subst (λ p. Matched p.objects (λ conn. none)) (sym e) v.1;
      },
      record { once = tt; new = λ d listed. absurd (cc) },
    )

module _ (made : Session) (left : Server → ℕ → Option ℕ) (handle : Packet → ℕ) (n : ℕ)
    (idle : Unconnected made) (cleared : (s : Server) (conn : ℕ) → left s conn ≡ none) where
  accepted_Ready :
      {s : Server} (conn : ℕ)
      → s.clients conn ≡ none
      → Ready s s.commands
      → let r = (accept_connection s conn (left s conn)).0 in Ready r r.commands
  accepted_Ready {s} conn dead r =
      subst (λ x. let t = (accept_connection s conn x).0 in Ready t t.commands)
        (sym (cleared s conn)) (accept_Ready conn dead r)

  Move-Ready :
      {s s' : Server} → Move made left handle s s' → Ready s s.commands → Ready s' s'.commands
  Move-Ready (accepts conn dead) r = accepted_Ready conn dead r
  Move-Ready (loses conn) r = lost_Ready conn r
  Move-Ready (reads conn len buf e) r = data_Ready conn len buf e r
  Move-Ready (pushes c quiet) r = push_Ready c quiet r
  Move-Ready (works e) r = command_turn-Ready made handle idle r e

  -- In every state that the server can come to, the client of a connection is the session that holds
  -- the connection, and the other way round; the free list of the pool names no session twice, and
  -- only sessions without a connection; and a connection that waits for its session waits once and
  -- has none. Conditions: new sessions without a connection, and NULL in the memory that each new
  -- connection gets for `client_`, as the constructor does not set it.
  pub Reach-Ready : {s : Server} → Reach made left handle n s → Ready s s.commands
  Reach-Ready starts = initialize-Ready made n idle
  Reach-Ready (moves r m) = Move-Ready m (Reach-Ready r)
