-- ===== src/Midware/Server/Callbacks.antt =====
-- The callbacks of EasyBaseServer (midware/src/easy_baseserver.cpp), which push commands, keep the
-- server valid and the connections waiting.
use lib_fantuan.Prelude.{
  ℕ, ◌%◌, ◌^◌, ◌≡◌, refl, sym, ap, subst, ◌∙◌, inl, inr, Bool, true, false, Option, none, some,
  List, [], ◌∷◌, ◌++◌, arith, if◌then◌else◌, ℕ_discrete, Bool-cases, Option-cases, elem,
  elem-append_one, Distinct-append_one, append-nil, append_assoc, read,
}
use lib_fantuan.Midware.Command
use lib_fantuan.Midware.Command.{Command}
use lib_fantuan.Midware.Server.{
  Server, with_client, push_command, connection_made, accept_connection, connection_lost,
  data_received,
}
use lib_fantuan.Midware.Server.Matched.{match_accept, with_client_same, with_client_other}
use lib_fantuan.Midware.Server.Valid.{IsValid}
use lib_fantuan.Midware.Server.Turn.{connect_of, connects, Waiting, Ready}

connects-append_one :
    (cs : List Command) (c : Command) → connects (cs ++ c ∷ []) ≡ connects cs ++ connect_of c
unfolding connects
connects-append_one [] c = append-nil (connect_of c)
connects-append_one (d ∷ cs) c =
    ap (◌++◌ (connect_of d)) (connects-append_one cs c)
    ∙ sym (append_assoc (connect_of d) (connects cs) (connect_of c))

pub push_Ready :
    {s : Server} (c : Command)
    → connect_of c ≡ []
    → Ready s s.commands
    → Ready (push_command s c) (push_command s c).commands
unfolding push_command
push_Ready {s} c quiet r =
    let same : connects (s.commands ++ c ∷ []) ≡ connects s.commands =
      connects-append_one s.commands c
      ∙ (ap (◌++◌ (connects s.commands)) quiet ∙ append-nil (connects s.commands)) in
    (record { pool = r.0.pool; matched = r.0.matched }, subst (Waiting s.clients) (sym same) r.1)

connect_waits :
    (clients : ℕ → Option (Option ℕ)) (conns : List ℕ) (conn : ℕ)
    → Waiting clients conns
    → clients conn ≡ none
    → Waiting (with_client clients conn (some none)) conns
      × Waiting (with_client clients conn (some none)) (conns ++ conn ∷ [])
connect_waits clients conns conn w dead =
    let absent : elem conn conns ≡ false = elim (Bool-cases (elem conn conns)) [
      | inl listed ↦ let bad : none ≡ some none = sym dead ∙ w.new conn listed in absurd (cc)
      | inr out ↦ out
    ] in
    let waits : (d : ℕ) → elem d conns ≡ true → with_client clients conn (some none) d ≡ some none =
      λ d listed. elim (ℕ_discrete d conn) [
        | yes same ↦
            ap (with_client clients conn (some none)) same
            ∙ with_client_same clients conn (some none)
        | no other ↦ with_client_other clients conn (some none) d other ∙ w.new d listed
      ] in
    (
      record { once = w.once; new = waits },
      record {
        once = Distinct-append_one conns conn w.once absent;
        new = λ d listed. elim (ℕ_discrete d conn) [
          | yes same ↦
              ap (with_client clients conn (some none)) same
              ∙ with_client_same clients conn (some none)
          | no other ↦ waits d (ground (arith, elem-append_one d conn conns, listed, other))
        ];
      },
    )

pub accept_Ready :
    {s : Server} (conn : ℕ)
    → s.clients conn ≡ none
    → Ready s s.commands
    → let r = (accept_connection s conn none).0 in Ready r r.commands
unfolding accept_connection connection_made push_command connect_of
accept_Ready {s} conn dead r =
    let clients = with_client s.clients conn (some none) in
    let (stays, more) = connect_waits s.clients (connects s.commands) conn r.1 dead in
    let valid : (cs : List Command) → IsValid (record s { clients = clients; commands = cs }) =
      λ cs. record { pool = r.0.pool; matched = match_accept r.0.matched conn dead } in
    go clients s.ready_for_shutdown valid stays more
  where
    go :
        (clients : ℕ → Option (Option ℕ)) (ready : Bool)
        → ((cs : List Command) → IsValid (record s { clients = clients; commands = cs }))
        → Waiting clients (connects s.commands)
        → Waiting clients (connects s.commands ++ conn ∷ [])
        → let s' = record s { clients = clients } in
          let r =
            (if◌then◌else◌ {A = Server × Bool} ready
              (s', false)
              (push_command s' (Command.on_connect conn), true)).0 in
          Ready r r.commands
    go clients true valid stays more = (valid s.commands, stays)
    go clients false valid stays more = (
      valid (s.commands ++ Command.on_connect conn ∷ []),
      subst (Waiting clients) (sym (connects-append_one s.commands (Command.on_connect conn))) more,
    )

pushed_unless :
    {s : Server} (c : Command) (ready : Bool)
    → connect_of c ≡ []
    → Ready s s.commands
    → let r = if ready then s else push_command s c in Ready r r.commands
pushed_unless c true quiet r = r
pushed_unless c false quiet r = push_Ready c quiet r

pub lost_Ready :
    {s : Server} (conn : ℕ)
    → Ready s s.commands
    → Ready (connection_lost s conn) (connection_lost s conn).commands
unfolding connection_lost connect_of
lost_Ready {s} conn r = pushed_unless (Command.on_disconnect conn) s.ready_for_shutdown refl r

copied_quiet :
    (conn len : ℕ) (buf : List ℕ) {c : Command}
    → Command.copy_data conn len buf ≡ some c
    → connect_of c ≡ []
unfolding Command.copy_data connect_of
copied_quiet conn len buf {c} e = elim (Option-cases (read buf 0 len)) [
  | inl short ↦ absurd (cc (rw (short, Command.copy_data) at e))
  | inr (bytes, got) ↦
      let equal : Command.on_data conn bytes ≡ c = cc (rw (got, Command.copy_data) at e) in
      subst (λ k. connect_of k ≡ []) equal refl
]

pub data_Ready :
    {s s' : Server} (conn len : ℕ) (buf : List ℕ)
    → data_received s conn len buf ≡ some s'
    → Ready s s.commands
    → Ready s' s'.commands
unfolding data_received
data_Ready {s} {s'} conn len buf e r =
    go s.ready_for_shutdown (Command.copy_data conn (len % 2 ^ 16) buf) refl e
  where
    go :
        (ready : Bool) (c : Option Command)
        → Command.copy_data conn (len % 2 ^ 16) buf ≡ c
        → (if ready
            then some s
            else elim c [ none ↦ none | some command ↦ some (push_command s command) ])
          ≡ some s'
        → Ready s' s'.commands
    go true c copied e = let equal : s ≡ s' = cc in subst (λ k. Ready k k.commands) equal r
    go false none copied e = absurd (cc)
    go false (some c) copied e =
        let equal : push_command s c ≡ s' = cc in
        subst (λ k. Ready k k.commands) equal
          (push_Ready c (copied_quiet conn (len % 2 ^ 16) buf copied) r)
