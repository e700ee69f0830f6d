-- ===== src/Midware/Server/Turn.antt =====
-- What a turn of the thread of the commands of EasyBaseServer (midware/src/easy_baseserver.cpp) leaves:
-- sessions and connections that match, and connections that wait for a session.
use lib_fantuan.Prelude.{
  ℕ, ◌≡◌, ◌≢◌, sym, ap, subst, ◌∙◌, inl, inr, Bool, true, false, Option, none, some, List, [], ◌∷◌,
  ◌++◌, arith, if◌then◌else◌, Option-cases, elem, Distinct,
}
use lib_fantuan.Midware.Packet.{Packet}
use lib_fantuan.Midware.Session.{Session}
use lib_fantuan.Midware.Command.{Command}
use lib_fantuan.Midware.Server.{Server, Output, Step}
use lib_fantuan.Midware.Server.Handlers.{
  disconnected, command_on_disconnect, command_on_connect, command_shutdown, disconnect_all,
  unless_ready, on_command, run_commands, command_turn,
}
use lib_fantuan.Midware.Server.Matched.{Unconnected, with_client_other}
use lib_fantuan.Midware.Server.Valid.{
  IsValid, command_on_connect-IsValid, command_on_disconnect-IsValid,
}
use lib_fantuan.Midware.Server.Commands.{
  Keeps, received-Keeps, command_disconnect-Keeps, command_send_data-Keeps, disconnect_all-Keeps,
}

-- The connections that commands will give a session.
unfoldable pub connect_of : Command → List ℕ
connect_of (Command.on_connect conn) = conn ∷ []
connect_of (Command.on_disconnect conn) = []
connect_of (Command.on_data conn bytes) = []
connect_of (Command.send_data id type_id len payload) = []
connect_of Command.shutdown = []
connect_of (Command.disconnect id reason) = []
connect_of (Command.on_session_disconnect id) = []
connect_of (Command.app id) = []

unfoldable pub connects : List Command → List ℕ
unfolding connect_of
connects [] = []
connects (c ∷ cs) = connect_of c ++ connects cs

-- A connection that waits for its session waits once, and has none.
pub record Waiting (clients : ℕ → Option (Option ℕ)) (conns : List ℕ) : Type 0 where
  pub once : Distinct conns
  pub new : (d : ℕ) → elem d conns ≡ true → clients d ≡ some none

-- What a command leaves: a valid server, and the connections of the commands behind it waiting.
abbrev pub Ready : Server → List Command → Type 0
Ready s cs = IsValid s × Waiting s.clients (connects cs)

kept_Ready :
    (s : Server) {r : Server} (cs : List Command)
    → Waiting s.clients (connects cs)
    → Keeps s r
    → Ready r cs
kept_Ready s {r} cs w k = (k.0, subst (λ c. Waiting c (connects cs)) (sym k.1) w)

module _ {s s' : Server} {ok : Bool} {os : List Output} where
  skipped_keeps :
      {step : Step} (P : Server → Type 0) (ready : Bool)
      → P s
      → (step ≡ some (s', ok, os) → P s')
      → (if ready then some (s, true, []) else step) ≡ some (s', ok, os)
      → P s'
  skipped_keeps P true h f e = let equal : s ≡ s' = cc in subst P equal h
  skipped_keeps P false h f e = f e

  unless_ready_keeps :
      {step : Step} (P : Server → Type 0)
      → P s
      → (step ≡ some (s', ok, os) → P s')
      → unless_ready s step ≡ some (s', ok, os)
      → P s'
  unfolding unless_ready
  unless_ready_keeps P h f e = skipped_keeps P s.ready_for_shutdown h f e

  -- A connection that waits behind a command is not the one that the command changes.
  connect_Ready :
      (made : Session) (conn : ℕ) (cs : List Command)
      → Unconnected made
      → Ready s (Command.on_connect conn ∷ cs)
      → command_on_connect made s conn ≡ some (s', ok, os)
      → Ready s' cs
  unfolding connects
  connect_Ready made conn cs idle (v, w) e =
      let live = w.new conn (ground arith) in
      let (r, x, step, valid, clients) = command_on_connect-IsValid made s conn idle v live in
      let equal : r ≡ s' = cc in
      subst (λ k. Ready k cs) equal
        (
          valid,
          record {
            once = w.once.1;
            new = λ d listed.
                let other : d ≢ conn = λ same.
                  let twice : true ≡ false =
                    sym listed ∙ (ap (λ k. elem k (connects cs)) same ∙ w.once.0) in
                  cc in
                ap (λ f. f d) clients
                ∙ (with_client_other s.clients conn (some (some x)) d other
                    ∙ w.new d (ground (arith, listed)));
          },
        )

  disconnect_Ready :
      (conn : ℕ) (cs : List Command)
      → Ready s cs
      → command_on_disconnect s conn ≡ some (s', ok, os)
      → Ready s' cs
  unfolding command_on_disconnect disconnected
  disconnect_Ready conn cs (v, w) e = elim (Option-cases (s.clients conn)) [
    | inl dead ↦ absurd (cc (rw (dead, disconnected) at e))
    | inr (client, live) ↦ elim (Option-cases client) [
      | inl no_session ↦
          let stay : disconnected s (some none) ≡ some (s', ok, os) =
            ap (disconnected s) (sym (live ∙ ap some no_session)) ∙ e in
          let equal : s ≡ s' = cc in subst (λ k. Ready k cs) equal (v, w)
      | inr (x, session) ↦
          let live' : s.clients conn ≡ some (some x) = live ∙ ap some session in
          let (r, step, valid, clients, back) = command_on_disconnect-IsValid s conn x v live' in
          let equal : r ≡ s' = cc in
          subst (λ k. Ready k cs) equal
            (
              valid,
              record {
                once = w.once;
                new = λ d listed.
                    let other : d ≢ conn = λ same.
                      let bad : some none ≡ some (some x) =
                        sym (w.new d listed) ∙ (ap s.clients same ∙ live') in
                      cc in
                    ap (λ f. f d) clients
                    ∙ (with_client_other s.clients conn none d other ∙ w.new d listed);
              },
            )
    ]
  ]

  shutdown-Keeps : IsValid s → command_shutdown s ≡ some (s', ok, os) → Keeps s s'
  unfolding command_shutdown
  shutdown-Keeps v e =
      let s1 : Server = record s { ready_for_shutdown = true } in
      let v1 : IsValid s1 = record { pool = v.pool; matched = v.matched } in
      elim (Option-cases (disconnect_all s1 s.sessions)) [
        | inl fault ↦ absurd (cc (rw (fault, command_shutdown) at e))
        | inr ((r, os1), done) ↦
            let equal : r ≡ s' = cc (rw (done, command_shutdown) at e) in
            subst (Keeps s) equal (disconnect_all-Keeps s.sessions {s = s1} v1 done)
      ]

-- Every command that goes through leaves the server valid. A connection that a command gives to a
-- session had none. Condition: new sessions without a connection.
module _ (made : Session) (handle : Packet → ℕ) (idle : Unconnected made) where
  on_command-Ready :
      {s s' : Server} (c : Command) (cs : List Command) {ok : Bool} {os : List Output}
      → Ready s (c ∷ cs)
      → on_command made handle s c ≡ some (s', ok, os)
      → Ready s' cs
  unfolding on_command connects
  on_command-Ready {s} (Command.on_connect conn) cs r e =
      unless_ready_keeps (λ k. Ready k cs)
        (r.0, record { once = r.1.once.1; new = λ d listed. r.1.new d (ground (arith, listed)) })
        (connect_Ready made conn cs idle r) e
  on_command-Ready {s} (Command.on_disconnect conn) cs r e = disconnect_Ready conn cs r e
  on_command-Ready {s} (Command.on_data conn bytes) cs r e =
      unless_ready_keeps (λ k. Ready k cs) r
        (λ step. kept_Ready s cs r.1 (received-Keeps handle bytes (s.clients conn) r.0 step)) e
  on_command-Ready {s} (Command.send_data id type_id len payload) cs r e =
      unless_ready_keeps (λ k. Ready k cs) r
        (λ step. kept_Ready s cs r.1 (command_send_data-Keeps id type_id len payload r.0 step)) e
  on_command-Ready {s} Command.shutdown cs r e = kept_Ready s cs r.1 (shutdown-Keeps r.0 e)
  on_command-Ready {s} (Command.disconnect id reason) cs r e =
      kept_Ready s cs r.1 (command_disconnect-Keeps id r.0 e)
  on_command-Ready {s} (Command.on_session_disconnect id) cs r e =
      let equal : s ≡ _ = cc in subst (λ k. Ready k cs) equal r
  on_command-Ready {s} (Command.app id) cs r e =
      let equal : s ≡ _ = cc in subst (λ k. Ready k cs) equal r

  run_commands-Ready :
      {s s' : Server} (cs : List Command) {os : List Output}
      → Ready s cs
      → run_commands made handle s cs ≡ some (s', os)
      → IsValid s'
  unfolding run_commands
  run_commands-Ready {s} {s'} [] r e = let equal : s ≡ s' = cc in subst IsValid equal r.0
  run_commands-Ready {s} {s'} (c ∷ cs) r e = elim (Option-cases (on_command made handle s c)) [
    | inl fault ↦ absurd (cc (rw (fault, run_commands) at e))
    | inr ((s1, ok, os1), step) ↦ elim (Option-cases (run_commands made handle s1 cs)) [
      | inl fault ↦ absurd (cc (rw (fault, run_commands) at (rw (step, run_commands) at e)))
      | inr ((s2, os2), rest) ↦
          let equal : s2 ≡ s' = cc (rw (rest, run_commands) at (rw (step, run_commands) at e)) in
          subst IsValid equal (run_commands-Ready cs (on_command-Ready c cs r step) rest)
    ]
  ]

  pub command_turn-Ready :
      {s s' : Server} {os : List Output}
      → Ready s s.commands
      → command_turn made handle s ≡ some (s', os)
      → Ready s' s'.commands
  unfolding command_turn connects
  command_turn-Ready {s} {s'} r e = elim (Option-cases (run_commands made handle s s.commands)) [
    | inl fault ↦ absurd (cc (rw (fault, command_turn) at e))
    | inr ((s1, os1), run) ↦
        let equal : record s1 { commands = [] } ≡ s' = cc (rw (run, command_turn) at e) in
        let v = run_commands-Ready s.commands r run in
        subst (λ k. Ready k k.commands) equal
          (
            record { pool = v.pool; matched = v.matched },
            record { once = tt; new = λ d listed. absurd (cc) },
          )
  ]
