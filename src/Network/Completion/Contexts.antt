-- ===== src/Network/Completion/Contexts.antt =====
-- The input contexts of a connection (network/src/easy_connection.cpp, network/src/easy_worker.cpp and
-- network/src/easy_contextpool.cpp, Windows), where the pool serves this connection only.
use lib_fantuan.Prelude.{
  ℕ, suc, ◌≡◌, refl, sym, ap, subst, ◌∙◌, Bool, true, List, [], ◌∷◌, ◌++◌, arith, Bool-cases, inl,
  inr, ltb, ◌==◌, ◌||◌, ◌&&◌, length,
}
use lib_fantuan.Network.ContextPool.{
  ContextPool, Side, pop, pop_input_context, push_input_context, push_output_context,
}
use lib_fantuan.Network.ContextPool.Uses.{Exclusive, pop-pushed_out, push-taken_out, in_front}
use lib_fantuan.Network.Completion.{
  Task, Call, Connection, Answers, Buffer, create, connect_to, async_connect, accept_with,
  async_send, async_send_context, async_disconnect, async_recv, post_send, received_first, greet,
  input_context, called, close, work, set_ref_max, under_way,
}
use lib_fantuan.Network.Completion.Steps.{
  Step, Run, stop, go, connecting, accepting, working, sending, disconnecting, closing, limiting,
}

-- The contexts of the receives that are under way.
abbrev pub inputs : List Task → List ℕ
inputs [] = []
inputs (Task.recv x ∷ ts) = x ∷ inputs ts
inputs (Task.connect ∷ ts) = inputs ts
inputs (Task.accept ∷ ts) = inputs ts
inputs (Task.disconnect ∷ ts) = inputs ts
inputs (Task.send x ∷ ts) = inputs ts
inputs (Task.passed x ∷ ts) = inputs ts
inputs (Task.release ∷ ts) = inputs ts

-- Those contexts are apart from the free ones.
abbrev pub Kept : Connection → Type 0
Kept c = Exclusive c.pool.input (inputs c.tasks)

abbrev Same : Connection → Connection → Type 0
Same c d = (d.pool.input ≡ c.pool.input) × (inputs d.tasks ≡ inputs c.tasks)

Same-Kept : (c d : Connection) → Same c d → Kept c → Kept d
Same-Kept c d s k =
    subst (λ side. Exclusive side (inputs d.tasks)) (sym s.0)
      (subst (λ out. Exclusive c.pool.input out) (sym s.1) k)

disconnect-Same : (ok : Bool) (c : Connection) → Same c (async_disconnect ok c)
unfolding async_disconnect
disconnect-Same ok c = ground arith

disconnect-Kept : (ok : Bool) (c : Connection) → Kept c → Kept (async_disconnect ok c)
disconnect-Kept ok c k = Same-Kept c (async_disconnect ok c) (disconnect-Same ok c) k

close-Same : (c : Connection) → Same c (close c)
unfolding close
close-Same c = ground arith

post-Same : (a : Answers) (x : ℕ) (c : Connection) → Same c (post_send a x c)
unfolding post_send async_disconnect push_output_context
post-Same a x c = ground arith

send-Same :
    (a : Answers) (size len : ℕ) (b : Buffer) (c : Connection) → Same c (async_send a size len b c)
unfolding async_send async_send_context async_disconnect push_output_context
send-Same a size len (Buffer.input x) c = (refl, refl)
send-Same a size len (Buffer.output x) c = ground arith

connecting-Same : (ok : Bool) (c : Connection) → Same c (connect_to ok c)
unfolding connect_to async_connect
connecting-Same ok c = ground arith

-- A receive takes its context, or gives it back.
recv-Kept :
    (a : Answers) (x : ℕ) (c : Connection)
    → Exclusive c.pool.input (x ∷ inputs c.tasks)
    → Kept (async_recv a x c)
unfolding async_recv push_input_context
recv-Kept a x c k =
    let shut = record c { iorefs = suc c.iorefs; pool = push_input_context c.pool x } in
    let back : Kept shut = push-taken_out c.pool.input x (inputs c.tasks) k in
    let failed = disconnect-Kept a.disconnects shut back in
    elim (Bool-cases a.posts) [ inl on ↦ rw on k | inr off ↦ rw off failed ]

received-Kept :
    (a : Answers) (c : Connection) → Kept c → Kept (received_first a c (input_context a c.pool))
unfolding received_first pop_input_context
received-Kept a c k =
    let (side, x) = pop c.pool.input in
    let taken =
      recv-Kept a x (record c { pool = record c.pool { input = side } })
        (pop-pushed_out c.pool.input (inputs c.tasks) k) in
    let failed = disconnect-Kept a.disconnects c k in
    elim (Bool-cases (a.allocates || ltb 0 (length c.pool.input.free))) [
      | inl given ↦ rw given taken
      | inr nothing ↦ rw nothing failed
    ]

greet-Kept : (a : Answers) (c : Connection) → Kept c → Kept (greet a c)
unfolding greet
greet-Kept a c k =
    let met = called Call.on_connection c in
    let given = received-Kept a met k in
    let refused = disconnect-Kept a.disconnects met k in
    elim (Bool-cases a.welcomes) [ inl on ↦ rw on given | inr off ↦ rw off refused ]

pushed_back :
    (c : Connection) (x : ℕ)
    → Exclusive c.pool.input (x ∷ inputs c.tasks)
    → Kept (record c { pool = push_input_context c.pool x })
unfolding push_input_context
pushed_back c x k = push-taken_out c.pool.input x (inputs c.tasks) k

sent_back :
    (c : Connection) (x : ℕ) → Kept c → Kept (record c { pool = push_output_context c.pool x })
unfolding push_output_context
sent_back c x k = k

inputs-append : (ts us : List Task) → inputs (ts ++ us) ≡ inputs ts ++ inputs us
inputs-append [] us = refl
inputs-append (Task.recv x ∷ ts) us = ap (◌∷◌ x) (inputs-append ts us)
inputs-append (Task.connect ∷ ts) us = inputs-append ts us
inputs-append (Task.accept ∷ ts) us = inputs-append ts us
inputs-append (Task.disconnect ∷ ts) us = inputs-append ts us
inputs-append (Task.send x ∷ ts) us = inputs-append ts us
inputs-append (Task.passed x ∷ ts) us = inputs-append ts us
inputs-append (Task.release ∷ ts) us = inputs-append ts us

-- A task without a context leaves those of the others.
inputs-without :
    (side : Side) (before behind : List Task) (t : Task)
    → inputs (t ∷ behind) ≡ inputs behind
    → Exclusive side (inputs (before ++ t ∷ behind))
    → Exclusive side (inputs (before ++ behind))
inputs-without side before behind t e k =
    let same =
      inputs-append before (t ∷ behind)
      ∙ (ap (λ out. inputs before ++ out) e ∙ sym (inputs-append before behind)) in
    subst (λ out. Exclusive side out) same k

inputs-split :
    (side : Side) (before : List Task) (t : Task) (behind : List Task)
    → Exclusive side (inputs (before ++ t ∷ behind))
    → Exclusive side (inputs (t ∷ (before ++ behind)))
inputs-split side before (Task.recv x) behind k =
    subst (λ out. Exclusive side (x ∷ out)) (sym (inputs-append before behind))
      (in_front side (inputs before) x (inputs behind)
        (subst (λ out. Exclusive side out) (inputs-append before (Task.recv x ∷ behind)) k))
inputs-split side before Task.connect behind k =
    inputs-without side before behind Task.connect refl k
inputs-split side before Task.accept behind k = inputs-without side before behind Task.accept refl k
inputs-split side before Task.disconnect behind k =
    inputs-without side before behind Task.disconnect refl k
inputs-split side before (Task.send x) behind k =
    inputs-without side before behind (Task.send x) refl k
inputs-split side before (Task.passed x) behind k =
    inputs-without side before behind (Task.passed x) refl k
inputs-split side before Task.release behind k =
    inputs-without side before behind Task.release refl k

-- A task that goes on, where its context was apart from the free ones.
work-Kept :
    (a : Answers) (result : Bool) (n : ℕ) (t : Task) (c : Connection)
    → Kept (under_way t c)
    → Kept (work a result n t c)
unfolding work
work-Kept a result n Task.connect c k =
    let up = record c { connected = true } in
    let met = greet-Kept a up k in
    let failed = called Call.on_connect_failed c in
    let shut : Kept (close failed) = Same-Kept failed (close failed) (close-Same failed) k in
    elim (Bool-cases result) [
      | inr off ↦ rw off shut
      | inl on ↦
          rw on
            (elim (Bool-cases a.updates) [ inl done ↦ rw done met | inr refused ↦ rw refused k ])
    ]
work-Kept a result n Task.accept c k =
    let met = greet-Kept a (record c { connected = true }) k in
    elim (Bool-cases (result && a.updates)) [ inl on ↦ rw on met | inr off ↦ rw off k ]
work-Kept a result n Task.disconnect c k = elim (Bool-cases (c.iorefs == 0)) [
  | inl idle ↦ rw idle k
  | inr busy ↦ rw busy k
]
work-Kept a result n (Task.recv x) c k =
    let back = record c { pool = push_input_context c.pool x } in
    let shut = disconnect-Kept a.disconnects back (pushed_back c x k) in
    let more = recv-Kept a x (called (Call.on_data n x) c) k in
    elim (Bool-cases (n == 0)) [ inl end ↦ rw end shut | inr some_data ↦ rw some_data more ]
work-Kept a result n (Task.send x) c k = sent_back c x k
work-Kept a result n (Task.passed x) c k = Same-Kept c (post_send a x c) (post-Same a x c) k
work-Kept a result n Task.release c k = k

split-Kept :
    (c : Connection) (before : List Task) (t : Task) (behind : List Task)
    → c.tasks ≡ before ++ t ∷ behind
    → Kept c
    → Kept (under_way t (record c { tasks = before ++ behind }))
split-Kept c before t behind e k =
    inputs-split c.pool.input before t behind (subst (λ ts. Exclusive c.pool.input (inputs ts)) e k)

step-Kept : {threads : ℕ} {c d : Connection} → Kept c → Step threads c d → Kept d
unfolding accept_with set_ref_max
step-Kept {c = c} k (connecting ok no_acceptor spare e) =
    Same-Kept c (connect_to ok c) (connecting-Same ok c) k
step-Kept {c = c} k (accepting with_acceptor spare) = k
step-Kept {c = c} k (working a result n before t behind e) =
    work-Kept a result n t (record c { tasks = before ++ behind })
      (split-Kept c before t behind e k)
step-Kept {c = c} k (sending a size len b p room) =
    Same-Kept c (async_send a size len b c) (send-Same a size len b c) k
step-Kept {c = c} k (disconnecting ok p) = disconnect-Kept ok c k
step-Kept {c = c} k (limiting refmax) = k
step-Kept {c = c} k (closing ks e in_use no_accept) = Same-Kept c (close c) (close-Same c) k

-- Whatever the threads do, the contexts of the receives that are under way are different from each other and from those in
-- the free list of the pool, and together they are all input contexts that were made.
-- Conditions: no other connection uses the pool, and at the start no input context was out.
pub Run-Exclusive :
    {threads : ℕ} (has_acceptor : Bool) (pool : ContextPool) {c : Connection}
    → Exclusive pool.input []
    → Run threads (create has_acceptor pool) c
    → Exclusive c.pool.input (inputs c.tasks)
Run-Exclusive has_acceptor pool v stop = v
Run-Exclusive has_acceptor pool v (go run step) =
    step-Kept (Run-Exclusive has_acceptor pool v run) step
