-- ===== src/Network/Completion/Settling.antt =====
-- A connection that is given up comes to its end (network/src/easy_worker.cpp, Windows).
use lib_fantuan.Prelude.{
  ℕ, suc, ◌≤◌, ◌<◌, ◌≡◌, refl, Bool, true, false, List, [], ◌∷◌, ◌++◌, arith, Bool-cases, inl, inr,
  ap, ◌∙◌, ◌==◌, zero, ◌⊎◌,
}
use lib_fantuan.Network.ContextPool.{push_input_context, push_output_context}
use lib_fantuan.Network.Completion.{
  Task, Call, Connection, Answers, async_disconnect, post_send, work, under_way,
}
use lib_fantuan.Network.Completion.Steps.{
  total, total-split, holds, drops, Step, Reach, Run, stop, go, working, Phase, phase,
}
use lib_fantuan.Network.Completion.Invariant.{IsValid, Fits}
use lib_fantuan.Network.Completion.Due.{losses, run-Due}
use lib_fantuan.Network.Completion.Protocol.{Reach-IsValid, step-IsValid}

-- The steps that a task still takes where nothing is received or sent any more.
abbrev weight : Task → ℕ
weight (Task.passed x) = 3
weight (Task.recv x) = 2
weight (Task.send x) = 2
weight Task.release = 1
weight Task.connect = 0
weight Task.accept = 0
weight Task.disconnect = 0

weight-holds : (ts : List Task) → total holds ts ≤ total weight ts
weight-holds [] = omega arith
weight-holds (Task.connect ∷ ts) = omega (arith, weight-holds ts)
weight-holds (Task.accept ∷ ts) = omega (arith, weight-holds ts)
weight-holds (Task.disconnect ∷ ts) = omega (arith, weight-holds ts)
weight-holds (Task.recv x ∷ ts) = omega (arith, weight-holds ts)
weight-holds (Task.send x ∷ ts) = omega (arith, weight-holds ts)
weight-holds (Task.passed x ∷ ts) = omega (arith, weight-holds ts)
weight-holds (Task.release ∷ ts) = omega (arith, weight-holds ts)

-- A task of some weight, and where it stands.
record Found (g : Task → ℕ) (ts : List Task) : Type 0 where
  before : List Task
  task : Task
  behind : List Task
  at : ts ≡ before ++ task ∷ behind
  some_weight : 1 ≤ g task

find : (g : Task → ℕ) (ts : List Task) → 1 ≤ total g ts → Found g ts
find g [] h = absurd (omega arith)
find g (t ∷ ts) h = elim (Bool-cases (g t == 0)) [
  | inl none ↦
      let rest = find g ts (ground (arith, none)) in
      record {
        before = t ∷ rest.before;
        task = rest.task;
        behind = rest.behind;
        at = ap (◌∷◌ t) rest.at;
        some_weight = rest.some_weight;
      }
  | inr here ↦ record {
    before = [];
    task = t;
    behind = ts;
    at = refl;
    some_weight = ground (arith, here);
  }
]

abbrev nothing : Answers
nothing = record {
  updates = false;
  posts = false;
  disconnects = false;
  allocates = false;
  welcomes = false;
}

-- A step of a connection that is not connected, towards its end.
record Nearer (c d : Connection) : Type 0 where
  off : d.connected ≡ false
  calls : d.calls ≡ c.calls
  drops_stay : total drops d.tasks ≡ total drops c.tasks
  less : total weight d.tasks < total weight c.tasks

disconnect-off : (ok : Bool) (c : Connection) → c.connected ≡ false → async_disconnect ok c ≡ c
unfolding async_disconnect
disconnect-off ok c off = rw off

work-Nearer :
    (t : Task) (c : Connection)
    → 1 ≤ weight t
    → c.connected ≡ false
    → Nearer (under_way t c) (work nothing false 0 t c)
unfolding work post_send
work-Nearer Task.connect c h off = absurd (omega arith)
work-Nearer Task.accept c h off = absurd (omega arith)
work-Nearer Task.disconnect c h off = absurd (omega arith)
work-Nearer (Task.recv x) c h off =
    let same = disconnect-off false (record c { pool = push_input_context c.pool x }) off in
    rw same (record { off = off; calls = refl; drops_stay = refl; less = omega arith })
work-Nearer (Task.send x) c h off = record {
  off = off;
  calls = refl;
  drops_stay = refl;
  less = omega arith;
}
work-Nearer (Task.passed x) c h off =
    let same =
      disconnect-off false (record c { iorefs = suc c.iorefs; pool = push_output_context c.pool x })
        off in
    rw same (record { off = off; calls = refl; drops_stay = refl; less = omega arith })
work-Nearer Task.release c h off = record {
  off = off;
  calls = refl;
  drops_stay = omega arith;
  less = omega arith;
}

drop-task : (t : Task) → 1 ≤ drops t → t ≡ Task.disconnect
drop-task Task.disconnect h = refl
drop-task Task.connect h = absurd (omega arith)
drop-task Task.accept h = absurd (omega arith)
drop-task (Task.recv x) h = absurd (omega arith)
drop-task (Task.send x) h = absurd (omega arith)
drop-task (Task.passed x) h = absurd (omega arith)
drop-task Task.release h = absurd (omega arith)

-- The end of a run in which OnDisconnect is called on what was `c`.
record Ends (threads : ℕ) (start c : Connection) : Type 0 where
  last : Connection
  run : Run threads start last
  lost : last.calls ≡ Call.on_disconnect ∷ c.calls

lost-calls :
    (c : Connection)
    → c.iorefs ≡ 0
    → (work nothing false 0 Task.disconnect c).calls ≡ Call.on_disconnect ∷ c.calls
unfolding work
lost-calls c h = let idle : (c.iorefs == 0) ≡ true = ground (arith, h) in rw idle

end_now :
    (threads : ℕ) {start : Connection} (c : Connection)
    → Run threads start c
    → IsValid c
    → total weight c.tasks ≡ 0
    → 1 ≤ total drops c.tasks
    → Ends threads start c
end_now threads c run v none h =
    let f = find drops c.tasks h in
    let same = drop-task f.task f.some_weight in
    let there : c.tasks ≡ f.before ++ Task.disconnect ∷ f.behind =
      f.at ∙ ap (λ t. f.before ++ t ∷ f.behind) same in
    record {
      last = work nothing false 0 Task.disconnect (record c { tasks = f.before ++ f.behind });
      run = go run (working nothing false 0 f.before Task.disconnect f.behind there);
      lost =
          lost-calls (record c { tasks = f.before ++ f.behind })
            (omega (arith, v.counted, none, weight-holds c.tasks));
    }

settle :
    (threads fuel : ℕ) {start : Connection} (c : Connection)
    → Run threads start c
    → IsValid c
    → total weight c.tasks ≤ fuel
    → c.connected ≡ false
    → 1 ≤ total drops c.tasks
    → Ends threads start c
settle threads zero c run v small off h = end_now threads c run v (omega (arith, small)) h
settle threads (suc fuel) c run v small off h = elim (Bool-cases (total weight c.tasks == 0)) [
  | inl none ↦ end_now threads c run v (ground (arith, none)) h
  | inr more ↦
      let f = find weight c.tasks (ground (arith, more)) in
      let rest = record c { tasks = f.before ++ f.behind } in
      let step : Step threads c (work nothing false 0 f.task rest) =
        working nothing false 0 f.before f.task f.behind f.at in
      let near = work-Nearer f.task rest f.some_weight off in
      let weights = ap (total weight) f.at ∙ total-split weight f.before f.task f.behind in
      let dropped = ap (total drops) f.at ∙ total-split drops f.before f.task f.behind in
      let ends =
        settle threads fuel (work nothing false 0 f.task rest) (go run step) (step-IsValid v step)
          (omega (arith, near.less, weights, small)) near.off
          (omega (arith, near.drops_stay, dropped, h)) in
      record {
        last = ends.last;
        run = ends.run;
        lost = ends.lost ∙ ap (◌∷◌ Call.on_disconnect) near.calls;
      }
]

dropped-opened :
    (p : Phase) (c : Connection) → Fits p c → 1 ≤ total drops c.tasks → p ≡ Phase.opened
dropped-opened Phase.unborn c f h = absurd (omega (arith, f.1, h))
dropped-opened Phase.opened c f h = refl
dropped-opened Phase.over c f h = absurd (omega (arith, f.0, h))
dropped-opened Phase.broken c f h = elim f [ ]

-- A connection that is given up and has its disconnect posted never loses it: whatever the threads do from such a
-- reachable state, either OnDisconnect was called in the meantime, or the connection is still open and
-- not connected and there is a way on to OnDisconnect, its very next call.
pub async_disconnect-settles :
    {threads : ℕ} {c d : Connection}
    → Reach threads c
    → c.connected ≡ false
    → 1 ≤ total drops c.tasks
    → Run threads c d
    → (losses c.calls < losses d.calls)
      ⊎ ((phase d.calls ≡ Phase.opened)
          × (d.connected ≡ false)
          × ((e : Connection) × Run threads d e × (e.calls ≡ Call.on_disconnect ∷ d.calls)))
async_disconnect-settles {threads} {c} {d} r off h run =
    let v = Reach-IsValid r in
    let (w, due) =
      run-Due v
        (record { open_still = dropped-opened (phase c.calls) c v.fits h; off = off; dropped = h })
        run in
    elim due [
      | inl lost ↦ inl lost
      | inr g ↦
          let ends = settle threads (total weight d.tasks) d stop w (omega arith) g.off g.dropped in
          inr (g.open_still, g.off, (ends.last, ends.run, ends.lost))
    ]
