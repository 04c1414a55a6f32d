-- ===== src/Workers/BotWorker/Ends.antt =====
-- How often ts-core/src/workers/bot-worker.ts notes the end of a task, whatever its action sink
-- throws.
use Prim.Native.String.{String}
use mc_servant.Base.{
  ℕ, suc, ◌+◌, ◌≤◌, ◌≡◌, ◌≢◌, refl, ap, inl, inr, true, false, Option, none, some, List, [], ◌∷◌,
  ◌∙◌, ◌++◌, arith, weight, weight-append, Option-cases,
}
use mc_servant.Runtime.Contracts.{InterruptSource}
use mc_servant.Workers.BotWorker.{
  BotWorkerTask, WorkerError, TaskStatus, completed, failed, interrupted, Report, started,
  discarded, terminal, BotWorkerAction, RuntimeEvent, task_started, task_discarded, task_ended,
  Worker, Surroundings, Answer, returned, threw, emit_actions, report, push_event, reason_of,
  create_bot_worker_actions, Ending, ended, thrown, conclude, try_body, handle, execute_task,
  process_task,
}

-- How often a task has ended, of the worker's events.
abbrev pub is_end : RuntimeEvent → ℕ
is_end (task_ended status id) = 1
is_end _ = 0

emit_actions-keeps :
    (u : Surroundings) (as' : List BotWorkerAction) (w : Worker)
    → (emit_actions u as' w).0.events ≡ w.events
unfolding emit_actions
emit_actions-keeps u [] w = refl
emit_actions-keeps u (a ∷ as') w =
    ground (arith, emit_actions-keeps u as' (record w { sent = w.sent ++ a ∷ [] }))

report-keeps :
    (u : Surroundings) (task : BotWorkerTask) (r : Report) (w : Worker)
    → (report u task r w).0.events ≡ w.events
unfolding report
report-keeps u task r w = ground (arith, emit_actions-keeps u (create_bot_worker_actions task r) w)

weight-snoc :
    (es : List RuntimeEvent) (e : RuntimeEvent)
    → weight is_end (es ++ e ∷ []) ≡ weight is_end es + is_end e
weight-snoc es e = omega (arith, weight-append is_end es (e ∷ []))

conclude-ends :
    (u : Surroundings) (task : BotWorkerTask) (status : TaskStatus) (steps : ℕ) (text : String)
    (source : Option InterruptSource) (after : Ending) (w : Worker)
    → ((e : WorkerError) → after ≢ thrown false e)
    → let p = conclude u task status steps text source after w in
      (weight is_end p.0.events ≤ suc (weight is_end w.events))
      × ((e : WorkerError) → p.1 ≡ thrown false e → p.0.events ≡ w.events)
unfolding conclude
conclude-ends u task status steps text source after w k =
    let r = report-keeps u task (terminal status steps text source) w in
    let q = weight-snoc w.events (task_ended status task.exec_job.message_id) in
    (ground (arith, r, q), λ e h. ground (arith, r, k e))

-- The body notes at most one end, and none if it leaves by an error that is not handled.
try_body-ends :
    (u : Surroundings) (task : BotWorkerTask) (answer : Answer) (w : Worker)
    → let p = try_body u task answer w in
      (weight is_end p.0.events ≤ suc (weight is_end w.events))
      × ((e : WorkerError) → p.1 ≡ thrown false e → p.0.events ≡ w.events)
unfolding try_body
try_body-ends u task (returned completed steps text none) w =
    conclude-ends u task completed steps "" none ended w (λ e h. cc)
try_body-ends u task (returned completed steps text (some failure)) w =
    conclude-ends u task failed steps failure none _ w (λ e h. cc)
try_body-ends u task (returned failed steps text summary) w =
    conclude-ends u task failed steps text none _ w (λ e h. cc)
try_body-ends u task (returned interrupted steps text summary) w =
    conclude-ends u task interrupted steps text _ ended w (λ e h. cc)
try_body-ends u task (threw e) w = (omega arith, λ x h. refl)

handle-ends :
    (u : Surroundings) (task : BotWorkerTask) (v : Worker) (after : Ending) (n : ℕ)
    → weight is_end v.events ≤ suc n
    → ((e : WorkerError) → after ≡ thrown false e → weight is_end v.events ≤ n)
    → weight is_end (handle u task (v, after)).0.events ≤ suc n
unfolding handle
handle-ends u task v ended n h k = h
handle-ends u task v (thrown true e) n h k = h
handle-ends u task v (thrown false e) n h k = elim (Option-cases e.interrupt_source) [
  | inl q ↦ ground (
    arith,
    k e refl,
    report-keeps u task (terminal failed 0 e.message none) v,
    weight-snoc v.events (task_ended failed task.exec_job.message_id),
  )
  | inr (source, q) ↦ ground (
    arith,
    k e refl,
    report-keeps u task (terminal interrupted 0 (reason_of e) (some source)) v,
    weight-snoc v.events (task_ended interrupted task.exec_job.message_id),
  )
]

execute_task-ends :
    (u : Surroundings) (task : BotWorkerTask) (answer : Answer) (w : Worker)
    → weight is_end (execute_task u task answer w).0.events ≤ suc (weight is_end w.events)
unfolding execute_task
execute_task-ends u task answer w =
    let v : Worker = (report u task started w).0 in
    let id = task.exec_job.message_id in
    let s : Worker = record (push_event (task_started id) v) { executed = suc v.executed } in
    let q : weight is_end s.events ≡ weight is_end w.events =
      weight-snoc v.events (task_started id)
      ∙ (omega arith ∙ ap (weight is_end) (report-keeps u task started w)) in
    let p : Worker × Ending = try_body u task answer s in
    let (b, k) = try_body-ends u task answer s in
    ground (
      arith,
      q,
      report-keeps u task started w,
      handle-ends u task p.0 p.1 (weight is_end w.events) (omega (arith, b, q))
          (λ e h. omega (arith, q, ap (weight is_end) (k e h))),
    )

-- Whatever the action sink and the checks of its actions throw, a run of `processTask` notes at
-- most one end of the task among the worker's events.
pub process_task-one_end :
    (u : Surroundings) (epoch : ℕ) (task : BotWorkerTask) (answer : Answer) (w : Worker)
    → weight is_end (process_task u epoch task answer w).0.events ≤ suc (weight is_end w.events)
unfolding process_task
process_task-one_end u epoch task answer w = ground (
  arith,
  execute_task-ends u task answer w,
  report-keeps u task (discarded epoch) w,
  weight-snoc w.events (task_discarded task.exec_job.message_id),
)
