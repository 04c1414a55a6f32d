-- ===== src/Workers/BotWorker/Reports.antt =====
-- What ts-core/src/workers/bot-worker.ts tells the outside of a task.
use Prim.Native.String.{String}
use mc_servant.Base.{
  ℕ, suc, ◌≤◌, ◌<◌, ◌≡◌, ◌≢◌, refl, sym, ap, subst, ◌↔◌, false, Option, none, some, List, [], ◌∷◌,
  ◌∙◌, ◌++◌, arith, length,
}
use mathlib.Core.List.{append-nil, append_assoc}
use mc_servant.Runtime.Contracts.{InterruptSource}
use mc_servant.Workers.BotWorker.{
  BotWorkerTask, WorkerError, TaskStatus, completed, failed, interrupted, Report, started,
  discarded, terminal, BotWorkerAction, emit_task_lifecycle, enqueue_brain,
  persist_sandbox_experience, task_started, task_discarded, task_ended, Worker, Surroundings,
  Answer, returned, threw, emit_actions, report, push_event, reason_of, create_bot_worker_actions,
  Ending, ended, thrown, conclude, try_body, handle, execute_task, process_task,
}

-- The outcome that the answer of `executeCode` means.
abbrev pub status_of : Answer → TaskStatus
status_of (returned completed steps text none) = completed
status_of (returned completed steps text (some failure)) = failed
status_of (returned failed steps text summary) = failed
status_of (returned interrupted steps text summary) = interrupted
status_of (threw e) = elim e.interrupt_source [ none ↦ failed | some source ↦ interrupted ]

-- Nothing throws but `executeCode`.
abbrev pub Calm : Surroundings → Type 0
Calm u = ((n : ℕ) → u.sink n ≡ none) × ((r : Report) → u.refusal r ≡ none)

emit_actions-Calm :
    (u : Surroundings) (as' : List BotWorkerAction) (w : Worker)
    → ((n : ℕ) → u.sink n ≡ none)
    → emit_actions u as' w ≡ (record w { sent = w.sent ++ as' }, none)
unfolding emit_actions
emit_actions-Calm u [] w h = ground (arith, append-nil w.sent)
emit_actions-Calm u (a ∷ as') w h = ground (
  arith,
  h (length w.sent),
  append_assoc w.sent (a ∷ []) as',
  emit_actions-Calm u as' (record w { sent = w.sent ++ a ∷ [] }) h,
)

report-Calm :
    (u : Surroundings) (task : BotWorkerTask) (r : Report) (w : Worker)
    → Calm u
    → report u task r w ≡ (record w { sent = w.sent ++ create_bot_worker_actions task r }, none)
unfolding report
report-Calm u task r w (h, k) =
    ground (arith, k r, emit_actions-Calm u (create_bot_worker_actions task r) w h)

-- The report of one terminal state of the task, and its event.
abbrev Ends : BotWorkerTask → TaskStatus → Worker → Worker × Option WorkerError → Type 0
Ends task status w p =
    ((steps : ℕ) × (text : String) × (source : Option InterruptSource) × (p.0.sent
        ≡ w.sent ++ create_bot_worker_actions task (terminal status steps text source)))
    × (p.0.events ≡ w.events ++ task_ended status task.exec_job.message_id ∷ [])
    × (p.0.executed ≡ w.executed)
    × ((p.1 ≢ none) ↔ (status ≡ failed))

conclude-Ends :
    (u : Surroundings) (task : BotWorkerTask) (status : TaskStatus) (steps : ℕ) (text : String)
    (source : Option InterruptSource) (after : Ending) (w : Worker)
    → Calm u
    → ((v : Worker)
        → ((handle u task (v, after)).0 ≡ v)
          × (((handle u task (v, after)).1 ≢ none) ↔ (status ≡ failed)))
    → Ends task status w (handle u task (conclude u task status steps text source after w))
unfolding conclude
conclude-Ends u task status steps text source after w c k =
    let r = report-Calm u task (terminal status steps text source) w c in
    let v : Worker = push_event (task_ended status task.exec_job.message_id) (record w {
      sent = w.sent ++ create_bot_worker_actions task (terminal status steps text source);
    }) in
    subst (λ q. Ends task status w (handle u task q)) (sym (concluded r))
      (
        (steps, text, source, ap (λ (q : Worker). q.sent) (k v).0),
        ap (λ (q : Worker). q.events) (k v).0,
        ap (λ (q : Worker). q.executed) (k v).0,
        (k v).1,
      )
  where
    v : Worker
    v = push_event (task_ended status task.exec_job.message_id) (record w {
      sent = w.sent ++ create_bot_worker_actions task (terminal status steps text source);
    })

    concluded :
        report u task (terminal status steps text source) w ≡ (
          record w {
            sent = w.sent ++ create_bot_worker_actions task (terminal status steps text source);
          },
          none,
        )
        → conclude u task status steps text source after w ≡ (v, after)
    concluded e = ground (arith, e)

try_body-Ends :
    (u : Surroundings) (task : BotWorkerTask) (answer : Answer) (w : Worker)
    → Calm u
    → Ends task (status_of answer) w (handle u task (try_body u task answer w))
unfolding try_body handle
try_body-Ends u task (returned completed steps text none) w c =
    conclude-Ends u task completed steps "" none ended w c
      (λ v. (refl, (λ h. absurd (h refl), λ h. cc)))
try_body-Ends u task (returned completed steps text (some failure)) w c =
    conclude-Ends u task failed steps failure none _ w c (λ v. (refl, (λ h. refl, λ h e. cc)))
try_body-Ends u task (returned failed steps text summary) w c =
    conclude-Ends u task failed steps text none _ w c (λ v. (refl, (λ h. refl, λ h e. cc)))
try_body-Ends u task (returned interrupted steps text summary) w c =
    conclude-Ends u task interrupted steps text _ ended w c
      (λ v. (refl, (λ h. absurd (h refl), λ h. cc)))
try_body-Ends u task (threw e) w c = go e.interrupt_source refl
  where
    go :
        (o : Option InterruptSource)
        → e.interrupt_source ≡ o
        → Ends task
            (elim o [ none ↦ failed | some source ↦ interrupted ])
            w
            (handle u task (w, thrown false e))
    go none k =
        let r = report-Calm u task (terminal failed 0 e.message none) w c in
        (
          (0, e.message, none, ground (arith, r)),
          ground (arith, r),
          ground (arith, r),
          (λ h. refl, λ h q. ground (arith, r)),
        )
    go (some source) k =
        let r = report-Calm u task (terminal interrupted 0 (reason_of e) (some source)) w c in
        (
          (0, reason_of e, some source, ground (arith, r)),
          ground (arith, r),
          ground (arith, r),
          (λ h. absurd (h (ground (arith, r))), λ h. cc),
        )

pub not_stale :
    (u : Surroundings) (epoch : ℕ) (task : BotWorkerTask) (answer : Answer) (w : Worker)
    → epoch ≤ task.exec_job.intent_epoch
    → process_task u epoch task answer w ≡ execute_task u task answer w
unfolding process_task
not_stale u epoch task answer w h = ground arith

pub execute_task-report :
    (u : Surroundings) (task : BotWorkerTask) (answer : Answer) (w v : Worker)
    → report u task started w ≡ (v, none)
    → execute_task u task answer w
      ≡ handle u task (
          try_body u task answer (record (push_event (task_started task.exec_job.message_id) v) {
            executed = suc v.executed;
          }))
unfolding execute_task
execute_task-report u task answer w v h = ground (arith, h)

-- Where nothing throws but `executeCode`, a task that is not stale is executed once and ends once:
-- it is reported as started, and then in one terminal state, that of the answer: its lifecycle is
-- told, the brain gets it, and its experience is kept, in this order; the events are these two; and the job is rejected exactly when the state is `failed`.
pub process_task-Calm :
    (u : Surroundings) (epoch : ℕ) (task : BotWorkerTask) (answer : Answer) (w : Worker)
    → Calm u
    → epoch ≤ task.exec_job.intent_epoch
    → let p = process_task u epoch task answer w in
      let id = task.exec_job.message_id in
      let status = status_of answer in
      ((steps : ℕ) × (text : String) × (source : Option InterruptSource) × (p.0.sent
          ≡ w.sent
            ++ emit_task_lifecycle task started
              ∷ emit_task_lifecycle task (terminal status steps text source)
              ∷ enqueue_brain task status
              ∷ persist_sandbox_experience task status
              ∷ []))
      × (p.0.events ≡ w.events ++ task_started id ∷ task_ended status id ∷ [])
      × (p.0.executed ≡ suc w.executed)
      × ((p.1 ≢ none) ↔ (status ≡ failed))
unfolding process_task execute_task create_bot_worker_actions
process_task-Calm u epoch task answer w c h =
    let id = task.exec_job.message_id in
    let s : Worker = record w {
      sent = w.sent ++ create_bot_worker_actions task started;
      events = w.events ++ task_started id ∷ [];
      executed = suc w.executed;
    } in
    let p : Worker × Option WorkerError = handle u task (try_body u task answer s) in
    let q : process_task u epoch task answer w ≡ p =
      not_stale u epoch task answer w h
      ∙ execute_task-report u task answer w (record w { sent = s.sent })
          (report-Calm u task started w c) in
    let ((steps, text, source, sent), events, executed, rejected) =
      try_body-Ends u task answer s c in
    (
      (
        steps,
        text,
        source,
        ap (λ (x : Worker × Option WorkerError). x.0.sent) q ∙ sent ∙ append_assoc w.sent _ _,
      ),
      ap (λ (x : Worker × Option WorkerError). x.0.events) q ∙ events ∙ append_assoc w.events _ _,
      ap (λ (x : Worker × Option WorkerError). x.0.executed) q ∙ executed,
      subst (λ (x : Worker × Option WorkerError). (x.1 ≢ none) ↔ (status_of answer ≡ failed))
          (sym q) rejected,
    )

-- A stale task is reported as discarded, and not executed.
pub process_task-stale :
    (u : Surroundings) (epoch : ℕ) (task : BotWorkerTask) (answer : Answer) (w : Worker)
    → Calm u
    → task.exec_job.intent_epoch < epoch
    → process_task u epoch task answer w ≡ (
      record w {
        sent = w.sent ++ emit_task_lifecycle task (discarded epoch) ∷ [];
        events = w.events ++ task_discarded task.exec_job.message_id ∷ [];
      },
      none,
    )
unfolding process_task create_bot_worker_actions
process_task-stale u epoch task answer w c h =
    ground (arith, report-Calm u task (discarded epoch) w c)
