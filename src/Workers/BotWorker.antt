-- ===== src/Workers/BotWorker.antt =====
-- ts-core/src/workers/bot-worker.ts: `processTask`, which runs one job of the execution queue.
pub mod Reports
pub mod Ends
pub mod Sink
use Prim.Native.String.{String}
use mc_servant.Base.{
  ℕ, suc, Bool, true, false, not, ◌||◌, Option, none, some, List, [], ◌∷◌, ◌++◌, if◌then◌else◌,
  length, ltb,
}
use mc_servant.Base.Text.{is_blank}
use mc_servant.Runtime.Contracts.{InterruptSource, system, stalled}

pub record CodeJob : Type 0 where
  pub message_id : String
  pub intent_epoch : ℕ
  pub code : String

pub record BotWorkerTask : Type 0 where
  pub bot_id : String
  pub exec_job : CodeJob
  pub owner_text : String

-- An error that is thrown; `interrupt_source` is set on the actor's errors of an interrupted task.
pub record WorkerError : Type 0 where
  pub message : String
  pub interrupt_source : Option InterruptSource
  pub reason : Option String

pub data TaskStatus : Type 0 where
  completed failed interrupted : TaskStatus

-- The arguments of `createBotWorkerActions`: the phase, with what a terminal one tells.
pub data Report : Type 0 where
  started : Report
  discarded : ℕ → Report
  terminal : TaskStatus → ℕ → String → Option InterruptSource → Report

pub data BotWorkerAction : Type 0 where
  emit_task_lifecycle : BotWorkerTask → Report → BotWorkerAction
  enqueue_brain persist_sandbox_experience : BotWorkerTask → TaskStatus → BotWorkerAction

unfoldable pub create_bot_worker_actions : BotWorkerTask → Report → List BotWorkerAction
create_bot_worker_actions task started = emit_task_lifecycle task started ∷ []
create_bot_worker_actions task (discarded epoch) = emit_task_lifecycle task (discarded epoch) ∷ []
create_bot_worker_actions task (terminal status steps text source) =
    emit_task_lifecycle task (terminal status steps text source)
    ∷ enqueue_brain task status
    ∷ persist_sandbox_experience task status
    ∷ []

pub data RuntimeEvent : Type 0 where
  task_started task_discarded : String → RuntimeEvent
  task_ended : TaskStatus → String → RuntimeEvent

-- What has been given to the action sink, the variable `events`, and the calls of `executeCode`.
pub record Worker : Type 0 where
  pub sent : List BotWorkerAction
  pub events : List RuntimeEvent
  pub executed : ℕ

-- What the code's surroundings do: the sink, at the n-th action of the worker's life, and the
-- checks of `createBotWorkerActions` may throw.
pub record Surroundings : Type 0 where
  pub sink : ℕ → Option WorkerError
  pub refusal : Report → Option WorkerError

-- The answer of `executeCode`: a result, with its status, steps, error text, and the error that
-- the result's summary makes of a completed one, or a thrown error.
pub data Answer : Type 0 where
  returned : TaskStatus → ℕ → String → Option String → Answer
  threw : WorkerError → Answer

unfoldable pub emit_actions :
    Surroundings → List BotWorkerAction → Worker → Worker × Option WorkerError
emit_actions u [] w = (w, none)
emit_actions u (a ∷ as') w = elim (u.sink (length w.sent)) [
  | some e ↦ (record w { sent = w.sent ++ a ∷ [] }, some e)
  | none ↦ emit_actions u as' (record w { sent = w.sent ++ a ∷ [] })
]

-- `emitActions(createBotWorkerActions(...))`.
unfoldable pub report : Surroundings → BotWorkerTask → Report → Worker → Worker × Option WorkerError
report u task r w = elim (u.refusal r) [
  | some e ↦ (w, some e)
  | none ↦ emit_actions u (create_bot_worker_actions task r) w
]

abbrev pub push_event : RuntimeEvent → Worker → Worker
push_event e w = record w { events = w.events ++ e ∷ [] }

abbrev pub plain_error : String → WorkerError
plain_error message = record { message = message; interrupt_source = none; reason = none }

-- How the body of the `try` ends: at its end, or by an error, with `terminalFailureHandled`.
pub data Ending : Type 0 where
  ended : Ending
  thrown : Bool → WorkerError → Ending

-- Report a terminal state, then note it; `after` is how the body goes on.
unfoldable pub conclude :
    Surroundings
    → BotWorkerTask
    → TaskStatus
    → ℕ
    → String
    → Option InterruptSource
    → Ending
    → Worker
    → Worker × Ending
conclude u task status steps text source after w =
    let (v, e) = report u task (terminal status steps text source) w in
    elim e [
      | some x ↦ (v, thrown false x)
      | none ↦ (push_event (task_ended status task.exec_job.message_id) v, after)
    ]

unfoldable pub try_body : Surroundings → BotWorkerTask → Answer → Worker → Worker × Ending
try_body u task (returned failed steps text summary) w =
    conclude u task failed steps text none (thrown true (plain_error text)) w
try_body u task (returned interrupted steps text summary) w =
    conclude u task interrupted steps text (some (system stalled)) ended w
try_body u task (returned completed steps text (some failure)) w =
    conclude u task failed steps failure none (thrown true (plain_error failure)) w
try_body u task (returned completed steps text none) w =
    conclude u task completed steps "" none ended w
try_body u task (threw e) w = (w, thrown false e)

abbrev pub reason_of : WorkerError → String
reason_of e = elim e.reason [ none ↦ e.message | some r ↦ if is_blank r then e.message else r ]

-- The `catch`; the result is the error that `processTask` is rejected with.
unfoldable pub handle : Surroundings → BotWorkerTask → Worker × Ending → Worker × Option WorkerError
handle u task (w, ended) = (w, none)
handle u task (w, thrown true e) = (w, some e)
handle u task (w, thrown false e) = elim e.interrupt_source [
  | some source ↦
      let (v, x) = report u task (terminal interrupted 0 (reason_of e) (some source)) w in
      elim x [
        | some y ↦ (v, some y)
        | none ↦ (push_event (task_ended interrupted task.exec_job.message_id) v, none)
      ]
  | none ↦
      let (v, x) = report u task (terminal failed 0 e.message none) w in
      elim x [
        | some y ↦ (v, some y)
        | none ↦ (push_event (task_ended failed task.exec_job.message_id) v, some e)
      ]
]

-- From the report of the start on.
unfoldable pub execute_task :
    Surroundings → BotWorkerTask → Answer → Worker → Worker × Option WorkerError
execute_task u task answer w =
    let (v, e) = report u task started w in
    elim e [
      | some x ↦ (v, some x)
      | none ↦
          let s = push_event (task_started task.exec_job.message_id) v in
          handle u task (try_body u task answer (record s { executed = suc s.executed }))
    ]

-- `processTask` for a task that `cloneBotWorkerTask` has checked.
unfoldable pub process_task :
    Surroundings → ℕ → BotWorkerTask → Answer → Worker → Worker × Option WorkerError
process_task u current_epoch task answer w =
    if ltb task.exec_job.intent_epoch current_epoch
    then (let (v, e) = report u task (discarded current_epoch) w in
        elim e [
          | some x ↦ (v, some x)
          | none ↦ (push_event (task_discarded task.exec_job.message_id) v, none)
        ])
    else execute_task u task answer w

-- `cloneBotWorkerTask`, for texts and numbers of their types.
unfoldable pub clone_bot_worker_task :
    Bool → String → CodeJob → Option String → Option BotWorkerTask
clone_bot_worker_task is_bot bot_id job owner_text =
    let owner : String = elim owner_text [ none ↦ job.message_id | some t ↦ t ] in
    if not is_bot
      || is_blank bot_id
      || is_blank job.message_id
      || is_blank job.code
      || is_blank owner
    then none
    else some (record { bot_id = bot_id; exec_job = job; owner_text = owner })
