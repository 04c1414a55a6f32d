-- ===== src/Tests/WorkersRuns.antt =====
-- ts-core/src/workers/bot-worker.ts on a concrete task.
use Prim.Native.String.{String}
use mc_servant.Base.{
  ℕ, suc, ◌+◌, ◌≤◌, ◌≡◌, ◌≢◌, ◌↔◌, refl, Option, none, some, [], ◌∷◌, ◌++◌, weight, arith,
  if◌then◌else◌, ◌==◌, ==_iff,
}
use mc_servant.Runtime.Contracts.{InterruptSource}
use mc_servant.Workers.BotWorker.{
  BotWorkerTask, WorkerError, completed, failed, started, terminal, emit_task_lifecycle,
  enqueue_brain, persist_sandbox_experience, task_started, task_ended, Worker, Surroundings, Answer,
  returned, create_bot_worker_actions, process_task,
}
use mc_servant.Workers.BotWorker.Reports.{status_of, process_task-Calm}
use mc_servant.Workers.BotWorker.Ends.{is_end, process_task-one_end}
use mc_servant.Workers.BotWorker.Sink.{process_task-reported_twice}

abbrev task : BotWorkerTask
task = record {
  bot_id = "bot";
  exec_job = record { message_id = "m1"; intent_epoch = 4; code = "mine()" };
  owner_text = "mine some stone";
}

abbrev idle_worker : Worker
idle_worker = record { sent = []; events = []; executed = 0 }

abbrev calm : Surroundings
calm = record { sink = λ n. none; refusal = λ r. none }

abbrev mined : Answer
mined = returned completed 3 "" none

process_task-Calm_example :
    let p = process_task calm 4 task mined idle_worker in
    ((steps : ℕ) × (text : String) × (source : Option InterruptSource) × (p.0.sent
        ≡ []
          ++ emit_task_lifecycle task started
            ∷ emit_task_lifecycle task (terminal (status_of mined) steps text source)
            ∷ enqueue_brain task (status_of mined)
            ∷ persist_sandbox_experience task (status_of mined)
            ∷ []))
    × (p.0.events ≡ [] ++ task_started "m1" ∷ task_ended (status_of mined) "m1" ∷ [])
    × (p.0.executed ≡ suc 0)
    × ((p.1 ≢ none) ↔ (status_of mined ≡ failed))
process_task-Calm_example =
    process_task-Calm calm 4 task mined idle_worker (λ n. refl, λ r. refl) (omega arith)

process_task-one_end_example :
    weight is_end (process_task calm 4 task mined idle_worker).0.events ≤ suc (weight is_end [])
process_task-one_end_example = process_task-one_end calm 4 task mined idle_worker

abbrev queue_down : WorkerError
queue_down = record { message = "queue down"; interrupt_source = none; reason = none }

-- The sink throws at its third action.
abbrev broken : Surroundings
broken = record { sink = λ n. if n == 2 then some queue_down else none; refusal = λ r. none }

broken_else : (n : ℕ) → n ≢ 0 + 2 → broken.sink n ≡ none
broken_else n h = ground (arith, h, ==_iff n 2)

process_task-reported_twice_example :
    let p = process_task broken 4 task (returned completed 3 "" none) idle_worker in
    (p.0.sent
      ≡ []
        ++ (emit_task_lifecycle task started
            ∷ emit_task_lifecycle task (terminal completed 3 "" none)
            ∷ enqueue_brain task completed
            ∷ create_bot_worker_actions task (terminal failed 0 "queue down" none)))
    × (p.1 ≡ some queue_down)
process_task-reported_twice_example =
    process_task-reported_twice broken 4 task 3 "" idle_worker queue_down (omega arith) (λ r. refl)
      refl broken_else refl
