-- ===== src/Tests/RuntimeRuns.antt =====
-- ts-core/src/runtime/actor.ts on concrete histories.
use mc_servant.Base.{
  ◌+◌, ◌≤◌, ◌≡◌, refl, ◌≢◌, true, false, none, some, List, [], ◌∷◌, arith, if◌then◌else◌, is_none,
  length,
}
use mc_servant.Runtime.Contracts.{
  initializing, idle, executing, shutdown, InterruptSignal, ControlCommand, control,
  ExternalAuthState, ExternalAuthPlan,
}
use mc_servant.Runtime.Actor.State.{Actor, RecentEvent, SandboxStatus}
use mc_servant.Runtime.Actor.Calls.{interrupt_actor, execute_code, shut_down, broadcast, start}
use mc_servant.Runtime.Actor.Resume.{returned, after_sandbox, after_ready, after_connect}
use mc_servant.Base.Text.{is_blank}
use mc_servant.Runtime.Actor.{
  Event, starts, broadcasts, executes, resumes, done, step, run, create_bot_actor_runtime, resume,
  continue,
}
use mc_servant.Runtime.Actor.Owners.{owners, code_owner, chat_owner}
use mc_servant.Runtime.Actor.Invariant.{live, total, is_end, is_start, is_reply}
use mc_servant.Runtime.Actor.Histories.{run-single_writer, run-executing, run-events}
use mc_servant.Runtime.Actor.Interrupts.{
  interrupt_actor-dropped, after_sandbox-interrupted, shut_down-keeps_execution,
}
use mc_servant.Runtime.Actor.Aborts.{interrupt_actor-executing}
use mc_servant.Runtime.Actor.Shutdown.{run-shutdown}

abbrev no_auth : ExternalAuthState
no_auth = ExternalAuthState.not_required

abbrev no_plan : ExternalAuthPlan
no_plan = ExternalAuthPlan.not_required

abbrev event : RecentEvent
event = record { message_id = "m1"; line = "done"; timestamp = 7 }

-- Start, be ready, take a job, and reply while it runs.
abbrev booted : List Event
booted = starts ∷ resumes 0 (done true) ∷ resumes 0 (done true) ∷ []

abbrev working : List Event
working =
    starts
    ∷ resumes 0 (done true)
    ∷ resumes 0 (done true)
    ∷ executes "m1" true none event
    ∷ broadcasts "m2" "busy"
    ∷ []

abbrev at_work : Actor
at_work = run (create_bot_actor_runtime no_auth no_plan) working

at_work_executing : (at_work.status ≡ executing) × (at_work.current_execution ≡ some 0)
unfolding run step create_bot_actor_runtime broadcast is_blank execute_code resume start continue
    after_connect after_ready
at_work_executing = (refl, refl)

-- A cancelled execution, as the sandbox's answer finds it.
abbrev cancel_signal : InterruptSignal
cancel_signal = record { source = control ControlCommand.cancel none; reason = "player" }

abbrev cancelled : Actor
cancelled = (interrupt_actor cancel_signal at_work).0

cancelled_interrupted : (cancelled.executions 0).interrupted ≡ true
cancelled_interrupted = ground (
  arith,
  (interrupt_actor-executing cancel_signal at_work at_work_executing.0 at_work_executing.1).0,
)

run-single_writer_example :
    let a = run (create_bot_actor_runtime no_auth no_plan) working in
    (owners code_owner a.threads ≡ (if is_none a.current_execution then 0 else 1))
    × (owners chat_owner a.threads ≡ (if is_none a.chat_write_in_flight then 0 else 1))
run-single_writer_example = run-single_writer no_auth no_plan working

run-executing_example :
    let a = run (create_bot_actor_runtime no_auth no_plan) working in
    (a.status ≡ executing → live a ≡ 1) × (is_none a.current_task ≡ false → live a ≡ 1)
run-executing_example = run-executing no_auth no_plan working

run-events_example :
    let a = run (create_bot_actor_runtime no_auth no_plan) working in
    (total is_end a.emitted_events + live a ≤ total is_start a.emitted_events)
    × (total is_reply a.emitted_events ≡ length a.chat_writes)
    × (length a.recent_events ≤ 50)
run-events_example = run-events no_auth no_plan working

abbrev closed : Actor
closed = (shut_down at_work).0

run-shutdown_example :
    ((run closed working).status ≡ shutdown)
    × ((run closed working).next_execution ≡ closed.next_execution)
run-shutdown_example = run-shutdown closed working (shut_down-keeps_execution at_work).0

after_sandbox-interrupted_example :
    let p = after_sandbox 0 "m1" (returned SandboxStatus.completed 3) event cancelled in
    (p.1 ≢ none)
    × (p.0.code_executions ≡ cancelled.code_executions)
    × (p.0.emitted_events ≡ cancelled.emitted_events)
    × (p.0.status ≡ cancelled.status)
after_sandbox-interrupted_example =
    after_sandbox-interrupted 0 "m1" (returned SandboxStatus.completed 3) event cancelled
      cancelled_interrupted

abbrev rested : Actor
rested = run (create_bot_actor_runtime no_auth no_plan) booted

abbrev new_bot : Actor
new_bot = create_bot_actor_runtime no_auth no_plan

new_bot_status : new_bot.status ≡ initializing
unfolding create_bot_actor_runtime
new_bot_status = refl

not_idle : new_bot.status ≢ idle
not_idle e = ground (arith, new_bot_status)

not_executing : new_bot.status ≢ executing
not_executing e = ground (arith, new_bot_status)

interrupt_actor-dropped_example : interrupt_actor cancel_signal new_bot ≡ (new_bot, none)
interrupt_actor-dropped_example =
    interrupt_actor-dropped cancel_signal new_bot not_idle not_executing

shut_down-keeps_execution_example :
    (closed.status ≡ shutdown)
    × (closed.current_execution ≡ at_work.current_execution)
    × (closed.executions ≡ at_work.executions)
    × (closed.threads ≡ at_work.threads)
shut_down-keeps_execution_example = shut_down-keeps_execution at_work
