-- ===== src/Runtime/Actor/Calls.antt =====
-- ts-core/src/runtime/actor.ts: what each call does up to its first `await`.
use Prim.Native.String.{String}
use mc_servant.Base.{
  ℕ, suc, Bool, true, false, not, ◌&&◌, ◌||◌, Option, none, some, [], ◌∷◌, ◌++◌, if◌then◌else◌,
  is_none, ◌==◌,
}
use mc_servant.Base.Text.{is_blank}
use mc_servant.Runtime.Contracts.{
  BotStatus, initializing, idle, executing, same_status, ExternalAuthState, InterruptSignal,
  InterruptSource, reflex, auth_status, ExternalAuthStatus, create_runtime_ready_gate,
}
use mc_servant.Runtime.StateMachine.{
  exec_job_pulled, interrupt, shutdown_requested, task_failed, resolve_transition,
}
use mc_servant.Runtime.Actor.State.{
  Actor, ActorError, Outcome, Thread, ChatWrite, Execution, ChatMethod, RecentEvent, connecting,
  writing, running, reflexes, broadcast_reply, sandbox_chat, message_id_empty, content_empty,
  chat_message_empty, not_ready_for_reply, not_ready_for_code, world_not_ready, cannot_execute,
  chat_in_flight, host_call_inactive, code_failed, update, take_decision, append_recent_event,
}

-- A call that starts no other waits behind the rest.
abbrev pub spawn : Thread → Actor → Actor
spawn t a = record a { threads = a.threads ++ t ∷ [] }

abbrev pub fresh_execution : String → Execution
fresh_execution message_id = record {
  message_id = message_id;
  aborted = false;
  interrupted = false;
  interrupt_signal = none;
}

-- `start`: nothing but the first time.
unfoldable pub start : Actor → Outcome
unfolding same_status
start a = if same_status a.status initializing then (spawn connecting a, none) else (a, none)

-- `runSerializedChatWrite` up to the write's own `await`.
unfoldable pub run_serialized_chat_write : ChatWrite → Actor → Outcome
run_serialized_chat_write w a = elim a.chat_write_in_flight [
  | some p ↦ (a, some chat_in_flight)
  | none ↦ (
    record a {
      chat_write_in_flight = some a.next_promise;
      next_promise = suc a.next_promise;
      threads = a.threads ++ writing a.next_promise w ∷ [];
    },
    none,
  )
]

auth_allows_reply : ExternalAuthStatus → Bool
auth_allows_reply ExternalAuthStatus.pending = false
auth_allows_reply ExternalAuthStatus.failed = false
auth_allows_reply _ = true

unfoldable pub create_broadcast_reply_gate : BotStatus → ExternalAuthState → Bool
unfolding same_status auth_allows_reply
create_broadcast_reply_gate status auth =
    (same_status status idle || same_status status executing)
    && auth_allows_reply (auth_status auth)

unfoldable pub broadcast : String → String → Actor → Outcome
unfolding create_broadcast_reply_gate run_serialized_chat_write
broadcast message_id content a =
    if is_blank message_id
    then (a, some message_id_empty)
    else if is_blank content
    then (a, some content_empty)
    else if create_broadcast_reply_gate a.status a.external_auth
    then run_serialized_chat_write (broadcast_reply message_id) a
    else (a, some not_ready_for_reply)

-- The sandbox's `say` and `report`; `active` is `assertSandboxHostCallActive`.
unfoldable pub write_chat : String → ChatMethod → String → Bool → Actor → Outcome
unfolding run_serialized_chat_write
write_chat job method message active a =
    if is_blank message
    then (a, some chat_message_empty)
    else if active
    then run_serialized_chat_write (sandbox_chat job method) a
    else (a, some host_call_inactive)

is_current : Option ℕ → ℕ → Bool
is_current none x = false
is_current (some y) x = y == x

-- The `finally` of `executeCode`, for the execution `x`.
unfoldable pub close_execution : ℕ → Actor → Actor
unfolding is_current
close_execution x a = record a {
  current_execution = if is_current a.current_execution x then none else a.current_execution;
  current_task = if (a.executions x).interrupted then a.current_task else none;
}

-- The `catch` of `executeCode`, then its `finally`.
unfoldable pub fail_execution : ℕ → RecentEvent → ActorError → Actor → Outcome
unfolding close_execution resolve_transition
fail_execution x event error a =
    let b =
      if (a.executions x).interrupted
      then a
      else take_decision (resolve_transition a.status task_failed) a in
    (
      close_execution x (record b { recent_events = append_recent_event event b.recent_events }),
      some error,
    )

-- `executeCode` up to the sandbox's answer. `refusal` is the message of an error thrown before the
-- sandbox runs (no sandbox configured, or a request that `createRequest` refuses).
unfoldable pub execute_code : String → Bool → Option String → RecentEvent → Actor → Outcome
unfolding fail_execution create_runtime_ready_gate
execute_code message_id world_ready refusal event a =
    if not (create_runtime_ready_gate a.status a.external_auth).ready
    then (a, some not_ready_for_code)
    else if not (is_none a.current_execution)
    then (a, some not_ready_for_code)
    else if not world_ready
    then (a, some world_not_ready)
    else let d = resolve_transition a.status (exec_job_pulled true true) in
      if not d.accepted
      then (a, some cannot_execute)
      else let x = a.next_execution in
        let b = record (take_decision d a) {
          current_task = some message_id;
          current_execution = some x;
          executions = update a.executions x (fresh_execution message_id);
          next_execution = suc x;
        } in
        elim refusal [
          | some message ↦ fail_execution x event (code_failed message) b
          | none ↦ (spawn (running x message_id) b, none)
        ]

unfoldable pub mark_interrupted : InterruptSignal → Actor → Actor
mark_interrupted signal a = elim a.current_execution [
  | none ↦ a
  | some x ↦ record a {
    executions = update a.executions x (record (a.executions x) {
      interrupted = true;
      interrupt_signal = some signal;
      aborted = true;
    });
  }
]

unfoldable pub react : InterruptSignal → InterruptSource → Actor → Actor
react signal (reflex threat) a = spawn (reflexes signal threat) (record a { current_task = none })
react signal _ a = record a { current_task = none }

-- `interrupt` up to the answer of a reflex action.
unfoldable pub interrupt_actor : InterruptSignal → Actor → Outcome
unfolding mark_interrupted react resolve_transition
interrupt_actor signal a =
    let d = resolve_transition a.status (interrupt signal) in
    if d.accepted
    then (react signal signal.source (mark_interrupted signal (take_decision d a)), none)
    else (a, none)

unfoldable pub shut_down : Actor → Outcome
unfolding resolve_transition
shut_down a = (take_decision (resolve_transition a.status shutdown_requested) a, none)
