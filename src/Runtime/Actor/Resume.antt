-- ===== src/Runtime/Actor/Resume.antt =====
-- ts-core/src/runtime/actor.ts: what a waiting call does when its `await` is answered.
use Prim.Native.String.{String}
use text.Mathlib.Text.{◌==◌ as str_eq}
use mc_servant.Base.{
  ℕ, Bool, true, false, ◌&&◌, Option, none, some, [], ◌∷◌, ◌++◌, if◌then◌else◌, ◌==◌,
}
use mc_servant.Runtime.Contracts.{
  ExternalAuthState, ExternalAuthPlan, ThreatAssessment, CommandAction, auth_status, plan_status,
  next_action, ExternalAuthStatus,
}
use mc_servant.Runtime.StateMachine.{
  ready, task_completed, task_failed, reflex_done, resolve_transition, chat_reply,
}
use mc_servant.Runtime.Actor.State.{
  Actor, Outcome, ChatWrite, SandboxStatus, RecentEvent, ReflexAction, ReflexStatus, ReflexSummary,
  logged_in, readying, settled, no_op, completed, failed, timed_out, external_auth_login,
  connect_failed, chat_failed, code_failed, interrupted_error, take_decision, append_recent_event,
  select_reflex_action,
}
use mc_servant.Runtime.Actor.Calls.{
  spawn, run_serialized_chat_write, close_execution, fail_execution,
}

is_pending : ExternalAuthStatus → Bool
is_pending ExternalAuthStatus.pending = true
is_pending _ = false

-- `sendExternalAuthLoginIfNeeded`: the early return, or the login up to the chat's answer.
send_login : Option CommandAction → Actor → Outcome
unfolding run_serialized_chat_write is_pending
send_login none a = (spawn readying a, none)
send_login (some action) a =
    if is_pending (auth_status a.external_auth) && is_pending (plan_status a.external_auth_plan)
    then run_serialized_chat_write external_auth_login a
    else (spawn readying a, none)

-- The state written after a login; only a pending one is reached here, or what another `start`
-- made of it.
authenticate : ExternalAuthState → ExternalAuthState
authenticate (ExternalAuthState.pending source reference) =
    ExternalAuthState.authenticated source reference
authenticate state = state

unfoldable pub after_connect : Bool → Actor → Outcome
unfolding send_login
after_connect true a = send_login (next_action a.external_auth_plan) a
after_connect false a = (a, some connect_failed)

-- The rest of the write: its records, or its failure.
unfoldable pub after_chat : ℕ → ChatWrite → Bool → Actor → Outcome
after_chat promise w true a = (
  spawn (settled promise w true) (record a {
    emitted_events = a.emitted_events ++ chat_reply ∷ [];
    chat_writes = a.chat_writes ++ w ∷ [];
  }),
  none,
)
after_chat promise w false a = (spawn (settled promise w false) a, none)

holds : Option ℕ → ℕ → Bool
holds none p = false
holds (some q) p = q == p

release_write : ℕ → Actor → Actor
unfolding holds
release_write promise a = record a {
  chat_write_in_flight =
      if holds a.chat_write_in_flight promise then none else a.chat_write_in_flight;
}

-- The `finally` of `runSerializedChatWrite`; a login goes on in `start`.
unfoldable pub after_write : ℕ → ChatWrite → Bool → Actor → Outcome
unfolding release_write
after_write promise external_auth_login true a = (spawn logged_in (release_write promise a), none)
after_write promise w true a = (release_write promise a, none)
after_write promise w false a = (release_write promise a, some chat_failed)

unfoldable pub after_login : Actor → Outcome
unfolding authenticate
after_login a = (
  spawn readying (record a {
    external_auth = authenticate a.external_auth;
    external_auth_plan = ExternalAuthPlan.authenticated;
  }),
  none,
)

unfoldable pub after_ready : Actor → Outcome
unfolding resolve_transition
after_ready a = (take_decision (resolve_transition a.status (ready a.external_auth)) a, none)

-- The sandbox's answer: a result, or a thrown message.
pub data SandboxAnswer : Type 0 where
  returned : SandboxStatus → ℕ → SandboxAnswer
  threw : String → SandboxAnswer

abbrev pub is_completed : SandboxStatus → Bool
is_completed completed = true
is_completed _ = false

-- The rest of `executeCode` for the execution `x`. Its line of `recent_events` is an input, so the
-- formatter of lines and the transport's `getSnapshot` are taken not to throw.
unfoldable pub after_sandbox : ℕ → String → SandboxAnswer → RecentEvent → Actor → Outcome
unfolding fail_execution close_execution resolve_transition
after_sandbox x message_id (threw message) event a = fail_execution x event (code_failed message) a
after_sandbox x message_id (returned status total_steps) event a =
    if (a.executions x).interrupted
    then fail_execution x event (interrupted_error (a.executions x).interrupt_signal) a
    else let reason = if is_completed status then task_completed else task_failed in
      let b = take_decision (resolve_transition a.status reason) a in
      (
        close_execution x (record b {
          code_executions =
              b.code_executions
              ++ record { message_id = message_id; status = status; total_steps = total_steps }
                ∷ [];
          recent_events = append_recent_event event b.recent_events;
          current_task = none;
        }),
        none,
      )

-- The answer of `runReflexActionWithTimeout`; `unconfigured` is the missing executor.
pub data ReflexAnswer : Type 0 where
  unconfigured : ReflexAnswer
  performed : ReflexAnswer
  broke : String → ReflexAnswer

abbrev pub reflex_timeout_message : String
reflex_timeout_message = "BotActor reflex action timed out"

-- `executeReflexAction`.
unfoldable pub execute_reflex_action : ThreatAssessment → ReflexAnswer → ReflexSummary
unfolding select_reflex_action
execute_reflex_action threat answer = summary answer
  where
    selected : ReflexAction
    selected = select_reflex_action threat.level threat.rule_id

    summarize : ReflexAction → ReflexStatus → Option String → ReflexSummary
    summarize action status error = record {
      action = action;
      selected_action = selected;
      rule_id = threat.rule_id;
      threat_level = threat.level;
      status = status;
      error = error;
    }

    -- Without an executor the action is `no_op`, whatever was selected, and counts as completed.
    summary : ReflexAnswer → ReflexSummary
    summary unconfigured = summarize no_op completed none
    summary performed = summarize selected completed none
    summary (broke message) =
        summarize selected (if str_eq message reflex_timeout_message then timed_out else failed)
          (some message)

unfoldable pub after_reflex : ThreatAssessment → ReflexAnswer → Actor → Outcome
unfolding execute_reflex_action resolve_transition
after_reflex threat answer a = (
  take_decision (resolve_transition a.status reflex_done)
      (record a { recent_reflex = some (execute_reflex_action threat answer) }),
  none,
)
