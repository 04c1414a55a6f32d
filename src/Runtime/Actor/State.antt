-- ===== src/Runtime/Actor/State.antt =====
-- ts-core/src/runtime/actor.ts: the variables of `createBotActorRuntime`, and its calls in flight.
use Prim.Native.String.{String}
use mc_servant.Base.{
  ℕ, zero, suc, ◌-◌, Bool, Option, List, [], ◌∷◌, ◌++◌, if◌then◌else◌, ◌==◌, length, drop,
}
use mc_servant.Runtime.Contracts.{
  BotStatus, ExternalAuthState, ExternalAuthPlan, InterruptSignal, ThreatAssessment, ThreatLevel,
  ThreatRuleId, falling,
}
use mc_servant.Runtime.StateMachine.{RuntimeEventType, TransitionDecision}

pub data ReflexAction : Type 0 where
  flee fight emergency no_op : ReflexAction

pub data ReflexStatus : Type 0 where
  completed skipped failed timed_out : ReflexStatus

pub record ReflexSummary : Type 0 where
  pub action : ReflexAction
  pub selected_action : ReflexAction
  pub rule_id : ThreatRuleId
  pub threat_level : ThreatLevel
  pub status : ReflexStatus
  pub error : Option String

pub data ChatMethod : Type 0 where
  say report : ChatMethod

pub data ChatWrite : Type 0 where
  broadcast_reply : String → ChatWrite
  external_auth_login : ChatWrite
  sandbox_chat : String → ChatMethod → ChatWrite

pub data SandboxStatus : Type 0 where
  completed failed interrupted : SandboxStatus

pub record CodeExecution : Type 0 where
  pub message_id : String
  pub status : SandboxStatus
  pub total_steps : ℕ

pub record RecentEvent : Type 0 where
  pub message_id : String
  pub line : String
  pub timestamp : ℕ

-- The object that `executeCode` and `interrupt` share; `aborted` is its abort signal.
pub record Execution : Type 0 where
  pub message_id : String
  pub aborted : Bool
  pub interrupted : Bool
  pub interrupt_signal : Option InterruptSignal

-- A call that waits at an `await`. A chat write carries the identity of its promise, an execution
-- the identity of its object.
pub data Thread : Type 0 where
  connecting logged_in readying : Thread
  writing : ℕ → ChatWrite → Thread
  settled : ℕ → ChatWrite → Bool → Thread
  running : ℕ → String → Thread
  reflexes : InterruptSignal → ThreatAssessment → Thread

pub record Actor : Type 0 where
  pub status : BotStatus
  pub external_auth : ExternalAuthState
  pub external_auth_plan : ExternalAuthPlan
  pub current_task : Option String
  pub current_execution : Option ℕ
  pub chat_write_in_flight : Option ℕ
  pub recent_reflex : Option ReflexSummary
  pub emitted_events : List RuntimeEventType
  pub chat_writes : List ChatWrite
  pub code_executions : List CodeExecution
  pub recent_events : List RecentEvent
  -- The store of execution objects, the next identities, and the calls in flight.
  pub executions : ℕ → Execution
  pub next_execution : ℕ
  pub next_promise : ℕ
  pub threads : List Thread

-- Why a call's promise is rejected.
pub data ActorError : Type 0 where
  message_id_empty content_empty chat_message_empty : ActorError
  not_ready_for_reply not_ready_for_code world_not_ready cannot_execute : ActorError
  chat_in_flight host_call_inactive connect_failed chat_failed : ActorError
  interrupted_error : Option InterruptSignal → ActorError
  code_failed : String → ActorError

-- The state after a segment, and the rejection of the call that ran it.
abbrev pub Outcome : Type 0
Outcome = Actor × Option ActorError

abbrev pub update : (ℕ → Execution) → ℕ → Execution → ℕ → Execution
update store i e j = if i == j then e else store j

-- The calls before and after the one at `i`.
abbrev pub remove_at : List Thread → ℕ → List Thread
remove_at [] i = []
remove_at (t ∷ ts) zero = ts
remove_at (t ∷ ts) (suc i) = t ∷ remove_at ts i

-- `status = decision.to; emittedEvents.push(...)`, where the decision is accepted.
abbrev pub take_decision : TransitionDecision → Actor → Actor
take_decision d a = record a {
  status = if d.accepted then d.to else a.status;
  emitted_events = if d.accepted then a.emitted_events ++ d.emitted_events else a.emitted_events;
}

abbrev pub max_recent_events : ℕ
max_recent_events = 50

-- `push`, then `splice(0, length - 50)`.
abbrev pub append_recent_event : RecentEvent → List RecentEvent → List RecentEvent
append_recent_event e es = let all = es ++ e ∷ [] in drop (length all - max_recent_events) all

unfoldable pub select_reflex_action : ThreatLevel → ThreatRuleId → ReflexAction
select_reflex_action ThreatLevel.flee rule = ReflexAction.flee
select_reflex_action ThreatLevel.fight rule = ReflexAction.fight
select_reflex_action ThreatLevel.emergency falling = no_op
select_reflex_action ThreatLevel.emergency _ = ReflexAction.emergency
