-- ===== src/Runtime/StateMachine.antt =====
-- ts-core/src/runtime/state-machine.ts: which changes of status are allowed, and what a cause does.
pub mod Graph
pub mod Documented
use mc_servant.Base.{
  Bool, true, false, ◌&&◌, ◌||◌, not, Option, none, some, List, [], ◌∷◌, if◌then◌else◌,
}
use mc_servant.Runtime.Contracts.{
  BotStatus, initializing, idle, executing, reflexing, dead, shutdown, same_status,
  ExternalAuthState, InterruptSignal, InterruptSource, reflex, create_runtime_ready_gate,
}

-- RUNTIME_EVENT_TYPES of ts-core/src/core-ports/events.ts.
pub data RuntimeEventType : Type 0 where
  bot_ready bot_died bot_respawned bot_offline state_transition : RuntimeEventType
  task_accepted task_started task_discarded step_progress : RuntimeEventType
  task_completed task_failed task_interrupted : RuntimeEventType
  reflex_triggered reflex_done intent_epoch_changed chat_reply : RuntimeEventType

pub data InterruptAction : Type 0 where
  transition queue ignore : InterruptAction

pub record InterruptDecision : Type 0 where
  pub from : BotStatus
  pub accepted : Bool
  pub to : BotStatus
  pub action : InterruptAction
  pub emitted_events : List RuntimeEventType

pub data TransitionReason : Type 0 where
  ready : ExternalAuthState → TransitionReason
  initializing_retry initializing_retry_exhausted : TransitionReason
  exec_job_pulled : Bool → Bool → TransitionReason
  task_completed task_failed : TransitionReason
  interrupt : InterruptSignal → TransitionReason
  reflex_done bot_died bot_respawned shutdown_requested : TransitionReason

pub data ReasonType : Type 0 where
  ready initializing_retry initializing_retry_exhausted exec_job_pulled : ReasonType
  task_completed task_failed interrupt reflex_done : ReasonType
  bot_died bot_respawned shutdown_requested : ReasonType

pub record TransitionDecision : Type 0 where
  pub from : BotStatus
  pub accepted : Bool
  pub to : BotStatus
  pub reason : ReasonType
  pub interrupt_action : Option InterruptAction
  pub emitted_events : List RuntimeEventType

-- The `switch` of `canTransition`, for two different statuses.
allowed : BotStatus → BotStatus → Bool
unfolding same_status
allowed initializing to = same_status to idle || same_status to shutdown || same_status to dead
allowed idle to =
    same_status to executing
    || same_status to reflexing
    || same_status to dead
    || same_status to shutdown
allowed executing to =
    same_status to idle
    || same_status to reflexing
    || same_status to dead
    || same_status to shutdown
allowed reflexing to = same_status to idle || same_status to dead || same_status to shutdown
allowed dead to = same_status to idle || same_status to shutdown
allowed shutdown to = false

unfoldable pub can_transition : BotStatus → BotStatus → Bool
unfolding allowed
can_transition from to =
    if same_status from to
    then same_status from initializing || same_status from idle
    else allowed from to

is_reflex : InterruptSource → Bool
is_reflex (reflex threat) = true
is_reflex _ = false

unfoldable pub resolve_interrupt_decision : BotStatus → InterruptSignal → InterruptDecision
unfolding is_reflex same_status
resolve_interrupt_decision current signal =
    if same_status current shutdown || same_status current dead
    then refuse ignore
    else if same_status current initializing
    then refuse queue
    else if same_status current reflexing
    then refuse queue
    else if is_reflex signal.source
    then record {
      from = current;
      accepted = true;
      to = reflexing;
      action = transition;
      emitted_events =
          if same_status current executing
          then task_interrupted ∷ reflex_triggered ∷ []
          else reflex_triggered ∷ [];
    }
    else record {
      from = current;
      accepted = same_status current executing;
      to = if same_status current executing then idle else current;
      action = if same_status current executing then transition else ignore;
      emitted_events = if same_status current executing then task_interrupted ∷ [] else [];
    }
  where
    refuse : InterruptAction → InterruptDecision
    refuse action = record {
      from = current;
      accepted = false;
      to = current;
      action = action;
      emitted_events = [];
    }

is_state_transition : RuntimeEventType → Bool
is_state_transition state_transition = true
is_state_transition _ = false

-- `emittedEvents.includes("state.transition")`.
includes_state_transition : List RuntimeEventType → Bool
unfolding is_state_transition
includes_state_transition [] = false
includes_state_transition (e ∷ es) = is_state_transition e || includes_state_transition es

-- The default of `accepted` is `can_transition from to`: see `decide_default`.
unfoldable pub create_transition_decision :
    BotStatus
    → BotStatus
    → ReasonType
    → List RuntimeEventType
    → Bool
    → Option InterruptAction
    → TransitionDecision
unfolding includes_state_transition same_status
create_transition_decision from to reason events accepted action = record {
  from = from;
  accepted = accepted;
  to = to;
  reason = reason;
  interrupt_action = action;
  emitted_events =
      if accepted
      then if same_status from to
        then events
        else if includes_state_transition events
        then events
        else state_transition ∷ events
      else [];
}

decide_default : BotStatus → BotStatus → ReasonType → List RuntimeEventType → TransitionDecision
unfolding create_transition_decision can_transition
decide_default from to reason events =
    create_transition_decision from to reason events (can_transition from to) none

unfoldable pub resolve_transition : BotStatus → TransitionReason → TransitionDecision
unfolding decide_default resolve_interrupt_decision create_runtime_ready_gate
resolve_transition current (ready auth) =
    create_transition_decision current idle ready (bot_ready ∷ [])
      (can_transition current idle && (create_runtime_ready_gate idle auth).ready) none
resolve_transition current initializing_retry =
    decide_default current initializing initializing_retry []
resolve_transition current initializing_retry_exhausted =
    decide_default current shutdown initializing_retry_exhausted (bot_offline ∷ [])
resolve_transition current (exec_job_pulled epoch_fresh snapshot_fresh) =
    if not epoch_fresh || not snapshot_fresh
    then decide_default current idle exec_job_pulled (task_discarded ∷ [])
    else decide_default current executing exec_job_pulled (task_started ∷ [])
resolve_transition current task_completed =
    decide_default current idle task_completed (task_completed ∷ [])
resolve_transition current task_failed = decide_default current idle task_failed (task_failed ∷ [])
resolve_transition current (interrupt signal) =
    let d = resolve_interrupt_decision current signal in
    create_transition_decision current d.to interrupt d.emitted_events
      (d.accepted && can_transition current d.to) (some d.action)
resolve_transition current reflex_done = decide_default current idle reflex_done (reflex_done ∷ [])
resolve_transition current bot_died = decide_default current dead bot_died (bot_died ∷ [])
resolve_transition current bot_respawned =
    decide_default current idle bot_respawned (bot_respawned ∷ [])
resolve_transition current shutdown_requested =
    decide_default current shutdown shutdown_requested (bot_offline ∷ [])

-- The idiom of the callers: a decision that is not accepted changes nothing.
unfoldable pub follow : BotStatus → TransitionReason → BotStatus
follow current reason =
    let d = resolve_transition current reason in if d.accepted then d.to else current

unfoldable pub follow_all : BotStatus → List TransitionReason → BotStatus
follow_all current [] = current
follow_all current (r ∷ rs) = follow_all (follow current r) rs
