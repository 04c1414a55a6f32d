-- ===== src/Runtime/StateMachine/Documented.antt =====
-- The transition table of ts-core/Docs/02_RUNTIME_SPEC.md (2.3 and 3.2), against
-- ts-core/src/runtime/state-machine.ts.
use mc_servant.Base.{
  ◌≡◌, refl, ◌≢◌, ◌↔◌, ◌⊎◌, Bool, true, false, List, [], ◌∷◌, ◌++◌, arith, if◌then◌else◌,
}
use mc_servant.Runtime.Contracts.{
  BotStatus, initializing, idle, executing, reflexing, dead, shutdown, same_status, InterruptSignal,
  InterruptSource, reflex, ThreatAssessment, ExternalAuthStatus, auth_status, ExternalAuthState,
}
use mc_servant.Runtime.StateMachine.{
  TransitionReason, RuntimeEventType, state_transition, bot_ready, bot_offline, task_started,
  task_discarded, task_interrupted, reflex_triggered, ready, initializing_retry,
  initializing_retry_exhausted, exec_job_pulled, task_completed, task_failed, interrupt,
  reflex_done, bot_died, bot_respawned, shutdown_requested, is_reflex, resolve_transition,
  can_transition, follow,
}

-- Authentication that no longer holds the bot back.
abbrev pub IsSettled : ExternalAuthState → Type 0
IsSettled a =
    (auth_status a ≡ ExternalAuthStatus.not_required)
    ⊎ (auth_status a ≡ ExternalAuthStatus.authenticated)

-- One constructor for each row of 2.3: status, cause, next status, and the events that the row says
-- are emitted. What the actor and its callers do for a row (waiting for a retry and counting it,
-- `abort()`, the brain queue, disconnecting, refreshing a snapshot) is no part of a decision.
pub data Row : BotStatus → TransitionReason → BotStatus → List RuntimeEventType → Type 0 where
  boot : {a : ExternalAuthState} → IsSettled a → Row initializing (ready a) idle (bot_ready ∷ [])
  retry : Row initializing initializing_retry initializing []
  exhausted : Row initializing initializing_retry_exhausted shutdown []
  pull : Row idle (exec_job_pulled true true) executing (task_started ∷ [])
  old_epoch : {fresh : Bool} → Row idle (exec_job_pulled false fresh) idle (task_discarded ∷ [])
  old_snapshot : Row idle (exec_job_pulled true false) idle []
  complete : Row executing task_completed idle (RuntimeEventType.task_completed ∷ [])
  fail : Row executing task_failed idle (RuntimeEventType.task_failed ∷ [])
  cancel :
      {s : InterruptSignal}
      → ((t : ThreatAssessment) → s.source ≢ reflex t)
      → Row executing (interrupt s) idle (task_interrupted ∷ [])
  preempt :
      {s : InterruptSignal} {t : ThreatAssessment}
      → s.source ≡ reflex t
      → Row executing (interrupt s) reflexing (task_interrupted ∷ reflex_triggered ∷ [])
  calm : Row reflexing reflex_done idle (RuntimeEventType.reflex_done ∷ [])
  die : {s : BotStatus} → Row s bot_died dead (RuntimeEventType.bot_died ∷ [])
  respawn : Row dead bot_respawned idle (RuntimeEventType.bot_respawned ∷ [])
  stop : {s : BotStatus} → Row s shutdown_requested shutdown []
  -- Of 3.2: a reflex while the bot is idle.
  react :
      {s : InterruptSignal} {t : ThreatAssessment}
      → s.source ≡ reflex t
      → Row idle (interrupt s) reflexing (reflex_triggered ∷ [])

-- Where the code leaves the rows for any status: it does not leave `shutdown`, and is not told of a
-- second death.
abbrev pub IsRefused : BotStatus → BotStatus → Type 0
IsRefused s t = (s ≡ shutdown) ⊎ ((s ≡ dead) × (t ≡ dead))

-- What the code emits beside the events of the row: `bot.offline` at a shutdown, as the list of events
-- in 9 has it, and `task.discarded` for an old snapshot, where neither has it.
abbrev pub unlisted : TransitionReason → List RuntimeEventType
unlisted initializing_retry_exhausted = bot_offline ∷ []
unlisted shutdown_requested = bot_offline ∷ []
unlisted (exec_job_pulled true false) = task_discarded ∷ []
unlisted _ = []

not_reflex :
    (source : InterruptSource)
    → ((t : ThreatAssessment) → source ≢ reflex t)
    → is_reflex source ≡ false
unfolding is_reflex
not_reflex (reflex t) h = absurd (h t refl)
not_reflex _ h = refl

-- The decision of each row of the table leads to the row's status. It is accepted but in two places:
-- the rows for any status (death and shutdown) are refused in `shutdown`, and that of death in `dead`.
-- Accepted, it emits a `state.transition` if the status changes, the events of the row, and a
-- `bot.offline` at a shutdown or a `task.discarded` for an old snapshot; refused, it emits nothing.
pub resolve_transition-Row :
    {s t : BotStatus} {r : TransitionReason} {es : List RuntimeEventType}
    → Row s r t es
    → let d = resolve_transition s r in
      let changed = if same_status s t then [] else state_transition ∷ [] in
      (d.to ≡ t)
      × ((d.accepted ≡ true) ↔ (¬ IsRefused s t))
      × (d.emitted_events ≡ (if d.accepted then changed ++ (es ++ unlisted r) else []))
unfolding resolve_transition
resolve_transition-Row (boot h) = ground arith
resolve_transition-Row retry = ground arith
resolve_transition-Row exhausted = ground arith
resolve_transition-Row pull = ground arith
resolve_transition-Row old_epoch = ground arith
resolve_transition-Row old_snapshot = ground arith
resolve_transition-Row complete = ground arith
resolve_transition-Row fail = ground arith
resolve_transition-Row (cancel {s} h) = ground (arith, not_reflex s.source h)
resolve_transition-Row (preempt h) = ground arith
resolve_transition-Row calm = ground arith
resolve_transition-Row (die {s}) = ground arith
resolve_transition-Row respawn = ground arith
resolve_transition-Row (stop {s}) = ground arith
resolve_transition-Row (react h) = ground arith

-- The causes that the table allows in one status only, and that lead to `idle`.
pub data Returns : TransitionReason → Type 0 where
  completes : Returns task_completed
  fails : Returns task_failed
  calms : Returns reflex_done
  respawns : Returns bot_respawned

-- `task_completed`, `task_failed`, `reflex_done` and `bot_respawned`, each of which the table allows
-- in one status only, are accepted and lead to `idle` in every status but `shutdown`, `initializing`,
-- `idle` and `dead` included. In `shutdown` they are refused and change nothing.
pub follow-Returns :
    (s : BotStatus) {r : TransitionReason}
    → Returns r
    → let d = resolve_transition s r in
      ((d.accepted ≡ true) ↔ (s ≢ shutdown))
      × (d.to ≡ idle)
      × (follow s r ≡ (if same_status s shutdown then shutdown else idle))
unfolding follow resolve_transition
follow-Returns s completes = ground arith
follow-Returns s fails = ground arith
follow-Returns s calms = ground arith
follow-Returns s respawns = ground arith

-- `ready` is accepted exactly when the graph leads to `idle` and authentication is settled.
pub ready-accepted :
    (s : BotStatus) (a : ExternalAuthState)
    → ((resolve_transition s (ready a)).accepted ≡ true)
      ↔ ((can_transition s idle ≡ true) × IsSettled a)
unfolding resolve_transition
ready-accepted s a = ground arith
