-- ===== src/Runtime/StateMachine/Graph.antt =====
-- The graph of ts-core/src/runtime/state-machine.ts as a relation, and the decisions that follow it.
use mc_servant.Base.{
  ℕ, suc, ◌≡◌, refl, ◌↔◌, inl, inr, Bool, true, false, ◌&&◌, Option, none, some, List, [], ◌∷◌,
  arith, if◌then◌else◌, Bool-cases,
}
use mc_servant.Runtime.Contracts.{
  BotStatus, initializing, idle, executing, reflexing, dead, shutdown, same_status, InterruptSignal,
}
use mc_servant.Runtime.StateMachine.{
  TransitionReason, ReasonType, TransitionDecision, state_transition, RuntimeEventType,
  InterruptAction, ready, initializing_retry, initializing_retry_exhausted, exec_job_pulled,
  task_completed, task_failed, interrupt, reflex_done, bot_died, bot_respawned, shutdown_requested,
  can_transition, create_transition_decision, resolve_interrupt_decision, resolve_transition,
  follow, follow_all, includes_state_transition,
}

infix 40 ◌⟶◌
pub data ◌⟶◌ : BotStatus → BotStatus → Type 0 where
  retry : initializing ⟶ initializing
  boot : initializing ⟶ idle
  stay : idle ⟶ idle
  start : idle ⟶ executing
  finish : executing ⟶ idle
  react : idle ⟶ reflexing
  preempt : executing ⟶ reflexing
  calm : reflexing ⟶ idle
  respawn : dead ⟶ idle
  die_initializing : initializing ⟶ dead
  die_idle : idle ⟶ dead
  die_executing : executing ⟶ dead
  die_reflexing : reflexing ⟶ dead
  stop_initializing : initializing ⟶ shutdown
  stop_idle : idle ⟶ shutdown
  stop_executing : executing ⟶ shutdown
  stop_reflexing : reflexing ⟶ shutdown
  stop_dead : dead ⟶ shutdown

ruleset edges = (
  retry, boot, stay, start, finish, react, preempt, calm, respawn, die_initializing, die_idle,
  die_executing, die_reflexing, stop_initializing, stop_idle, stop_executing, stop_reflexing,
  stop_dead,
)

sound : (from to : BotStatus) → can_transition from to ≡ true → from ⟶ to
unfolding can_transition
sound initializing to h = grind (arith, edges)
sound idle to h = grind (arith, edges)
sound executing to h = grind (arith, edges)
sound reflexing to h = grind (arith, edges)
sound dead to h = grind (arith, edges)
sound shutdown to h = grind (arith, edges)

complete : {from to : BotStatus} → from ⟶ to → can_transition from to ≡ true
unfolding can_transition
complete retry = refl
complete boot = refl
complete stay = refl
complete start = refl
complete finish = refl
complete react = refl
complete preempt = refl
complete calm = refl
complete respawn = refl
complete die_initializing = refl
complete die_idle = refl
complete die_executing = refl
complete die_reflexing = refl
complete stop_initializing = refl
complete stop_idle = refl
complete stop_executing = refl
complete stop_reflexing = refl
complete stop_dead = refl

-- `canTransition` answers true for exactly the edges of the graph.
pub can_transition-⟶ : (from to : BotStatus) → (can_transition from to ≡ true) ↔ (from ⟶ to)
can_transition-⟶ from to = (sound from to, complete)

-- How often a list of events announces a change of status.
abbrev pub transitions : List RuntimeEventType → ℕ
transitions [] = 0
transitions (state_transition ∷ es) = suc (transitions es)
transitions (e ∷ es) = transitions es

-- What a decision promises: a refused one is silent; an accepted one starts at the current
-- status, follows an edge, and announces a change exactly once if there is one.
abbrev pub Honest : BotStatus → TransitionDecision → Type 0
Honest current d =
    (d.from ≡ current)
    × (d.accepted ≡ false → d.emitted_events ≡ [])
    × (d.accepted ≡ true → current ⟶ d.to)
    × (d.accepted ≡ true
        → transitions d.emitted_events ≡ (if same_status current d.to then 0 else 1))

excludes :
    (events : List RuntimeEventType)
    → transitions events ≡ 0
    → includes_state_transition events ≡ false
unfolding includes_state_transition
excludes [] h = refl
excludes (state_transition ∷ es) h = absurd (omega arith)
excludes (e ∷ es) h = excludes es h

-- A decision is honest if its own events hold no announcement and only edges are accepted.
create_transition_decision-Honest :
    (from to : BotStatus) (reason : ReasonType) (events : List RuntimeEventType) (accepted : Bool)
    (action : Option InterruptAction)
    → transitions events ≡ 0
    → (accepted ≡ true → can_transition from to ≡ true)
    → Honest from (create_transition_decision from to reason events accepted action)
unfolding create_transition_decision
create_transition_decision-Honest from to reason events false action quiet edge = ground arith
create_transition_decision-Honest from to reason events true action quiet edge =
    (refl, λ e. cc, λ e. sound from to (edge refl), λ e. ground (arith, excludes events quiet))

and_right : (a b : Bool) → (a && b) ≡ true → b ≡ true
and_right a b h = ground arith

and_left : (a b : Bool) → (a && b) ≡ true → a ≡ true
and_left a b h = ground arith

interrupt_quiet :
    (current : BotStatus) (signal : InterruptSignal)
    → transitions (resolve_interrupt_decision current signal).emitted_events ≡ 0
unfolding resolve_interrupt_decision
interrupt_quiet current signal = ground arith

-- Every decision of `resolveTransition` starts at the current status; if it is refused it emits
-- nothing; if it is accepted it follows an edge of the graph, and its events announce a
-- `state.transition` once if the status changes and never if it stays.
pub resolve_transition-Honest :
    (current : BotStatus) (reason : TransitionReason)
    → Honest current (resolve_transition current reason)
unfolding resolve_transition
resolve_transition-Honest current (ready auth) =
    create_transition_decision-Honest current idle ReasonType.ready _ _ none refl (and_left _ _)
resolve_transition-Honest current initializing_retry =
    create_transition_decision-Honest current _ ReasonType.initializing_retry _ _ none refl (λ e. e)
resolve_transition-Honest current initializing_retry_exhausted =
    create_transition_decision-Honest current _ ReasonType.initializing_retry_exhausted _ _ none
      refl (λ e. e)
resolve_transition-Honest current (exec_job_pulled true true) =
    create_transition_decision-Honest current _ ReasonType.exec_job_pulled _ _ none refl (λ e. e)
resolve_transition-Honest current (exec_job_pulled true false) =
    create_transition_decision-Honest current _ ReasonType.exec_job_pulled _ _ none refl (λ e. e)
resolve_transition-Honest current (exec_job_pulled false fresh) =
    create_transition_decision-Honest current _ ReasonType.exec_job_pulled _ _ none refl (λ e. e)
resolve_transition-Honest current (interrupt signal) =
    let d = resolve_interrupt_decision current signal in
    create_transition_decision-Honest current _ ReasonType.interrupt _ _ (some d.action)
      (interrupt_quiet current signal) (and_right d.accepted _)
resolve_transition-Honest current task_completed =
    create_transition_decision-Honest current _ ReasonType.task_completed _ _ none refl (λ e. e)
resolve_transition-Honest current task_failed =
    create_transition_decision-Honest current _ ReasonType.task_failed _ _ none refl (λ e. e)
resolve_transition-Honest current reflex_done =
    create_transition_decision-Honest current _ ReasonType.reflex_done _ _ none refl (λ e. e)
resolve_transition-Honest current bot_died =
    create_transition_decision-Honest current _ ReasonType.bot_died _ _ none refl (λ e. e)
resolve_transition-Honest current bot_respawned =
    create_transition_decision-Honest current _ ReasonType.bot_respawned _ _ none refl (λ e. e)
resolve_transition-Honest current shutdown_requested =
    create_transition_decision-Honest current _ ReasonType.shutdown_requested _ _ none refl (λ e. e)

no_exit : {to : BotStatus} → ¬ (shutdown ⟶ to)
no_exit e = elim e [ ]

follow-shutdown : (reason : TransitionReason) → follow shutdown reason ≡ shutdown
unfolding follow
follow-shutdown reason = elim (Bool-cases (resolve_transition shutdown reason).accepted) [
  | inl yes' ↦ absurd (no_exit ((resolve_transition-Honest shutdown reason).2 yes'))
  | inr refused ↦ rw refused
]

-- No sequence of causes leads out of `shutdown`.
pub follow_all-shutdown : (reasons : List TransitionReason) → follow_all shutdown reasons ≡ shutdown
unfolding follow_all
follow_all-shutdown [] = refl
follow_all-shutdown (r ∷ rs) = rw (follow-shutdown r) (follow_all-shutdown rs)
