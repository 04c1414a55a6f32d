-- ===== src/Tests/StateMachineRuns.antt =====
-- ts-core/src/runtime/state-machine.ts on concrete inputs.
use mc_servant.Base.{◌≡◌, refl, ◌≢◌, ◌↔◌, true, none, [], ◌∷◌, ◌++◌, if◌then◌else◌}
use mc_servant.Runtime.Contracts.{
  same_status, idle, executing, dead, shutdown, InterruptSignal, ControlCommand, control, reflex,
  ThreatAssessment,
}
use mc_servant.Runtime.StateMachine.{
  TransitionReason, interrupt, task_interrupted, state_transition, resolve_transition, follow,
}
use mc_servant.Runtime.StateMachine.Graph.{Honest, resolve_transition-Honest}
use mc_servant.Runtime.StateMachine.Documented.{
  cancel, fails, IsRefused, unlisted, resolve_transition-Row, follow-Returns,
}

abbrev cancel_signal : InterruptSignal
cancel_signal = record { source = control ControlCommand.cancel none; reason = "player" }

not_reflex : (t : ThreatAssessment) → cancel_signal.source ≢ reflex t
not_reflex t e = cc

cancel_signal_lem : (resolve_transition executing (interrupt cancel_signal)).to ≡ idle
unfolding resolve_transition
cancel_signal_lem = refl

resolve_transition-Honest_example :
    Honest executing (resolve_transition executing (interrupt cancel_signal))
resolve_transition-Honest_example = resolve_transition-Honest executing (interrupt cancel_signal)

resolve_transition-Row_example :
    let d = resolve_transition executing (interrupt cancel_signal) in
    let changed = if same_status executing idle then [] else state_transition ∷ [] in
    (d.to ≡ idle)
    × ((d.accepted ≡ true) ↔ (¬ IsRefused executing idle))
    × (d.emitted_events ≡ (
        if d.accepted
        then changed ++ (task_interrupted ∷ [] ++ unlisted (interrupt cancel_signal))
        else []))
resolve_transition-Row_example = resolve_transition-Row (cancel not_reflex)

follow-Returns_example :
    let d = resolve_transition dead TransitionReason.task_failed in
    ((d.accepted ≡ true) ↔ (dead ≢ shutdown))
    × (d.to ≡ idle)
    × (follow dead TransitionReason.task_failed
        ≡ (if same_status dead shutdown then shutdown else idle))
follow-Returns_example = follow-Returns dead fails
