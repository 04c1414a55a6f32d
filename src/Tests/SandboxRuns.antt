-- ===== src/Tests/SandboxRuns.antt =====
-- ts-core/src/sandbox/execution-control.ts on small histories.
use mc_servant.Base.{◌+◌, ◌<◌, ◌≡◌, ◌≢◌, ◌↔◌, ◌⊎◌, refl, true, none, some, [], ◌∷◌}
use mc_servant.Base.Text.{is_blank}
use mc_servant.Sandbox.ExecutionControl.{
  SandboxExecutionError, abort_error, message_of, SandboxExecutionResourceLimits,
  SandboxExecutionControlState, error_reason, string_reason, other_reason, host_call, abort, timer,
  run, create_sandbox_execution_control_state, assert_sandbox_host_call_allowed, external_abort,
}
use mc_servant.Sandbox.ExecutionControl
use mc_servant.Sandbox.ExecutionControl.FirstError.{
  assert_sandbox_host_call_allowed-deadline, external_abort-blank,
}

abbrev limits : SandboxExecutionResourceLimits
limits = record {
  memory_limit_mb = 128;
  timeout_ms = 120000;
  script_timeout_ms = 115000;
  max_sleep_ms = 10000;
  abort_cleanup_timeout_ms = 500;
}

abbrev start : SandboxExecutionControlState
start = create_sandbox_execution_control_state 7 limits

abbrev stopped : SandboxExecutionControlState
stopped = run limits start (host_call 9 ∷ abort (string_reason "stop") ∷ [])

stopped-error : stopped.terminal_error ≡ some (abort_error "stop" "stop")
unfolding run ExecutionControl.step external_abort ExecutionControl.create_sandbox_abort_error
    ExecutionControl.mark_sandbox_terminal_error assert_sandbox_host_call_allowed
    create_sandbox_execution_control_state ExecutionControl.abort_sandbox_host_calls is_blank
stopped-error = refl

assert_sandbox_host_call_allowed-deadline_example :
    let c = run limits start (host_call 9 ∷ []) in
    let (after, thrown) = assert_sandbox_host_call_allowed c limits 120007 in
    ((thrown ≡ none) ↔ ((c.terminal_error ≡ none) × (120007 < 7 + 120000)))
    × ((thrown ≡ none) ⊎ (after.terminal_error ≢ none))
assert_sandbox_host_call_allowed-deadline_example =
    assert_sandbox_host_call_allowed-deadline limits 7 120007 (host_call 9 ∷ [])

start-error : start.terminal_error ≡ none
unfolding create_sandbox_execution_control_state
start-error = refl

external_abort-blank_example :
    (((external_abort start (error_reason "")).terminal_error ≡ none) ↔ (is_blank "" ≡ true))
    × ((external_abort start (string_reason "stop")).terminal_error ≢ none)
    × ((external_abort start other_reason).terminal_error ≢ none)
external_abort-blank_example = external_abort-blank start "" "stop" start-error
