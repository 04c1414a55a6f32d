-- ===== src/Tests/ExecutionRuns.antt =====
-- ts-core/src/sandbox/execution.ts on small histories.
use mc_servant.Base.{◌≡◌, refl, true, false, ◌||◌, none, some, List, [], ◌∷◌, length, arith}
use mc_servant.Base.Text as Text
use mc_servant.Base.Text.{is_blank}
use mc_servant.Sandbox.ExecutionControl as Control
use mc_servant.Sandbox.ExecutionControl.{
  SandboxExecutionError, abort_error, static_check_error, facade_call_error,
  SandboxExecutionResourceLimits, string_reason, create_sandbox_timeout_error,
}
use mc_servant.Sandbox.StaticPolicy as Policy
use mc_servant.Sandbox.StaticPolicy.{
  check_sandbox_source_static_policy, create_sandbox_resource_limits,
}
use mc_servant.Sandbox.Errors.{
  Thrown, native_error, sandbox_error, text_of, read_facade_error_code, is_marked,
}
use mc_servant.Sandbox.Steps.{
  ok, precheck, transpile, isolate_create, facade_call, facade_result, sandbox_complete, mine,
  collect, find_facade_step_error,
}
use mc_servant.Sandbox.HostCall as HostCall
use mc_servant.Sandbox.Resume as Resume
use mc_servant.Sandbox.HostCall.{
  act, attempt, value, throws, settles, Runtime, abort_races, new_call,
}
use mc_servant.Sandbox.Execution as Execution
use mc_servant.Sandbox.Histories as Histories
use mc_servant.Sandbox.Execution.{
  Event, transpiled, prepared, host_call, host_answers, call_resumes, external_abort_signal,
  script_ends, timeout_fires, cleanup_timeout_fires, proceed, running, done, SandboxExecutionResult,
  completed, ended_by, begin,
}
use mc_servant.Sandbox.Histories.{run, resume_call}
use mc_servant.Sandbox.Execution.Terminal.{succeeded}
use mc_servant.Sandbox.Execution.NoSuccess.{run-no_success}
use mc_servant.Sandbox.Execution.Ends.{Honest, run-Honest}
use mc_servant.Sandbox.Execution.Timeout.{first_error, run-timeout}
use mc_servant.Sandbox.Execution.Crossed.{waiting, failing, facade_error_of, resume_call-crossed}

abbrev limits : SandboxExecutionResourceLimits
limits = record {
  memory_limit_mb = 128;
  timeout_ms = 120000;
  script_timeout_ms = 115000;
  max_sleep_ms = 10000;
  abort_cleanup_timeout_ms = 500;
}

-- The static policy.
exit_refused :
    check_sandbox_source_static_policy "process.exit(1)"
    ≡ some (some (static_check_error "Forbidden sandbox capability detected: process" "process"))
unfolding check_sandbox_source_static_policy is_blank Policy.first_forbidden Policy.matches
    Policy.one_here Policy.follows Policy.opens_after_spaces Text.strip_prefix
exit_refused = refl

longer_word_allowed : check_sandbox_source_static_policy "let processes = evaluate (1)" ≡ some none
unfolding check_sandbox_source_static_policy is_blank Policy.first_forbidden Policy.matches
    Policy.one_here Policy.follows Policy.opens_after_spaces Text.strip_prefix
longer_word_allowed = refl

-- The script's timeout has to be the shorter one.
equal_timeouts_refused :
    create_sandbox_resource_limits (record {
      memory_limit_mb = none;
      timeout_ms = some 115000;
      script_timeout_ms = none;
      max_sleep_ms = none;
      abort_cleanup_timeout_ms = none;
    })
    ≡ none
unfolding create_sandbox_resource_limits
equal_timeouts_refused = refl

abbrev started : List Event
started = transpiled 1 none ∷ prepared none ∷ []

abbrev mined : List Event
mined =
    transpiled 1 none
    ∷ prepared none
    ∷ host_call act mine "{}" 2
    ∷ host_answers 0 (settles (value "done"))
    ∷ call_resumes 0 9
    ∷ script_ends (value "")
    ∷ proceed 10
    ∷ []

abbrev result : SandboxExecutionResult
result = record {
  status = completed;
  step_results =
      record { step_index = 0; action = mine; params = "{}"; duration_ms = 7; outcome = ok "done" }
      ∷ [];
  phase_logs =
      precheck none
      ∷ transpile none
      ∷ isolate_create 128
      ∷ facade_call mine "{}"
      ∷ facade_result mine 7 (ok "done")
      ∷ sandbox_complete 1 10
      ∷ [];
  total_steps = 1;
  duration_ms = 10;
}

mined-result : (run limits true (begin limits "1" none 0) mined).phase ≡ done result
unfolding run begin Execution.begun Execution.attached Execution.attach Histories.step
    Histories.end_transpile Execution.after_transpile Histories.end_preparation Histories.end_script
    Histories.has_script Histories.has_listener Execution.proceed_from Execution.script_fulfilled
    Execution.fulfilled_with Execution.finish Execution.log_line Histories.answer_call
    Histories.answer_entry Histories.resume_entry Histories.resume_open resume_call
    HostCall.begin_call HostCall.admit HostCall.ask_host HostCall.is_toolchain_sandbox_action
    HostCall.answer HostCall.outcome_of HostCall.race abort_races HostCall.abort_races_with
    Resume.resume_raced Resume.resume_value Resume.value_of_action Resume.record_step
    find_facade_step_error Control.create_sandbox_execution_control_state
    Control.assert_sandbox_host_call_allowed Control.external_abort
    Control.create_sandbox_abort_error Control.mark_sandbox_terminal_error
    Control.abort_sandbox_host_calls check_sandbox_source_static_policy is_blank
    Policy.first_forbidden Policy.matches Policy.one_here Policy.follows Policy.opens_after_spaces
    Text.strip_prefix
mined-result = refl

-- An execution that was aborted while a call was under way.
abbrev aborted : Execution.Execution
aborted = run limits true (begin limits "1" none 0) (
    transpiled 1 none
    ∷ prepared none
    ∷ host_call act mine "{}" 2
    ∷ external_abort_signal (string_reason "stop")
    ∷ [])

aborted-error : aborted.runtime.control.terminal_error ≡ some (abort_error "stop" "stop")
unfolding run begin Execution.begun Execution.attached Execution.attach Histories.step
    Histories.end_transpile Execution.after_transpile Histories.end_preparation Histories.end_script
    Histories.has_script Histories.has_listener Execution.proceed_from Execution.script_fulfilled
    Execution.fulfilled_with Execution.finish Execution.log_line Histories.answer_call
    Histories.answer_entry Histories.resume_entry Histories.resume_open resume_call
    HostCall.begin_call HostCall.admit HostCall.ask_host HostCall.is_toolchain_sandbox_action
    HostCall.answer HostCall.outcome_of HostCall.race abort_races HostCall.abort_races_with
    Resume.resume_raced Resume.resume_value Resume.value_of_action Resume.record_step
    find_facade_step_error Control.create_sandbox_execution_control_state
    Control.assert_sandbox_host_call_allowed Control.external_abort
    Control.create_sandbox_abort_error Control.mark_sandbox_terminal_error
    Control.abort_sandbox_host_calls check_sandbox_source_static_policy is_blank
    Policy.first_forbidden Policy.matches Policy.one_here Policy.follows Policy.opens_after_spaces
    Text.strip_prefix
aborted-error = refl

abbrev going : Execution.Execution
going = run limits true (begin limits "1" none 0) started

going-running : going.phase ≡ running
unfolding run begin Execution.begun Execution.attached Execution.attach Histories.step
    Histories.end_transpile Execution.after_transpile Histories.end_preparation Histories.end_script
    Histories.has_script Histories.has_listener Execution.proceed_from Execution.script_fulfilled
    Execution.fulfilled_with Execution.finish Execution.log_line Histories.answer_call
    Histories.answer_entry Histories.resume_entry Histories.resume_open resume_call
    HostCall.begin_call HostCall.admit HostCall.ask_host HostCall.is_toolchain_sandbox_action
    HostCall.answer HostCall.outcome_of HostCall.race abort_races HostCall.abort_races_with
    Resume.resume_raced Resume.resume_value Resume.value_of_action Resume.record_step
    find_facade_step_error Control.create_sandbox_execution_control_state
    Control.assert_sandbox_host_call_allowed Control.external_abort
    Control.create_sandbox_abort_error Control.mark_sandbox_terminal_error
    Control.abort_sandbox_host_calls check_sandbox_source_static_policy is_blank
    Policy.first_forbidden Policy.matches Policy.one_here Policy.follows Policy.opens_after_spaces
    Text.strip_prefix
going-running = refl

abbrev lost : Thrown
lost = native_error "no path" none false

-- Two actions under way; the host has answered the first.
abbrev two : Runtime
two = record {
  control = Control.create_sandbox_execution_control_state 0 limits;
  step_results = [];
  phase_logs = [];
  last_host_call_error = none;
  calls = failing (new_call act mine "{}" 2) lost ∷ waiting (new_call act collect "{}" 3) ∷ [];
}

two-fresh : (two.control.terminal_error ≡ none) × (two.control.aborted ≡ none)
unfolding Control.create_sandbox_execution_control_state
two-fresh = (refl, refl)

lost-text : is_blank (text_of lost) ≡ false
unfolding is_blank text_of
lost-text = refl

run-no_success_example :
    let r =
      (run limits true aborted
        (host_answers 0 (settles (value "late")) ∷ call_resumes 0 9 ∷ [])).runtime in
    (r.control.terminal_error ≡ some (abort_error "stop" "stop"))
    × (succeeded r.step_results ≡ succeeded aborted.runtime.step_results)
    × (length r.calls ≡ length aborted.runtime.calls)
run-no_success_example =
    run-no_success limits true aborted
      (host_answers 0 (settles (value "late")) ∷ call_resumes 0 9 ∷ []) (abort_error "stop" "stop")
      aborted-error

run-Honest_example : Honest result
run-Honest_example = run-Honest limits true "1" none 0 mined result mined-result

run-timeout_example :
    let e =
      first_error going.runtime.last_host_call_error going.runtime.control.terminal_error
        (create_sandbox_timeout_error limits) in
    let y =
      run limits true going
        (timeout_fires ∷ proceed 120001 ∷ cleanup_timeout_fires ∷ proceed 120501 ∷ []) in
    (r : SandboxExecutionResult) × (y.phase ≡ done r) × (r.status ≡ ended_by e)
run-timeout_example = run-timeout limits true going 120001 120501 going-running

resume_call-crossed_example :
    let first = facade_error_of (new_call act mine "{}" 2) lost in
    let s = abort_races (resume_call limits 1 5 (abort_races (resume_call limits 0 4 two))) in
    (s.control.terminal_error ≡ some first)
    × (s.last_host_call_error
        ≡ some (
            facade_call_error "[object Object]" "collect"
              (read_facade_error_code (sandbox_error first))
              (is_marked (sandbox_error first) || false)))
resume_call-crossed_example =
    resume_call-crossed limits 0 1 4 5 (new_call act mine "{}" 2) (new_call act collect "{}" 3) lost
      two (omega arith) refl refl two-fresh.0 two-fresh.1 lost-text
