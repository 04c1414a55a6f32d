-- ===== src/Sandbox/Resume.antt =====
-- ts-core/src/sandbox/host-call.ts and ts-core/src/sandbox/host-call-report.ts: how a call goes on
-- after its race, and what it records.
use Prim.Native.String.{String}
use mc_servant.Base.{ℕ, ◌-◌, true, false, Option, none, some, [], ◌∷◌, length}
use mc_servant.Base.{◌++◌ as ◌⧺◌}
use mc_servant.Sandbox.ExecutionControl.{
  SandboxExecutionError, facade_call_error, message_of, SandboxExecutionResourceLimits,
  SandboxExecutionControlState, mark_sandbox_terminal_error, assert_sandbox_host_call_allowed,
}
use mc_servant.Sandbox.Errors.{Thrown, native_error, sandbox_error, create_facade_call_error}
use mc_servant.Sandbox.Steps.{action_text, StepOutcome, ok, err, facade_call, facade_result, report}
use mc_servant.Sandbox.HostCall.{
  new_call, Kind, Outcome, Reply, HostCall, Runtime, act, attempt, read, sleep, value, throws,
  returned, recovered, rejected,
}

-- A step is recorded, with its line.
unfoldable pub record_step : HostCall → (now : ℕ) → StepOutcome → Runtime → Runtime
record_step c now outcome r = record r {
  step_results =
      r.step_results
      ⧺ (record {
        step_index = length r.step_results;
        action = c.action;
        params = c.params;
        duration_ms = now - c.started_at;
        outcome = outcome;
      }
          ∷ []);
  phase_logs = r.phase_logs ⧺ (facade_result c.action (now - c.started_at) outcome ∷ []);
}

-- A terminal error that is no `FacadeCallError`.
unfoldable pub foreign_error : SandboxExecutionControlState → Option SandboxExecutionError
foreign_error control = elim control.terminal_error [
  | some (facade_call_error message method error_code ensure_recoverable) ↦ none
  | other ↦ other
]

abbrev pub error_reply : SandboxExecutionError → Reply
error_reply e = rejected (native_error (message_of e) none false)

abbrev pub blank_message : Thrown
blank_message = native_error "error.message must be a non-empty string" none false

-- The `catch` of `handleSandboxHostCall`, with a terminal error that is no `FacadeCallError` and with
-- what `createFacadeCallError` gives.
unfoldable pub catch_act :
    HostCall
    → (now : ℕ) → (foreign facade : Option SandboxExecutionError) → Runtime
    → Runtime × Reply
catch_act c now (some terminal) facade r =
    (record_step c now (err terminal) r, error_reply terminal)
catch_act c now none none r = (r, rejected blank_message)
catch_act c now none (some e) r = (
  record_step c now (err e) (record r {
    last_host_call_error = some e;
    control = mark_sandbox_terminal_error r.control e;
  }),
  error_reply e,
)

-- The `catch` of `handleSandboxTryHostCall`: the script goes on with the error.
unfoldable pub catch_attempt :
    HostCall
    → (now : ℕ) → (foreign facade : Option SandboxExecutionError) → Runtime
    → Runtime × Reply
catch_attempt c now (some terminal) facade r = (r, error_reply terminal)
catch_attempt c now none none r = (r, rejected blank_message)
catch_attempt c now none (some e) r = (record_step c now (err e) r, recovered e)

unfoldable pub catch : Kind → HostCall → (now : ℕ) → Thrown → Runtime → Runtime × Reply
catch act c now thrown r =
    catch_act c now (foreign_error r.control)
      (create_facade_call_error (action_text c.action) thrown false) r
catch attempt c now thrown r =
    catch_attempt c now (foreign_error r.control)
      (create_facade_call_error (action_text c.action) thrown true) r
catch other c now thrown r = (r, rejected thrown)

-- An action's call goes on with the host's value, unless there is a terminal error.
unfoldable pub value_of_action :
    Kind
    → HostCall
    → (now : ℕ) → String
    → (terminal : Option SandboxExecutionError) → Runtime
    → Runtime × Reply
value_of_action kind c now v (some terminal) r = catch kind c now (sandbox_error terminal) r
value_of_action kind c now v none r = (record_step c now (ok v) r, returned v)

-- A call goes on with the host's value.
unfoldable pub resume_value :
    SandboxExecutionResourceLimits
    → Kind
    → HostCall
    → (now : ℕ) → String
    → Runtime
    → Runtime × Reply
resume_value limits read c now v r = (r, returned v)
resume_value limits sleep c now v r =
    let (control, thrown) = assert_sandbox_host_call_allowed r.control limits now in
    (
      record r { control = control },
      elim thrown [ none ↦ returned v | some message ↦ rejected (native_error message none false) ],
    )
resume_value limits kind c now v r = value_of_action kind c now v r.control.terminal_error r

-- A call goes on after its race.
unfoldable pub resume_raced :
    SandboxExecutionResourceLimits → HostCall → (now : ℕ) → Outcome → Runtime → Runtime × Reply
resume_raced limits c now (value v) r = resume_value limits c.kind c now v r
resume_raced limits c now (throws thrown) r = catch c.kind c now thrown r

-- `recordSandboxGoalReport`, unless the call is refused.
unfoldable pub admit_report :
    (goal_result : String)
    → (now : ℕ) → SandboxExecutionControlState
    → (refusal : Option String) → Runtime
    → Runtime
admit_report goal_result now control (some message) r = record r { control = control }
admit_report goal_result now control none r =
    record_step (new_call act report goal_result now) now (ok goal_result) (record r {
      control = control;
      phase_logs = r.phase_logs ⧺ (facade_call report goal_result ∷ []);
    })

-- `handleSandboxGoalReport` of a valid goal result.
unfoldable pub report_goal :
    SandboxExecutionResourceLimits → (goal_result : String) → (now : ℕ) → Runtime → Runtime
report_goal limits goal_result now r =
    let (control, refusal) = assert_sandbox_host_call_allowed r.control limits now in
    admit_report goal_result now control refusal r
