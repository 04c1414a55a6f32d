-- ===== src/Sandbox/Execution.antt =====
-- `executeSandboxCodeRequest` of ts-core/src/sandbox/execution.ts, with `runSandboxScriptWithTimeout`
-- and `waitForActiveHostCalls` of ts-core/src/sandbox/execution-control.ts. The isolate and the script
-- are not run: what they do is a list of events.
pub mod Terminal
pub mod Kept
pub mod NoSuccess
pub mod Ends
pub mod Timeout
pub mod Crossed
use Prim.Native.String.{String}
use mc_servant.Base.{
  ℕ, ◌-◌, Bool, true, false, not, ◌&&◌, ◌||◌, Option, none, some, List, [], ◌∷◌, length, get_elem?,
  set, if◌then◌else◌, is_none, suc,
}
use mc_servant.Base.{◌++◌ as ◌⧺◌}
use mc_servant.Sandbox.ExecutionControl.{
  SandboxExecutionError, abort_error, transpile_error, SandboxExecutionResourceLimits,
  SandboxExecutionControlState, AbortReason, create_sandbox_execution_control_state,
  create_sandbox_abort_error, mark_sandbox_terminal_error, time_out, external_abort,
  create_sandbox_timeout_error,
}
use mc_servant.Sandbox.StaticPolicy.{check_sandbox_source_static_policy}
use mc_servant.Sandbox.Errors.{Thrown, sandbox_error, create_runtime_sandbox_error}
use mc_servant.Sandbox.Steps.{
  SandboxStepActionName, SandboxStepResult, SandboxJsonlLine, precheck, transpile, isolate_create,
  sandbox_complete, sandbox_done, find_facade_step_error,
}
use mc_servant.Sandbox.HostCall.{
  Kind, Outcome, value, throws, HostAnswer, Reply, HostCall, Runtime, answer, abort_races,
  begin_call, new_call,
}
use mc_servant.Sandbox.Resume.{resume_raced, report_goal}

-- The error of `TaskHistoryStatus`, and that of a promise that is rejected.
pub data Status : Type 0 where
  completed : Status
  failed interrupted : SandboxExecutionError → Status
  request_refused : Status

-- `SandboxExecutionResult`.
pub record SandboxExecutionResult : Type 0 where
  pub status : Status
  pub step_results : List SandboxStepResult
  pub phase_logs : List SandboxJsonlLine
  pub total_steps : ℕ
  pub duration_ms : ℕ

-- Where the function is: its transpiler, the work before the script, the script, its end, the wait for
-- the calls with these indices (cut off or not), the end.
pub data Phase : Type 0 where
  transpiling preparing running : Phase
  settled : Outcome → Phase
  cleaning : SandboxExecutionError → List ℕ → (cut_off : Bool) → Phase
  done : SandboxExecutionResult → Phase

pub record Execution : Type 0 where
  pub started_at : ℕ
  pub phase : Phase
  pub runtime : Runtime

pub data Event : Type 0 where
  transpiled : (now : ℕ) → (error : Option SandboxExecutionError) → Event
  prepared : (failure : Option Thrown) → Event
  host_call : Kind → SandboxStepActionName → (params : String) → (now : ℕ) → Event
  goal_report : (goal_result : String) → (now : ℕ) → Event
  host_answers : (call : ℕ) → HostAnswer → Event
  call_resumes : (call now : ℕ) → Event
  external_abort_signal : AbortReason → Event
  script_ends : Outcome → Event
  timeout_fires cleanup_timeout_fires : Event
  proceed : (now : ℕ) → Event

-- `lastHostCallError ?? other`.
abbrev pub or_else :
    Option SandboxExecutionError → Option SandboxExecutionError → Option SandboxExecutionError
or_else none other = other
or_else (some e) other = some e

-- The indices, from `index` on, of the calls that have not ended.
unfoldable pub active_host_calls : List HostCall → (index : ℕ) → List ℕ
active_host_calls [] index = []
active_host_calls (c ∷ cs) index =
    let later = active_host_calls cs (suc index) in if is_none c.reply then index ∷ later else later

-- `Promise.allSettled` of the calls with these indices.
unfoldable pub all_settled : List HostCall → List ℕ → Bool
all_settled calls [] = true
all_settled calls (i ∷ is) =
    let later = all_settled calls is in
    elim (get_elem? calls i) [ none ↦ later | some c ↦ c.settled && later ]

-- The end, with the lines and steps as they are.
unfoldable pub finish : Status → (now : ℕ) → Execution → Execution
finish status now x = record x {
  phase = done (record {
    status = status;
    step_results = x.runtime.step_results;
    phase_logs = x.runtime.phase_logs;
    total_steps = length x.runtime.step_results;
    duration_ms = now - x.started_at;
  });
}

unfoldable pub log_line : SandboxJsonlLine → Execution → Execution
log_line line x = record x {
  runtime = record (x.runtime) { phase_logs = x.runtime.phase_logs ⧺ (line ∷ []) };
}

unfoldable pub mark : SandboxExecutionError → Execution → Execution
mark e x = record x {
  runtime =
      abort_races
        (record (x.runtime) { control = mark_sandbox_terminal_error x.runtime.control e });
}

-- The code after the script's promise was fulfilled, with `terminalFacadeError`.
unfoldable pub fulfilled_with : Option SandboxExecutionError → (now : ℕ) → Execution → Execution
fulfilled_with (some e) now x =
    let line = sandbox_done (length x.runtime.step_results) (now - x.started_at) in
    finish (failed e) now (log_line line (mark e x))
fulfilled_with none now x =
    let line = sandbox_complete (length x.runtime.step_results) (now - x.started_at) in
    finish completed now (log_line line x)

unfoldable pub script_fulfilled : (now : ℕ) → Execution → Execution
script_fulfilled now x =
    fulfilled_with
      (or_else x.runtime.last_host_call_error (find_facade_step_error x.runtime.step_results)) now x

-- `lastHostCallError ?? controlState.terminalError ?? ...`; `none` if the last of them throws.
unfoldable pub sandbox_error_of :
    SandboxExecutionResourceLimits → Runtime → Thrown → Option SandboxExecutionError
sandbox_error_of limits r thrown =
    or_else r.last_host_call_error
      (or_else r.control.terminal_error (create_runtime_sandbox_error thrown limits))

-- The `catch`, up to its wait, with `sandboxError`.
unfoldable pub rejected_with : Option SandboxExecutionError → (now : ℕ) → Execution → Execution
rejected_with none now x = finish request_refused now x
rejected_with (some e) now x = record (mark e x) {
  phase = cleaning e (active_host_calls x.runtime.calls 0) false;
}

unfoldable pub script_rejected :
    SandboxExecutionResourceLimits → Thrown → (now : ℕ) → Execution → Execution
script_rejected limits thrown now x = rejected_with (sandbox_error_of limits x.runtime thrown) now x

-- `createSandboxExecutionInterrupted` for an `AbortError`, `createSandboxExecutionFailure` for another.
unfoldable pub ended_by : SandboxExecutionError → Status
ended_by (abort_error message reason) = interrupted (abort_error message reason)
ended_by other = failed other

-- The `catch` after its wait.
unfoldable pub cleaned : SandboxExecutionError → (now : ℕ) → Execution → Execution
cleaned e now x =
    let line = sandbox_done (length x.runtime.step_results) (now - x.started_at) in
    finish (ended_by e) now (log_line line x)

-- `waitForActiveHostCalls`: the wait is over, or not.
unfoldable pub waited : (over : Bool) → SandboxExecutionError → (now : ℕ) → Execution → Execution
waited true e now x = cleaned e now x
waited false e now x = x

-- What follows an `await` of the function that is over.
unfoldable pub proceed_from :
    SandboxExecutionResourceLimits → Phase → (now : ℕ) → Execution → Execution
proceed_from limits (settled (value v)) now x = script_fulfilled now x
proceed_from limits (settled (throws thrown)) now x = script_rejected limits thrown now x
proceed_from limits (cleaning e waiting cut_off) now x =
    waited (cut_off || all_settled x.runtime.calls waiting) e now x
proceed_from limits other now x = x

-- The end of `transpileSandboxCode`, and of the work between it and the script's run.
unfoldable pub after_transpile :
    SandboxExecutionResourceLimits
    → (now : ℕ) → Option SandboxExecutionError
    → Execution
    → Execution
after_transpile limits now (some e) x = finish (failed e) now (log_line (transpile (some e)) x)
after_transpile limits now none x =
    let logged = log_line (isolate_create limits.memory_limit_mb) (log_line (transpile none) x) in
    record logged { phase = preparing }

-- What follows the check of the code.
unfoldable pub begun :
    (check : Option (Option SandboxExecutionError)) → (now : ℕ) → Execution → Execution
begun none now x = finish request_refused now x
begun (some (some e)) now x = finish (failed e) now (log_line (precheck (some e)) x)
begun (some none) now x = log_line (precheck none) x

-- `attachExternalAbortSignal` of a signal that is aborted already, for such a reason, or of another:
-- `none` where it throws.
unfoldable pub attach :
    (signal : Option AbortReason)
    → SandboxExecutionControlState
    → Option SandboxExecutionControlState
attach none control = some control
attach (some reason) control = elim (create_sandbox_abort_error reason) [
  | none ↦ none
  | some e ↦ some (mark_sandbox_terminal_error control e)
]

unfoldable pub attached :
    Option SandboxExecutionControlState
    → (check : Option (Option SandboxExecutionError)) → (now : ℕ) → Execution
    → Execution
attached none check now x = finish request_refused now x
attached (some control) check now x =
    begun check now (record x { runtime = record (x.runtime) { control = control } })

-- The code before the first `await`. A blank code is refused before anything is logged.
unfoldable pub begin :
    SandboxExecutionResourceLimits
    → (source : String) → (signal : Option AbortReason) → (now : ℕ) → Execution
begin limits source signal now =
    let control = create_sandbox_execution_control_state now limits in
    attached (attach signal control) (check_sandbox_source_static_policy source) now (record {
      started_at = now;
      phase = transpiling;
      runtime = record {
        control = control;
        step_results = [];
        phase_logs = [];
        last_host_call_error = none;
        calls = [];
      };
    })
