-- ===== src/Sandbox/ExecutionControl.antt =====
-- ts-core/src/sandbox/execution-control.ts: the deadline, the abort signal and the terminal error that
-- the host calls of one sandbox execution share.
pub mod FirstError
use Prim.Native.String.{String}
use mc_servant.Base.Text.{is_blank}
use mc_servant.Base.{
  ℕ, ◌+◌, Bool, true, false, ◌||◌, not, is_none, Option, none, some, List, [], ◌∷◌, if◌then◌else◌,
  leb,
}

-- Of the details of a `FacadeCallError`, whether `details.ensure_recoverable` is true.
pub data SandboxExecutionError : Type 0 where
  static_check_error : (message violation : String) → SandboxExecutionError
  transpile_error : (message : String) → List String → SandboxExecutionError
  sandbox_timeout_error : (message : String) → (timeout_ms : ℕ) → SandboxExecutionError
  sandbox_oom_error : (message : String) → (memory_limit_mb : ℕ) → SandboxExecutionError
  facade_call_error :
      (message method error_code : String) → (ensure_recoverable : Bool) → SandboxExecutionError
  abort_error : (message reason : String) → SandboxExecutionError
  unhandled_error : (message : String) → SandboxExecutionError

abbrev pub message_of : SandboxExecutionError → String
message_of (static_check_error message violation) = message
message_of (transpile_error message diagnostics) = message
message_of (sandbox_timeout_error message timeout_ms) = message
message_of (sandbox_oom_error message memory_limit_mb) = message
message_of (facade_call_error message method error_code ensure_recoverable) = message
message_of (abort_error message reason) = message
message_of (unhandled_error message) = message

pub record SandboxExecutionResourceLimits : Type 0 where
  pub memory_limit_mb : ℕ
  pub timeout_ms : ℕ
  pub script_timeout_ms : ℕ
  pub max_sleep_ms : ℕ
  pub abort_cleanup_timeout_ms : ℕ

-- What an abort signal gives as its reason, as far as `createSandboxAbortError` looks.
pub data AbortReason : Type 0 where
  error_reason : (message : String) → AbortReason
  string_reason : String → AbortReason
  other_reason : AbortReason

unfoldable pub create_sandbox_timeout_error : SandboxExecutionResourceLimits → SandboxExecutionError
create_sandbox_timeout_error limits =
    sandbox_timeout_error "Sandbox execution timed out" limits.timeout_ms

-- An error with an empty message is refused by `createSandboxError`: `none`.
unfoldable pub create_sandbox_abort_error : AbortReason → Option SandboxExecutionError
create_sandbox_abort_error (error_reason message) =
    if is_blank message then none else some (abort_error message message)
create_sandbox_abort_error (string_reason s) = some (
    if is_blank s
    then abort_error "Sandbox execution aborted" "Sandbox execution aborted"
    else abort_error s s)
create_sandbox_abort_error other_reason =
    some (abort_error "Sandbox execution aborted" "Sandbox execution aborted")

-- `aborted` is the reason of the controller's signal, if it is aborted.
pub record SandboxExecutionControlState : Type 0 where
  pub aborted : Option SandboxExecutionError
  pub deadline_ms : ℕ
  pub terminal_error : Option SandboxExecutionError

unfoldable pub create_sandbox_execution_control_state :
    ℕ → SandboxExecutionResourceLimits → SandboxExecutionControlState
create_sandbox_execution_control_state started_at limits = record {
  aborted = none;
  deadline_ms = started_at + limits.timeout_ms;
  terminal_error = none;
}

unfoldable pub abort_sandbox_host_calls :
    SandboxExecutionControlState → SandboxExecutionError → SandboxExecutionControlState
abort_sandbox_host_calls state error =
    if is_none state.aborted then record state { aborted = some error } else state

unfoldable pub mark_sandbox_terminal_error :
    SandboxExecutionControlState → SandboxExecutionError → SandboxExecutionControlState
mark_sandbox_terminal_error state error =
    if is_none state.terminal_error
    then abort_sandbox_host_calls (record state { terminal_error = some error }) error
    else state

-- The timer of `runSandboxScriptWithTimeout`, and the end of `assertSandboxHostCallAllowed`.
unfoldable pub time_out :
    SandboxExecutionControlState → SandboxExecutionResourceLimits → SandboxExecutionControlState
time_out state limits =
    let error = create_sandbox_timeout_error limits in
    abort_sandbox_host_calls (mark_sandbox_terminal_error state error) error

-- `assertSandboxHostCallAllowed`, with the message that it throws, if it does.
unfoldable pub assert_sandbox_host_call_allowed :
    SandboxExecutionControlState
    → SandboxExecutionResourceLimits
    → ℕ
    → SandboxExecutionControlState × Option String
assert_sandbox_host_call_allowed state limits now = elim state.terminal_error [
  | some error ↦ (state, some (message_of error))
  | none ↦
      if not (is_none state.aborted) || leb state.deadline_ms now
      then (time_out state limits, some (message_of (create_sandbox_timeout_error limits)))
      else (state, none)
]

-- The listener of `attachExternalAbortSignal`. If the error is refused, the listener throws, and the
-- state stays.
unfoldable pub external_abort :
    SandboxExecutionControlState → AbortReason → SandboxExecutionControlState
external_abort state reason = elim (create_sandbox_abort_error reason) [
  | none ↦ state
  | some error ↦ mark_sandbox_terminal_error state error
]

-- What happens to the state during an execution.
pub data Event : Type 0 where
  host_call : (now : ℕ) → Event
  mark : SandboxExecutionError → Event
  abort : AbortReason → Event
  timer : Event

module _ (limits : SandboxExecutionResourceLimits) where
  unfoldable pub step : SandboxExecutionControlState → Event → SandboxExecutionControlState
  step state (host_call now) = (assert_sandbox_host_call_allowed state limits now).0
  step state (mark error) = mark_sandbox_terminal_error state error
  step state (abort reason) = external_abort state reason
  step state timer = time_out state limits

  unfoldable pub run : SandboxExecutionControlState → List Event → SandboxExecutionControlState
  run state [] = state
  run state (e ∷ es) = run (step state e) es
