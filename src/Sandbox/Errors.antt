-- ===== src/Sandbox/Errors.antt =====
-- ts-core/src/sandbox/errors.ts: which error of the sandbox a thrown value becomes.
use Prim.Native.String.{String, ◌++◌}
use mc_servant.Base.Text.{is_blank, includes, lower}
use mc_servant.Base.{ℕ, Bool, false, ◌||◌, Option, none, some, if◌then◌else◌}
use mc_servant.Sandbox.ExecutionControl.{
  SandboxExecutionError, sandbox_oom_error, facade_call_error, unhandled_error,
  SandboxExecutionResourceLimits, create_sandbox_timeout_error, AbortReason,
  create_sandbox_abort_error,
}

-- A thrown value: an `Error`, an `Error` named `AbortError` with its `reason`, or its message if it has
-- none, another value with its `String(value)`, or an error object of the sandbox, which is no
-- `Error`. `error_code` is set if it is a string, and `ensure_recoverable` tells
-- whether `details.ensure_recoverable` is true.
pub data Thrown : Type 0 where
  native_error :
      (message : String) → (error_code : Option String) → (ensure_recoverable : Bool) → Thrown
  abort_named :
      (message : String)
      → (reason : AbortReason) → (error_code : Option String) → (ensure_recoverable : Bool) → Thrown
  plain_value :
      (text : String) → (error_code : Option String) → (ensure_recoverable : Bool) → Thrown
  sandbox_error : SandboxExecutionError → Thrown

-- `error instanceof Error ? error.message : String(error)`.
unfoldable pub text_of : Thrown → String
text_of (native_error message error_code ensure_recoverable) = message
text_of (abort_named message reason error_code ensure_recoverable) = message
text_of (plain_value text error_code ensure_recoverable) = text
text_of (sandbox_error error) = "[object Object]"

-- A code that is a string and not blank.
abbrev pub usable_code : Option String → String
usable_code none = "facade_call_failed"
usable_code (some c) = if is_blank c then "facade_call_failed" else c

-- `readFacadeErrorCode`.
unfoldable pub read_facade_error_code : Thrown → String
read_facade_error_code (native_error message error_code ensure_recoverable) = usable_code error_code
read_facade_error_code (abort_named message reason error_code ensure_recoverable) =
    usable_code error_code
read_facade_error_code (plain_value text error_code ensure_recoverable) = usable_code error_code
read_facade_error_code (sandbox_error (facade_call_error message method error_code recoverable)) =
    usable_code (some error_code)
read_facade_error_code (sandbox_error other) = "facade_call_failed"

-- `readFacadeErrorDetails(error).details?.ensure_recoverable === true`.
unfoldable pub is_marked : Thrown → Bool
is_marked (native_error message error_code ensure_recoverable) = ensure_recoverable
is_marked (abort_named message reason error_code ensure_recoverable) = ensure_recoverable
is_marked (plain_value text error_code ensure_recoverable) = ensure_recoverable
is_marked (sandbox_error (facade_call_error message method error_code ensure_recoverable)) =
    ensure_recoverable
is_marked (sandbox_error other) = false

-- `createFacadeCallError`, with `{ ensure_recoverable: true }` over the details or not. A blank
-- message is refused by `createSandboxError`: `none`.
unfoldable pub create_facade_call_error :
    (action : String) → Thrown → (overlay : Bool) → Option SandboxExecutionError
create_facade_call_error action error overlay =
    if is_blank (text_of error)
    then none
    else some (
        facade_call_error (text_of error) action (read_facade_error_code error)
          (is_marked error || overlay))

-- `createToolchainCapabilityFacadeError`; the text of the details is an input.
unfoldable pub create_toolchain_capability_facade_error :
    (code message detail_text : String) → (ensure_recoverable : Bool) → Thrown
create_toolchain_capability_facade_error code message detail_text ensure_recoverable =
    native_error (message ++ detail_text) (some code) ensure_recoverable

abbrev unhandled : String → Option SandboxExecutionError
unhandled message = if is_blank message then none else some (unhandled_error message)

-- `createRuntimeSandboxError` of a value that is no error object of the sandbox.
unfoldable pub create_runtime_sandbox_error :
    Thrown → SandboxExecutionResourceLimits → Option SandboxExecutionError
create_runtime_sandbox_error (native_error message error_code ensure_recoverable) limits =
    if includes lower "timed out" message || includes lower "timeout" message
    then some (create_sandbox_timeout_error limits)
    else if includes (λ (c : ℕ). c) "Array buffer allocation failed" message
    then some (sandbox_oom_error message limits.memory_limit_mb)
    else unhandled message
create_runtime_sandbox_error (abort_named message reason error_code ensure_recoverable) limits =
    create_sandbox_abort_error reason
create_runtime_sandbox_error (plain_value text error_code ensure_recoverable) limits =
    unhandled text
create_runtime_sandbox_error (sandbox_error error) limits = some error
