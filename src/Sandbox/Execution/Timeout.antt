-- ===== src/Sandbox/Execution/Timeout.antt =====
-- The timer of ts-core/src/sandbox/execution-control.ts ends every execution.
use mc_servant.Base.{ℕ, ◌≡◌, refl, sym, ap, subst, Bool, Option, none, some, [], ◌∷◌, arith}
use mc_servant.Sandbox.ExecutionControl.{
  SandboxExecutionError, SandboxExecutionResourceLimits, time_out, mark_sandbox_terminal_error,
  abort_sandbox_host_calls, create_sandbox_timeout_error,
}
use mc_servant.Sandbox.Errors.{sandbox_error}
use mc_servant.Sandbox.HostCall.{Runtime, abort_races, abort_races_with}
use mc_servant.Sandbox.Execution.{
  Execution, Phase, running, done, SandboxExecutionResult, timeout_fires, cleanup_timeout_fires,
  proceed, or_else, rejected_with, waited, cleaned, ended_by, finish, log_line, proceed_from,
  script_rejected, sandbox_error_of,
}
use mc_servant.Sandbox.Histories.{step, run, fire_timeout, fire_cleanup_timeout}

-- The first error there is.
abbrev pub first_error :
    Option SandboxExecutionError
    → Option SandboxExecutionError
    → SandboxExecutionError
    → SandboxExecutionError
first_error (some e) terminal other = e
first_error none (some e) other = e
first_error none none other = other

abort_races_with-keeps :
    (aborted : Option SandboxExecutionError) (r : Runtime)
    → let a = abort_races_with aborted r in
      (a.last_host_call_error ≡ r.last_host_call_error) × (a.control ≡ r.control)
unfolding abort_races_with
abort_races_with-keeps none r = (refl, refl)
abort_races_with-keeps (some e) r = (refl, refl)

-- The terminal error when the timer has fired.
timed_out :
    (limits : SandboxExecutionResourceLimits) (r : Runtime)
    → or_else r.last_host_call_error (time_out r.control limits).terminal_error
      ≡ some (
          first_error r.last_host_call_error r.control.terminal_error
            (create_sandbox_timeout_error limits))
unfolding time_out mark_sandbox_terminal_error abort_sandbox_host_calls
timed_out limits r = ground arith

fired-error :
    (limits : SandboxExecutionResourceLimits) (x : Execution)
    → let e = create_sandbox_timeout_error limits in
      sandbox_error_of limits (fire_timeout limits running x).runtime (sandbox_error e)
      ≡ some (first_error x.runtime.last_host_call_error x.runtime.control.terminal_error e)
unfolding sandbox_error_of fire_timeout abort_races
fired-error limits x =
    let r : Runtime = record (x.runtime) { control = time_out x.runtime.control limits } in
    ground (arith, timed_out limits x.runtime, abort_races_with-keeps r.control.aborted r)

cleaned_up :
    (limits : SandboxExecutionResourceLimits) (toolchain : Bool) (x : Execution) (now later : ℕ)
    (o : Option SandboxExecutionError) (e : SandboxExecutionError)
    → o ≡ some e
    → let y =
        run limits toolchain (rejected_with o now x) (cleanup_timeout_fires ∷ proceed later ∷ []) in
      (result : SandboxExecutionResult) × (y.phase ≡ done result) × (result.status ≡ ended_by e)
unfolding run step rejected_with fire_cleanup_timeout proceed_from waited cleaned finish log_line
cleaned_up limits toolchain x now later none e h = cc h
cleaned_up limits toolchain x now later (some f) e h = (_, refl, ap ended_by (ground arith))

-- If the script of an execution does not end, the timer ends it: when the timer has fired and what
-- follows has gone on twice, the second time after the timeout of the cleanup, there is a result. Its
-- error is that of the last failed call of the host, else the terminal error, else the timeout; it
-- is interrupted if that is an abort, and failed otherwise.
pub run-timeout :
    (limits : SandboxExecutionResourceLimits) (toolchain : Bool) (x : Execution) (now later : ℕ)
    → x.phase ≡ running
    → let e =
        first_error x.runtime.last_host_call_error x.runtime.control.terminal_error
          (create_sandbox_timeout_error limits) in
      let y =
        run limits toolchain x
          (timeout_fires ∷ proceed now ∷ cleanup_timeout_fires ∷ proceed later ∷ []) in
      (result : SandboxExecutionResult) × (y.phase ≡ done result) × (result.status ≡ ended_by e)
unfolding run step proceed_from script_rejected fire_timeout rejected_with
run-timeout limits toolchain x now later h =
    let e =
      first_error x.runtime.last_host_call_error x.runtime.control.terminal_error
        (create_sandbox_timeout_error limits) in
    subst
      (λ (p : Phase).
        let y =
          run limits toolchain (fire_timeout limits p x)
            (proceed now ∷ cleanup_timeout_fires ∷ proceed later ∷ []) in
        (result : SandboxExecutionResult) × (y.phase ≡ done result) × (result.status ≡ ended_by e))
      (sym h)
      (cleaned_up limits toolchain (fire_timeout limits running x) now later _ e
        (fired-error limits x))
