-- ===== src/Sandbox/Execution/Ends.antt =====
-- How an execution of ts-core/src/sandbox/execution.ts ends.
use Prim.Native.String.{String}
use mc_servant.Base.{
  ℕ, ◌≡◌, refl, subst, Bool, true, false, Option, none, some, List, [], ◌∷◌, All, arith,
  if◌then◌else◌,
}
use mc_servant.Sandbox.ExecutionControl.{
  SandboxExecutionControlState, SandboxExecutionError, abort_error, facade_call_error,
  SandboxExecutionResourceLimits, AbortReason,
}
use mc_servant.Sandbox.StaticPolicy.{check_sandbox_source_static_policy}
use mc_servant.Sandbox.Errors.{Thrown}
use mc_servant.Sandbox.Steps.{StepOutcome, err, SandboxStepResult, find_facade_step_error}
use mc_servant.Sandbox.HostCall.{Runtime, Outcome, value, throws}
use mc_servant.Sandbox.Execution.{
  Execution, Phase, transpiling, preparing, running, settled, cleaning, done,
  SandboxExecutionResult, Status, completed, failed, interrupted, request_refused, Event,
  transpiled, prepared, host_call, goal_report, host_answers, call_resumes, external_abort_signal,
  script_ends, timeout_fires, cleanup_timeout_fires, proceed, begin, begun, attached, or_else,
  fulfilled_with, rejected_with, waited, cleaned, ended_by, finish, log_line, proceed_from,
  script_fulfilled, script_rejected, after_transpile,
}
use mc_servant.Sandbox.Histories.{
  step, run, on_runtime_if, has_script, has_listener, end_transpile, end_preparation, end_script,
  fire_timeout, fire_cleanup_timeout,
}

-- A step that failed in a call of the host is one that the script was to recover from.
abbrev pub IsRecovered : StepOutcome → Type 0
IsRecovered (err (facade_call_error message method error_code ensure_recoverable)) =
    ensure_recoverable ≡ true
IsRecovered other = Unit

abbrev pub HasRecovered : List SandboxStepResult → Type 0
HasRecovered = All (λ (s : SandboxStepResult). IsRecovered s.outcome)

-- Of a result: it is completed only if no step has failed in a call of the host but those that the
-- script was to recover from, and it is interrupted only by an abort.
pub record Honest (r : SandboxExecutionResult) : Type 0 where
  pub clean : r.status ≡ completed → HasRecovered r.step_results
  pub aborted :
      (e : SandboxExecutionError)
      → r.status ≡ interrupted e
      → (message : String) × (reason : String) × (e ≡ abort_error message reason)

find_facade_step_error-HasRecovered :
    (steps : List SandboxStepResult) → find_facade_step_error steps ≡ none → HasRecovered steps
unfolding find_facade_step_error
find_facade_step_error-HasRecovered [] h = tt
find_facade_step_error-HasRecovered (s ∷ rest) h =
    go s.outcome (find_facade_step_error-HasRecovered rest) h
  where
    go :
        (o : StepOutcome)
        → (find_facade_step_error rest ≡ none → HasRecovered rest)
        → elim o [
          | err (facade_call_error message method error_code ensure_recoverable) ↦
              if ensure_recoverable
              then find_facade_step_error rest
              else some (facade_call_error message method error_code ensure_recoverable)
          | _ ↦ find_facade_step_error rest
        ]
          ≡ none
        → IsRecovered o × HasRecovered rest
    go (err (facade_call_error message method error_code true)) later k = (refl, later k)
    go (err (facade_call_error message method error_code false)) later k = absurd (cc k)
    go other later k = (tt, later k)

abbrev pub Told : Phase → Type 0
Told (done r) = Honest r
Told other = Unit

finish-Told :
    (status : Status) (now : ℕ) (x : Execution)
    → (status ≡ completed → HasRecovered x.runtime.step_results)
    → ((e : SandboxExecutionError)
        → status ≡ interrupted e
        → (message : String) × (reason : String) × (e ≡ abort_error message reason))
    → Told (finish status now x).phase
unfolding finish
finish-Told status now x c a = record { clean = c; aborted = a }

failed-Told :
    (e : SandboxExecutionError) (now : ℕ) (x : Execution) → Told (finish (failed e) now x).phase
failed-Told e now x = finish-Told (failed e) now x (λ h. cc h) (λ f h. absurd (cc h))

ended_by-Told :
    (e : SandboxExecutionError) (now : ℕ) (x : Execution) → Told (finish (ended_by e) now x).phase
unfolding ended_by
ended_by-Told (abort_error message reason) now x =
    finish-Told _ now x (λ h. cc h) (λ f h. (message, reason, cc h))
ended_by-Told other now x = failed-Told other now x

fulfilled_with-Told :
    (o : Option SandboxExecutionError) (now : ℕ) (x : Execution)
    → o ≡ or_else x.runtime.last_host_call_error (find_facade_step_error x.runtime.step_results)
    → Told (fulfilled_with o now x).phase
unfolding fulfilled_with log_line
fulfilled_with-Told (some e) now x h = failed-Told e now _
fulfilled_with-Told none now x h =
    finish-Told completed now _
      (λ q. find_facade_step_error-HasRecovered x.runtime.step_results (ground (arith, h)))
      (λ f q. absurd (cc q))

rejected_with-Told :
    (o : Option SandboxExecutionError) (now : ℕ) (x : Execution)
    → Told (rejected_with o now x).phase
unfolding rejected_with
rejected_with-Told (some e) now x = tt
rejected_with-Told none now x = finish-Told request_refused now x (λ h. cc h) (λ f h. absurd (cc h))

waited-Told :
    (over : Bool) (e : SandboxExecutionError) (now : ℕ) (x : Execution)
    → Told x.phase
    → Told (waited over e now x).phase
unfolding waited cleaned
waited-Told true e now x h = ended_by-Told e now _
waited-Told false e now x h = h

proceed_from-Told :
    (limits : SandboxExecutionResourceLimits) (phase : Phase) (now : ℕ) (x : Execution)
    → Told x.phase
    → Told (proceed_from limits phase now x).phase
unfolding proceed_from script_fulfilled script_rejected
proceed_from-Told limits (settled (value v)) now x h = fulfilled_with-Told _ now x refl
proceed_from-Told limits (settled (throws t)) now x h = rejected_with-Told _ now x
proceed_from-Told limits (cleaning e waiting cut_off) now x h = waited-Told _ e now x h
proceed_from-Told limits other now x h = h

end_transpile-Told :
    (limits : SandboxExecutionResourceLimits) (phase : Phase) (now : ℕ)
    (o : Option SandboxExecutionError) (x : Execution)
    → Told x.phase
    → Told (end_transpile limits phase now o x).phase
unfolding end_transpile after_transpile
end_transpile-Told limits transpiling now (some e) x h = failed-Told e now _
end_transpile-Told limits transpiling now none x h = tt
end_transpile-Told limits other now o x h = h

end_preparation-Told :
    (phase : Phase) (o : Option Thrown) (x : Execution)
    → Told x.phase
    → Told (end_preparation phase o x).phase
unfolding end_preparation
end_preparation-Told preparing none x h = tt
end_preparation-Told preparing (some t) x h = tt
end_preparation-Told other o x h = h

end_script-Told :
    (phase : Phase) (o : Outcome) (x : Execution) → Told x.phase → Told (end_script phase o x).phase
unfolding end_script
end_script-Told running o x h = tt
end_script-Told other o x h = h

timeouts-Told :
    (limits : SandboxExecutionResourceLimits) (phase : Phase) (x : Execution)
    → Told x.phase
    → Told (fire_timeout limits phase x).phase × Told (fire_cleanup_timeout phase x).phase
unfolding fire_timeout fire_cleanup_timeout
timeouts-Told limits running x h = (tt, h)
timeouts-Told limits (cleaning e waiting cut_off) x h = (h, tt)
timeouts-Told limits other x h = (h, h)

on_runtime_if-Told :
    (b : Bool) (f : Runtime → Runtime) (x : Execution)
    → Told x.phase
    → Told (on_runtime_if b f x).phase
on_runtime_if-Told true f x h = h
on_runtime_if-Told false f x h = h

step-Told :
    (limits : SandboxExecutionResourceLimits) (toolchain : Bool) (x : Execution) (event : Event)
    → Told x.phase
    → Told (step limits toolchain x event).phase
unfolding step
step-Told limits toolchain x (transpiled now error) h =
    end_transpile-Told limits x.phase now error x h
step-Told limits toolchain x (prepared failure) h = end_preparation-Told x.phase failure x h
step-Told limits toolchain x (host_call kind action params now) h =
    on_runtime_if-Told (has_script x.phase) _ x h
step-Told limits toolchain x (goal_report goal_result now) h =
    on_runtime_if-Told (has_script x.phase) _ x h
step-Told limits toolchain x (host_answers i a) h = h
step-Told limits toolchain x (call_resumes i now) h = h
step-Told limits toolchain x (external_abort_signal reason) h =
    on_runtime_if-Told (has_listener x.phase) _ x h
step-Told limits toolchain x (script_ends outcome) h = end_script-Told x.phase outcome x h
step-Told limits toolchain x timeout_fires h = (timeouts-Told limits x.phase x h).0
step-Told limits toolchain x cleanup_timeout_fires h = (timeouts-Told limits x.phase x h).1
step-Told limits toolchain x (proceed now) h = proceed_from-Told limits x.phase now x h

run-Told :
    (limits : SandboxExecutionResourceLimits) (toolchain : Bool) (x : Execution)
    (events : List Event)
    → Told x.phase
    → Told (run limits toolchain x events).phase
unfolding run
run-Told limits toolchain x [] h = h
run-Told limits toolchain x (event ∷ events) h =
    run-Told limits toolchain (step limits toolchain x event) events
      (step-Told limits toolchain x event h)

begun-Told :
    (check : Option (Option SandboxExecutionError)) (now : ℕ) (x : Execution)
    → Told x.phase
    → Told (begun check now x).phase
unfolding begun log_line
begun-Told none now x h = finish-Told request_refused now x (λ q. cc q) (λ f q. absurd (cc q))
begun-Told (some (some e)) now x h = failed-Told e now _
begun-Told (some none) now x h = h

attached-Told :
    (control : Option SandboxExecutionControlState) (check : Option (Option SandboxExecutionError))
    (now : ℕ) (x : Execution)
    → Told x.phase
    → Told (attached control check now x).phase
unfolding attached
attached-Told none check now x h =
    finish-Told request_refused now x (λ q. cc q) (λ f q. absurd (cc q))
attached-Told (some control) check now x h = begun-Told check now _ h

-- The result of every history of an execution is honest: it is completed only if no step has
-- failed with a `FacadeCallError` but those marked `ensure_recoverable`, and the error of an
-- interruption is an `AbortError`.
pub run-Honest :
    (limits : SandboxExecutionResourceLimits) (toolchain : Bool) (source : String)
    (signal : Option AbortReason) (now : ℕ) (events : List Event) (result : SandboxExecutionResult)
    → (run limits toolchain (begin limits source signal now) events).phase ≡ done result
    → Honest result
unfolding begin
run-Honest limits toolchain source signal now events result h = subst Told h (
    run-Told limits toolchain (begin limits source signal now) events
      (attached-Told _ (check_sandbox_source_static_policy source) now _ tt))
