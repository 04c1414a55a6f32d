-- ===== src/Sandbox/Execution/Kept.antt =====
-- What keeps the terminal error of an execution of ts-core/src/sandbox/execution.ts.
use Prim.Native.String.{String}
use mc_servant.Base.{ℕ, ◌≡◌, sym, subst, Bool, Option, some, List, arith}
use mc_servant.Sandbox.ExecutionControl.{
  AbortReason, SandboxExecutionError, SandboxExecutionResourceLimits, SandboxExecutionControlState,
  time_out, mark_sandbox_terminal_error, external_abort, abort_sandbox_host_calls,
}
use mc_servant.Sandbox.Steps.{SandboxStepResult}
use mc_servant.Sandbox.HostCall.{HostCall, Runtime, abort_races, begin_call, admit}
use mc_servant.Sandbox.Resume.{admit_report, report_goal}
use mc_servant.Sandbox.Execution.{Execution, mark}
use mc_servant.Sandbox.Execution.Terminal.{Ended, refused, abort_races_with-Ended}

module _ (e : SandboxExecutionError) (steps : List SandboxStepResult) (calls : ℕ) where
  abbrev Holds : Execution → Type 0
  Holds x = Ended e steps calls x.runtime

  pub kept-Ended :
      (control : SandboxExecutionControlState) (r : Runtime)
      → control.terminal_error ≡ some e
      → Ended e steps calls r
      → Ended e steps calls (record r { control = control })
  kept-Ended control r q h = record { terminal = q; same = h.same; count = h.count }

  pub begin_call-Ended :
      (limits : SandboxExecutionResourceLimits) (toolchain : Bool) (call : HostCall) (now : ℕ)
      (r : Runtime)
      → Ended e steps calls r
      → Ended e steps calls (begin_call limits toolchain call now r)
  unfolding begin_call admit
  begin_call-Ended limits toolchain call now r h =
      subst
        (λ (p : SandboxExecutionControlState × Option String).
          Ended e steps calls (admit toolchain call p.0 p.1 r))
        (sym (refused e steps calls limits r.control now h.terminal))
        (kept-Ended r.control r h.terminal h)

  pub report_goal-Ended :
      (limits : SandboxExecutionResourceLimits) (goal_result : String) (now : ℕ) (r : Runtime)
      → Ended e steps calls r
      → Ended e steps calls (report_goal limits goal_result now r)
  unfolding report_goal admit_report
  report_goal-Ended limits goal_result now r h =
      subst
        (λ (p : SandboxExecutionControlState × Option String).
          Ended e steps calls (admit_report goal_result now p.0 p.1 r))
        (sym (refused e steps calls limits r.control now h.terminal))
        (kept-Ended r.control r h.terminal h)

  pub kept_by_abort :
      (control : SandboxExecutionControlState) (reason : AbortReason)
      → control.terminal_error ≡ some e
      → (external_abort control reason).terminal_error ≡ some e
  unfolding external_abort mark_sandbox_terminal_error abort_sandbox_host_calls
  kept_by_abort control reason h = ground arith

  pub kept_by_timeout :
      (limits : SandboxExecutionResourceLimits) (control : SandboxExecutionControlState)
      → control.terminal_error ≡ some e
      → (time_out control limits).terminal_error ≡ some e
  unfolding time_out mark_sandbox_terminal_error abort_sandbox_host_calls
  kept_by_timeout limits control h = ground arith

  pub kept_by_mark :
      (error : SandboxExecutionError) (control : SandboxExecutionControlState)
      → control.terminal_error ≡ some e
      → (mark_sandbox_terminal_error control error).terminal_error ≡ some e
  unfolding mark_sandbox_terminal_error abort_sandbox_host_calls
  kept_by_mark error control h = ground arith

  pub abort_races-Ended :
      (r : Runtime) → Ended e steps calls r → Ended e steps calls (abort_races r)
  unfolding abort_races
  abort_races-Ended r h = abort_races_with-Ended e steps calls r.control.aborted r h

  pub mark-Ended : (error : SandboxExecutionError) (x : Execution) → Holds x → Holds (mark error x)
  unfolding mark
  mark-Ended error x h =
      let r = x.runtime in
      let control = mark_sandbox_terminal_error r.control error in
      abort_races-Ended (record r { control = control })
        (kept-Ended control r (kept_by_mark error r.control h.terminal) h)
