-- ===== src/Sandbox/Execution/NoSuccess.antt =====
-- Histories of an execution of ts-core/src/sandbox/execution.ts after its terminal error.
use mc_servant.Base.{
  ℕ, ◌≡◌, refl, Bool, true, false, Option, none, some, List, [], ◌∷◌, length, get_elem?,
}
use mc_servant.Sandbox.ExecutionControl.{
  SandboxExecutionError, SandboxExecutionResourceLimits, time_out,
}
use mc_servant.Sandbox.Errors.{Thrown}
use mc_servant.Sandbox.Steps.{SandboxStepResult}
use mc_servant.Sandbox.HostCall.{Outcome, value, throws, Runtime, begin_call}
use mc_servant.Sandbox.Resume.{report_goal}
use mc_servant.Sandbox.Execution.{
  Execution, Phase, transpiling, preparing, running, settled, cleaning, done, Event, transpiled,
  prepared, host_call, goal_report, host_answers, call_resumes, external_abort_signal, script_ends,
  timeout_fires, cleanup_timeout_fires, proceed, new_call, fulfilled_with, rejected_with, waited,
  cleaned, finish, log_line, proceed_from, script_fulfilled, script_rejected, after_transpile,
}
use mc_servant.Sandbox.Histories.{
  step, run, on_runtime_if, has_script, has_listener, end_transpile, end_preparation, end_script,
  fire_timeout, fire_cleanup_timeout, abort_by, resume_call, answer_call,
}
use mc_servant.Sandbox.Execution.Terminal.{succeeded, Ended, resume_entry-Ended, answer_entry-Ended}
use mc_servant.Sandbox.Execution.Kept.{
  kept-Ended, begin_call-Ended, report_goal-Ended, kept_by_abort, kept_by_timeout,
  abort_races-Ended, mark-Ended,
}

module _ (e : SandboxExecutionError) (steps : List SandboxStepResult) (calls : ℕ) where
  abbrev Holds : Execution → Type 0
  Holds x = Ended e steps calls x.runtime

  fulfilled_with-Ended :
      (o : Option SandboxExecutionError) (now : ℕ) (x : Execution)
      → Holds x
      → Holds (fulfilled_with o now x)
  unfolding fulfilled_with finish log_line
  fulfilled_with-Ended (some error) now x h =
      let m = mark-Ended e steps calls error x h in
      record { terminal = m.terminal; same = m.same; count = m.count }
  fulfilled_with-Ended none now x h = record {
    terminal = h.terminal;
    same = h.same;
    count = h.count;
  }

  rejected_with-Ended :
      (o : Option SandboxExecutionError) (now : ℕ) (x : Execution)
      → Holds x
      → Holds (rejected_with o now x)
  unfolding rejected_with finish
  rejected_with-Ended none now x h = h
  rejected_with-Ended (some error) now x h = mark-Ended e steps calls error x h

  waited-Ended :
      (over : Bool) (error : SandboxExecutionError) (now : ℕ) (x : Execution)
      → Holds x
      → Holds (waited over error now x)
  unfolding waited cleaned finish log_line
  waited-Ended true error now x h = record { terminal = h.terminal; same = h.same; count = h.count }
  waited-Ended false error now x h = h

  proceed_from-Ended :
      (limits : SandboxExecutionResourceLimits) (phase : Phase) (now : ℕ) (x : Execution)
      → Holds x
      → Holds (proceed_from limits phase now x)
  unfolding proceed_from script_fulfilled script_rejected
  proceed_from-Ended limits (settled (value v)) now x h = fulfilled_with-Ended _ now x h
  proceed_from-Ended limits (settled (throws t)) now x h = rejected_with-Ended _ now x h
  proceed_from-Ended limits (cleaning error waiting cut_off) now x h = waited-Ended _ error now x h
  proceed_from-Ended limits transpiling now x h = h
  proceed_from-Ended limits preparing now x h = h
  proceed_from-Ended limits running now x h = h
  proceed_from-Ended limits (done result) now x h = h

  end_transpile-Ended :
      (limits : SandboxExecutionResourceLimits) (phase : Phase) (now : ℕ)
      (o : Option SandboxExecutionError) (x : Execution)
      → Holds x
      → Holds (end_transpile limits phase now o x)
  unfolding end_transpile after_transpile finish log_line
  end_transpile-Ended limits transpiling now (some error) x h = record {
    terminal = h.terminal;
    same = h.same;
    count = h.count;
  }
  end_transpile-Ended limits transpiling now none x h = record {
    terminal = h.terminal;
    same = h.same;
    count = h.count;
  }
  end_transpile-Ended limits other now o x h = h

  end_preparation-Ended :
      (phase : Phase) (o : Option Thrown) (x : Execution)
      → Holds x
      → Holds (end_preparation phase o x)
  unfolding end_preparation
  end_preparation-Ended preparing none x h = h
  end_preparation-Ended preparing (some t) x h = h
  end_preparation-Ended other o x h = h

  end_script-Ended :
      (phase : Phase) (o : Outcome) (x : Execution) → Holds x → Holds (end_script phase o x)
  unfolding end_script
  end_script-Ended running o x h = h
  end_script-Ended other o x h = h

  fire_timeout-Ended :
      (limits : SandboxExecutionResourceLimits) (phase : Phase) (x : Execution)
      → Holds x
      → Holds (fire_timeout limits phase x)
  unfolding fire_timeout
  fire_timeout-Ended limits running x h =
      let control = time_out x.runtime.control limits in
      abort_races-Ended e steps calls (record (x.runtime) { control = control })
        (kept-Ended e steps calls control x.runtime
          (kept_by_timeout e steps calls limits x.runtime.control h.terminal) h)
  fire_timeout-Ended limits other x h = h

  fire_cleanup_timeout-Ended :
      (phase : Phase) (x : Execution) → Holds x → Holds (fire_cleanup_timeout phase x)
  unfolding fire_cleanup_timeout
  fire_cleanup_timeout-Ended (cleaning error waiting cut_off) x h = h
  fire_cleanup_timeout-Ended other x h = h

  on_runtime_if-Ended :
      (b : Bool) (f : Runtime → Runtime) (x : Execution)
      → Ended e steps calls (f x.runtime)
      → Holds x
      → Holds (on_runtime_if b f x)
  on_runtime_if-Ended true f x fh h = abort_races-Ended e steps calls (f x.runtime) fh
  on_runtime_if-Ended false f x fh h = h

  step-Ended :
      (limits : SandboxExecutionResourceLimits) (toolchain : Bool) (x : Execution) (event : Event)
      → Holds x
      → Holds (step limits toolchain x event)
  unfolding step resume_call answer_call
  step-Ended limits toolchain x (transpiled now error) h =
      end_transpile-Ended limits x.phase now error x h
  step-Ended limits toolchain x (prepared failure) h = end_preparation-Ended x.phase failure x h
  step-Ended limits toolchain x (host_call kind action params now) h =
      let call = new_call kind action params now in
      on_runtime_if-Ended (has_script x.phase) (begin_call limits toolchain call now) x
        (begin_call-Ended e steps calls limits toolchain call now x.runtime h) h
  step-Ended limits toolchain x (goal_report goal_result now) h =
      on_runtime_if-Ended (has_script x.phase) (report_goal limits goal_result now) x
        (report_goal-Ended e steps calls limits goal_result now x.runtime h) h
  step-Ended limits toolchain x (host_answers i a) h =
      abort_races-Ended e steps calls _
        (answer_entry-Ended e steps calls i a (get_elem? x.runtime.calls i) x.runtime h)
  step-Ended limits toolchain x (call_resumes i now) h =
      abort_races-Ended e steps calls _
        (resume_entry-Ended e steps calls limits i now (get_elem? x.runtime.calls i) x.runtime h)
  step-Ended limits toolchain x (external_abort_signal reason) h =
      on_runtime_if-Ended (has_listener x.phase) (abort_by reason) x
        (kept-Ended e steps calls _ x.runtime
          (kept_by_abort e steps calls x.runtime.control reason h.terminal) h)
        h
  step-Ended limits toolchain x (script_ends outcome) h = end_script-Ended x.phase outcome x h
  step-Ended limits toolchain x timeout_fires h = fire_timeout-Ended limits x.phase x h
  step-Ended limits toolchain x cleanup_timeout_fires h = fire_cleanup_timeout-Ended x.phase x h
  step-Ended limits toolchain x (proceed now) h = proceed_from-Ended limits x.phase now x h

  run-Ended :
      (limits : SandboxExecutionResourceLimits) (toolchain : Bool) (x : Execution)
      (events : List Event)
      → Holds x
      → Holds (run limits toolchain x events)
  unfolding run
  run-Ended limits toolchain x [] h = h
  run-Ended limits toolchain x (event ∷ events) h =
      run-Ended limits toolchain (step limits toolchain x event) events
        (step-Ended limits toolchain x event h)

-- Once an execution has a terminal error, whatever happens later: the terminal error stays the same,
-- no step succeeds any more, and no call of the host begins.
pub run-no_success :
    (limits : SandboxExecutionResourceLimits) (toolchain : Bool) (x : Execution)
    (later : List Event) (e : SandboxExecutionError)
    → x.runtime.control.terminal_error ≡ some e
    → let r = (run limits toolchain x later).runtime in
      (r.control.terminal_error ≡ some e)
      × (succeeded r.step_results ≡ succeeded x.runtime.step_results)
      × (length r.calls ≡ length x.runtime.calls)
run-no_success limits toolchain x later e h =
    let ended =
      run-Ended e (succeeded x.runtime.step_results) (length x.runtime.calls) limits toolchain x
        later (record { terminal = h; same = refl; count = refl }) in
    (ended.terminal, ended.same, ended.count)
