-- ===== src/Sandbox/Histories.antt =====
-- What the script, the host, the timers and the external signal do to an execution of
-- ts-core/src/sandbox/execution.ts, one event after the other.
use mc_servant.Base.{ℕ, Bool, true, false, Option, none, some, List, [], ◌∷◌, get_elem?, set}
use mc_servant.Sandbox.ExecutionControl.{
  SandboxExecutionError, SandboxExecutionResourceLimits, AbortReason, time_out, external_abort,
  create_sandbox_timeout_error,
}
use mc_servant.Sandbox.Errors.{Thrown, sandbox_error}
use mc_servant.Sandbox.HostCall.{
  Outcome, throws, HostAnswer, Reply, HostCall, Runtime, answer, abort_races, begin_call, new_call,
}
use mc_servant.Sandbox.Resume.{resume_raced, report_goal}
use mc_servant.Sandbox.Execution.{
  proceed_from, after_transpile, Phase, Execution, Event, transpiling, preparing, running, settled,
  cleaning, done, transpiled, prepared, host_call, goal_report, host_answers, call_resumes,
  external_abort_signal, script_ends, timeout_fires, cleanup_timeout_fires, proceed,
}

-- Whether the isolate is there for the script to call from.
unfoldable pub has_script : Phase → Bool
has_script transpiling = false
has_script preparing = false
has_script (done result) = false
has_script other = true

-- The external listener is removed at the end; where an early return leaves it, nobody sees its effect.
unfoldable pub has_listener : Phase → Bool
has_listener (done result) = false
has_listener other = true

-- A call with this index goes on, if its race is settled and it has not ended.
unfoldable pub resume_open :
    SandboxExecutionResourceLimits
    → (call now : ℕ) → HostCall
    → Option Reply
    → Option Outcome
    → Runtime
    → Runtime
resume_open limits i now c none (some outcome) r =
    let (after, reply) = resume_raced limits c now outcome r in
    record after { calls = set after.calls i (record c { reply = some reply }) }
resume_open limits i now c reply raced r = r

unfoldable pub resume_entry :
    SandboxExecutionResourceLimits → (call now : ℕ) → Option HostCall → Runtime → Runtime
resume_entry limits i now none r = r
resume_entry limits i now (some c) r = resume_open limits i now c c.reply c.raced r

unfoldable pub resume_call : SandboxExecutionResourceLimits → (call now : ℕ) → Runtime → Runtime
resume_call limits i now r = resume_entry limits i now (get_elem? r.calls i) r

unfoldable pub answer_entry : (call : ℕ) → HostAnswer → Option HostCall → Runtime → Runtime
answer_entry i a none r = r
answer_entry i a (some c) r = record r { calls = set r.calls i (answer a c) }

unfoldable pub answer_call : (call : ℕ) → HostAnswer → Runtime → Runtime
answer_call i a r = answer_entry i a (get_elem? r.calls i) r

abbrev pub on_runtime : (Runtime → Runtime) → Execution → Execution
on_runtime f x = record x { runtime = abort_races (f x.runtime) }

abbrev pub on_runtime_if : Bool → (Runtime → Runtime) → Execution → Execution
on_runtime_if true f x = on_runtime f x
on_runtime_if false f x = x

-- What ends an `await` in one phase changes nothing in another.
unfoldable pub end_transpile :
    SandboxExecutionResourceLimits
    → Phase
    → (now : ℕ) → Option SandboxExecutionError
    → Execution
    → Execution
end_transpile limits transpiling now error x = after_transpile limits now error x
end_transpile limits other now error x = x

unfoldable pub end_preparation : Phase → Option Thrown → Execution → Execution
end_preparation preparing none x = record x { phase = running }
end_preparation preparing (some thrown) x = record x { phase = settled (throws thrown) }
end_preparation other failure x = x

unfoldable pub end_script : Phase → Outcome → Execution → Execution
end_script running outcome x = record x { phase = settled outcome }
end_script other outcome x = x

unfoldable pub fire_timeout : SandboxExecutionResourceLimits → Phase → Execution → Execution
fire_timeout limits running x = record x {
  phase = settled (throws (sandbox_error (create_sandbox_timeout_error limits)));
  runtime = abort_races (record (x.runtime) { control = time_out x.runtime.control limits });
}
fire_timeout limits other x = x

unfoldable pub fire_cleanup_timeout : Phase → Execution → Execution
fire_cleanup_timeout (cleaning e waiting cut_off) x = record x { phase = cleaning e waiting true }
fire_cleanup_timeout other x = x

abbrev pub abort_by : AbortReason → Runtime → Runtime
abort_by reason r = record r { control = external_abort r.control reason }

module _ (limits : SandboxExecutionResourceLimits) (toolchain : Bool) where
  unfoldable pub step : Execution → Event → Execution
  step x (transpiled now error) = end_transpile limits x.phase now error x
  step x (prepared failure) = end_preparation x.phase failure x
  step x (host_call kind action params now) =
      on_runtime_if (has_script x.phase)
        (begin_call limits toolchain (new_call kind action params now) now) x
  step x (goal_report goal_result now) =
      on_runtime_if (has_script x.phase) (report_goal limits goal_result now) x
  step x (host_answers i a) = on_runtime (answer_call i a) x
  step x (call_resumes i now) = on_runtime (resume_call limits i now) x
  step x (external_abort_signal reason) = on_runtime_if (has_listener x.phase) (abort_by reason) x
  step x (script_ends outcome) = end_script x.phase outcome x
  step x timeout_fires = fire_timeout limits x.phase x
  step x cleanup_timeout_fires = fire_cleanup_timeout x.phase x
  step x (proceed now) = proceed_from limits x.phase now x

  unfoldable pub run : Execution → List Event → Execution
  run x [] = x
  run x (event ∷ events) = run (step x event) events
