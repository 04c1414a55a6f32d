-- ===== src/Sandbox/HostCall.antt =====
-- ts-core/src/sandbox/host-call.ts: what a script's calls of its host do, with
-- `trackSandboxHostCall` of ts-core/src/sandbox/execution-control.ts. Methods and parameters come
-- checked and normalised: a bad one throws, and changes no more than a call that is refused. A call
-- has two moments, its beginning and its going on after the race of the host's answer with the abort.
use Prim.Native.String.{String, ◌++◌}
use mc_servant.Base.{
  ℕ, Bool, true, false, not, ◌&&◌, Option, none, some, List, [], ◌∷◌, map, if◌then◌else◌, is_none,
}
use mc_servant.Base.{◌++◌ as ◌⧺◌}
use mc_servant.Sandbox.ExecutionControl.{
  SandboxExecutionError, SandboxExecutionResourceLimits, SandboxExecutionControlState,
  assert_sandbox_host_call_allowed,
}
use mc_servant.Sandbox.Errors.{
  Thrown, native_error, sandbox_error, create_toolchain_capability_facade_error,
}
use mc_servant.Sandbox.Steps.{
  SandboxStepActionName, craft, place, ensure, action_text, SandboxStepResult, SandboxJsonlLine,
  facade_call,
}

-- `handleSandboxHostCall`, `handleSandboxTryHostCall`, and `handleSandboxHostRead` of a sleep or of
-- another method.
pub data Kind : Type 0 where
  act attempt read sleep : Kind

-- How a promise is settled.
pub data Outcome : Type 0 where
  value : String → Outcome
  throws : Thrown → Outcome

-- How the host answers: a toolchain capability may answer with a failure.
pub data HostAnswer : Type 0 where
  settles : Outcome → HostAnswer
  capability_failure :
      (code message detail_text : String) → (ensure_recoverable : Bool) → HostAnswer

-- What the script gets from a call.
pub data Reply : Type 0 where
  returned : String → Reply
  recovered : SandboxExecutionError → Reply
  rejected : Thrown → Reply

-- A call that has begun. `raced` is the outcome of its race, `settled` tells whether the host has
-- answered, and `reply` is set when the call has ended. It is an active host call until then.
pub record HostCall : Type 0 where
  pub kind : Kind
  pub action : SandboxStepActionName
  pub params : String
  pub started_at : ℕ
  pub raced : Option Outcome
  pub settled : Bool
  pub reply : Option Reply

-- `SandboxHostCallRuntime`, with the calls.
pub record Runtime : Type 0 where
  pub control : SandboxExecutionControlState
  pub step_results : List SandboxStepResult
  pub phase_logs : List SandboxJsonlLine
  pub last_host_call_error : Option SandboxExecutionError
  pub calls : List HostCall

-- `isToolchainSandboxAction`.
unfoldable pub is_toolchain_sandbox_action : SandboxStepActionName → Bool
is_toolchain_sandbox_action craft = true
is_toolchain_sandbox_action place = true
is_toolchain_sandbox_action ensure = true
is_toolchain_sandbox_action other = false

-- The end of `executeSandboxBotHostCall`.
unfoldable pub outcome_of : SandboxStepActionName → HostAnswer → Outcome
outcome_of action (settles outcome) = outcome
outcome_of action (capability_failure code message detail_text ensure_recoverable) =
    throws (create_toolchain_capability_facade_error code message detail_text ensure_recoverable)

-- The race of a call is settled once.
unfoldable pub race : Outcome → HostCall → HostCall
race outcome c = if is_none c.raced then record c { raced = some outcome } else c

-- The host answers a call.
unfoldable pub answer : HostAnswer → HostCall → HostCall
answer a c = if c.settled then c else race (outcome_of c.action a) (record c { settled = true })

-- `waitForSandboxAbort`: an abort settles every race that is open.
unfoldable pub abort_races_with : Option SandboxExecutionError → Runtime → Runtime
abort_races_with none r = r
abort_races_with (some error) r = record r {
  calls = map (race (throws (sandbox_error error))) r.calls;
}

unfoldable pub abort_races : Runtime → Runtime
abort_races r = abort_races_with r.control.aborted r

-- The beginning of `executeSandboxBotHostCall`: a toolchain that is not configured throws.
unfoldable pub ask_host : (toolchain : Bool) → HostCall → HostCall
ask_host toolchain c =
    if is_toolchain_sandbox_action c.action && not toolchain
    then answer
        (settles (
          throws (
            native_error
              ("Toolchain capability "
                ++ action_text c.action
                ++ " is not configured in current sandbox")
              none false)))
        c
    else c

abbrev pub is_logged : Kind → Bool
is_logged act = true
is_logged attempt = true
is_logged other = false

-- A call that is refused is no call.
unfoldable pub admit :
    (toolchain : Bool)
    → HostCall
    → SandboxExecutionControlState
    → (refusal : Option String) → Runtime
    → Runtime
admit toolchain call control (some message) r = record r { control = control }
admit toolchain call control none r = record r {
  control = control;
  calls = r.calls ⧺ ((if is_logged call.kind then ask_host toolchain call else call) ∷ []);
  phase_logs =
      if is_logged call.kind
      then r.phase_logs ⧺ (facade_call call.action call.params ∷ [])
      else r.phase_logs;
}

abbrev pub new_call : Kind → SandboxStepActionName → (params : String) → (now : ℕ) → HostCall
new_call kind action params now = record {
  kind = kind;
  action = action;
  params = params;
  started_at = now;
  raced = none;
  settled = false;
  reply = none;
}

-- The beginning of a call.
unfoldable pub begin_call :
    SandboxExecutionResourceLimits → (toolchain : Bool) → HostCall → (now : ℕ) → Runtime → Runtime
begin_call limits toolchain call now r =
    let (control, refusal) = assert_sandbox_host_call_allowed r.control limits now in
    admit toolchain call control refusal r
