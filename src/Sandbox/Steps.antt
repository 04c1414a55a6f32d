-- ===== src/Sandbox/Steps.antt =====
-- The steps and log lines of an execution: ts-core/src/sandbox/contracts.ts,
-- ts-core/src/sandbox/result-factory.ts and ts-core/src/diagnostics/contracts.ts. Parameters and
-- results are the texts of their JSON; the time `t` of a line is left out.
use Prim.Native.String.{String}
use mc_servant.Base.{ℕ, Option, none, some, List, [], ◌∷◌, if◌then◌else◌}
use mc_servant.Sandbox.ExecutionControl.{SandboxExecutionError, facade_call_error}

pub data SandboxStepActionName : Type 0 where
  go_to mine cut_tree collect equip craft place ensure say report : SandboxStepActionName

abbrev pub action_text : SandboxStepActionName → String
action_text go_to = "goTo"
action_text mine = "mine"
action_text cut_tree = "cutTree"
action_text collect = "collect"
action_text equip = "equip"
action_text craft = "craft"
action_text place = "place"
action_text ensure = "ensure"
action_text say = "say"
action_text report = "report"

-- A step has a result or an error.
pub data StepOutcome : Type 0 where
  ok : (result : String) → StepOutcome
  err : SandboxExecutionError → StepOutcome

pub record SandboxStepResult : Type 0 where
  pub step_index : ℕ
  pub action : SandboxStepActionName
  pub params : String
  pub duration_ms : ℕ
  pub outcome : StepOutcome

pub data SandboxJsonlLine : Type 0 where
  precheck : (violation : Option SandboxExecutionError) → SandboxJsonlLine
  transpile : (error : Option SandboxExecutionError) → SandboxJsonlLine
  isolate_create : (mem_mb : ℕ) → SandboxJsonlLine
  facade_call : SandboxStepActionName → (params : String) → SandboxJsonlLine
  facade_result : SandboxStepActionName → (ms : ℕ) → StepOutcome → SandboxJsonlLine
  sandbox_complete sandbox_done : (steps ms : ℕ) → SandboxJsonlLine

-- `findFacadeStepError` of ts-core/src/sandbox/execution.ts.
unfoldable pub find_facade_step_error : List SandboxStepResult → Option SandboxExecutionError
find_facade_step_error [] = none
find_facade_step_error (s ∷ rest) =
    let later = find_facade_step_error rest in
    elim s.outcome [
      | err (facade_call_error message method error_code ensure_recoverable) ↦
          if ensure_recoverable
          then later
          else some (facade_call_error message method error_code ensure_recoverable)
      | _ ↦ later
    ]
