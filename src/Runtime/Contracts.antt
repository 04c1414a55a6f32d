-- ===== src/Runtime/Contracts.antt =====
-- ts-core/src/runtime/contracts.ts, with the types that it takes from ts-core/src/core-ports:
-- the status of a bot, external authentication and the ready gate.
pub mod Plans
pub mod Scaffold
use Prim.Native.String.{String, ◌++◌ as join}
use text.Mathlib.Text.{◌==◌ as str_eq}
use mc_servant.Base.{
  ℕ, Bool, true, false, not, ◌||◌, Option, none, some, List, [], ◌∷◌, ◌++◌, if◌then◌else◌,
}
use mc_servant.Base.Text.{is_blank}

pub data BotStatus : Type 0 where
  initializing idle executing reflexing dead shutdown : BotStatus

-- `===` on two statuses.
unfoldable pub same_status : BotStatus → BotStatus → Bool
same_status initializing initializing = true
same_status idle idle = true
same_status executing executing = true
same_status reflexing reflexing = true
same_status dead dead = true
same_status shutdown shutdown = true
same_status _ _ = false

pub data ThreatLevel : Type 0 where
  fight flee emergency : ThreatLevel

pub data ThreatRuleId : Type 0 where
  hostile_swarm hostile_close_armed hostile_close_unarmed bot_on_fire : ThreatRuleId
  critical_health falling : ThreatRuleId

-- The fields that the runtime reads; the measurements of the bot are left out.
pub record ThreatAssessment : Type 0 where
  pub rule_id : ThreatRuleId
  pub level : ThreatLevel
  pub reason : String
  pub interrupt_required : Bool

pub data ControlCommand : Type 0 where
  interrupt cancel : ControlCommand

pub data SystemCause : Type 0 where
  death shutdown stalled : SystemCause

pub data InterruptSource : Type 0 where
  control : ControlCommand → Option ℕ → InterruptSource
  reflex : ThreatAssessment → InterruptSource
  triage : ℕ → InterruptSource
  system : SystemCause → InterruptSource

pub record InterruptSignal : Type 0 where
  pub source : InterruptSource
  pub reason : String

pub data SecretSource : Type 0 where
  env bot_config : SecretSource

unfoldable pub same_source : SecretSource → SecretSource → Bool
same_source env env = true
same_source bot_config bot_config = true
same_source _ _ = false

pub data FailureReason : Type 0 where
  missing_injected_secret : FailureReason

pub data ExternalAuthStatus : Type 0 where
  not_required pending authenticated failed : ExternalAuthStatus

-- The union by status; `required` and `entrypoint` are functions of the status, below.
pub data ExternalAuthState : Type 0 where
  not_required : ExternalAuthState
  pending : SecretSource → String → ExternalAuthState
  authenticated : SecretSource → String → ExternalAuthState
  failed : FailureReason → Option SecretSource → Option String → ExternalAuthState

abbrev pub auth_status : ExternalAuthState → ExternalAuthStatus
auth_status ExternalAuthState.not_required = ExternalAuthStatus.not_required
auth_status (ExternalAuthState.pending s r) = ExternalAuthStatus.pending
auth_status (ExternalAuthState.authenticated s r) = ExternalAuthStatus.authenticated
auth_status (ExternalAuthState.failed f s r) = ExternalAuthStatus.failed

pub record SecretBinding : Type 0 where
  pub source : SecretSource
  pub reference : String
  pub secret : String

pub data Failure : Type 0 where
  reference_empty secret_empty secret_required secret_mismatch : Failure

pub data Result {ℓ} (A : Type ℓ) : Type ℓ where
  ok : A → Result A
  err : Failure → Result A

infixl 5 ◌>>=◌
abbrev pub ◌>>=◌ {ℓ κ} : {A : Type ℓ} {B : Type κ} → Result A → (A → Result B) → Result B
ok a >>= f = f a
err e >>= f = err e

unfoldable pub create_external_auth_secret_binding :
    SecretSource → String → String → Result SecretBinding
create_external_auth_secret_binding source reference secret =
    if is_blank reference
    then err reference_empty
    else if is_blank secret
    then err secret_empty
    else ok (record { source = source; reference = reference; secret = secret })

-- Its kind, entrypoint and target have one value each, and a retry is always allowed.
pub record CommandAction : Type 0 where
  pub command : String

unfoldable pub create_external_auth_command_action : SecretBinding → CommandAction
create_external_auth_command_action b = record { command = join "/login " b.secret }

pub record ActionSummary : Type 0 where
  pub command_preview : String

abbrev pub redacted_summary : ActionSummary
redacted_summary = record { command_preview = "/login <redacted>" }

pub data ExternalAuthPlan : Type 0 where
  not_required : ExternalAuthPlan
  pending : CommandAction → ActionSummary → ExternalAuthPlan
  authenticated : ExternalAuthPlan
  failed : FailureReason → Option SecretSource → Option String → ExternalAuthPlan

abbrev pub plan_status : ExternalAuthPlan → ExternalAuthStatus
plan_status ExternalAuthPlan.not_required = ExternalAuthStatus.not_required
plan_status (ExternalAuthPlan.pending a s) = ExternalAuthStatus.pending
plan_status ExternalAuthPlan.authenticated = ExternalAuthStatus.authenticated
plan_status (ExternalAuthPlan.failed f s r) = ExternalAuthStatus.failed

abbrev pub next_action : ExternalAuthPlan → Option CommandAction
next_action (ExternalAuthPlan.pending a s) = some a
next_action _ = none

abbrev pub ready_for_idle : ExternalAuthPlan → Bool
ready_for_idle ExternalAuthPlan.not_required = true
ready_for_idle ExternalAuthPlan.authenticated = true
ready_for_idle _ = false

unfoldable pub resolve_external_auth_execution_secret :
    SecretSource → String → Option SecretBinding → Result SecretBinding
unfolding same_source
resolve_external_auth_execution_secret source reference none = err secret_required
resolve_external_auth_execution_secret source reference (some b) =
    if not (same_source b.source source) || not (str_eq b.reference reference)
    then err secret_mismatch
    else ok b

unfoldable pub create_external_auth_execution_plan :
    ExternalAuthState → Option SecretBinding → Result ExternalAuthPlan
unfolding resolve_external_auth_execution_secret create_external_auth_command_action
create_external_auth_execution_plan ExternalAuthState.not_required secret =
    ok ExternalAuthPlan.not_required
create_external_auth_execution_plan (ExternalAuthState.pending source reference) secret =
    resolve_external_auth_execution_secret source reference secret >>= λ b.
    ok (ExternalAuthPlan.pending (create_external_auth_command_action b) redacted_summary)
create_external_auth_execution_plan (ExternalAuthState.authenticated source reference) secret =
    ok ExternalAuthPlan.authenticated
create_external_auth_execution_plan (ExternalAuthState.failed f source reference) secret =
    ok (ExternalAuthPlan.failed f source reference)

pub data ReadyBlockReason : Type 0 where
  runtime_initializing runtime_busy bot_dead runtime_shutdown : ReadyBlockReason
  external_auth_pending external_auth_failed : ReadyBlockReason

pub data GateStatus : Type 0 where
  ready blocked : GateStatus

pub record ReadyGate : Type 0 where
  pub ready : Bool
  pub status : GateStatus
  pub runtime_status : BotStatus
  pub external_auth_status : ExternalAuthStatus
  pub can_emit_bot_ready : Bool
  pub can_open_realtime : Bool
  pub can_open_http : Bool
  pub blocked_by : List ReadyBlockReason

blocked_by_status : BotStatus → List ReadyBlockReason
blocked_by_status initializing = runtime_initializing ∷ []
blocked_by_status executing = runtime_busy ∷ []
blocked_by_status reflexing = runtime_busy ∷ []
blocked_by_status dead = bot_dead ∷ []
blocked_by_status shutdown = runtime_shutdown ∷ []
blocked_by_status idle = []

blocked_by_auth : ExternalAuthStatus → List ReadyBlockReason
blocked_by_auth ExternalAuthStatus.pending = external_auth_pending ∷ []
blocked_by_auth ExternalAuthStatus.failed = external_auth_failed ∷ []
blocked_by_auth _ = []

abbrev is_empty : List ReadyBlockReason → Bool
is_empty [] = true
is_empty (x ∷ xs) = false

unfoldable pub create_runtime_ready_gate : BotStatus → ExternalAuthState → ReadyGate
unfolding blocked_by_status blocked_by_auth
create_runtime_ready_gate status auth =
    let blocked_by = blocked_by_status status ++ blocked_by_auth (auth_status auth) in
    let ready = is_empty blocked_by in
    record {
      ready = ready;
      status = if ready then GateStatus.ready else blocked;
      runtime_status = status;
      external_auth_status = auth_status auth;
      can_emit_bot_ready = ready;
      can_open_realtime = ready;
      can_open_http = ready;
      blocked_by = blocked_by;
    }
