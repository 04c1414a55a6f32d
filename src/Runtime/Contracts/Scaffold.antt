-- ===== src/Runtime/Contracts/Scaffold.antt =====
-- The states of external authentication, their public projection and the scaffold that a bot
-- starts from: ts-core/src/runtime/contracts.ts. An optional field that is absent is null here,
-- as `?? null` makes it.
use Prim.Native.String.{String, ◌++◌ as join}
use mc_servant.Base.{Bool, true, false, Option, none, some, List, [], ◌∷◌, ◌≡◌, refl, ◌↔◌, arith}
use mc_servant.Runtime.Contracts.{
  BotStatus, initializing, SecretSource, FailureReason, ExternalAuthState, ExternalAuthStatus,
  SecretBinding, Result, ok, err, ◌>>=◌, ActionSummary, redacted_summary, ExternalAuthPlan,
  plan_status, next_action, create_external_auth_execution_plan, ReadyGate,
  create_runtime_ready_gate, SystemCause, InterruptSource, InterruptSignal,
  create_external_auth_command_action,
}
use mc_servant.Runtime.Contracts.Plans.{
  create_external_auth_execution_plan-ready, create_external_auth_execution_plan-pending,
}

-- The union that `createExternalAuthState` takes.
pub data AuthInput : Type 0 where
  not_required : AuthInput
  pending authenticated : SecretBinding → AuthInput
  failed : FailureReason → Option SecretSource → Option String → AuthInput

unfoldable create_external_auth_state : AuthInput → ExternalAuthState
create_external_auth_state AuthInput.not_required = ExternalAuthState.not_required
create_external_auth_state (AuthInput.pending b) = ExternalAuthState.pending b.source b.reference
create_external_auth_state (AuthInput.authenticated b) =
    ExternalAuthState.authenticated b.source b.reference
create_external_auth_state (AuthInput.failed f source reference) =
    ExternalAuthState.failed f source reference

data Entrypoint : Type 0 where
  no_entrypoint game_chat_command : Entrypoint

-- The fields that only a failed state has.
record FailureDetails : Type 0 where
  failure_reason : FailureReason
  secret_source : Option SecretSource
  secret_reference : Option String

record ExternalAuthPublicState : Type 0 where
  status : ExternalAuthStatus
  required : Bool
  entrypoint : Entrypoint
  action_summary : Option ActionSummary
  details : Option FailureDetails

unfoldable create_external_auth_public_state : ExternalAuthState → ExternalAuthPublicState
create_external_auth_public_state ExternalAuthState.not_required = record {
  status = ExternalAuthStatus.not_required;
  required = false;
  entrypoint = no_entrypoint;
  action_summary = none;
  details = none;
}
create_external_auth_public_state (ExternalAuthState.pending source reference) = record {
  status = ExternalAuthStatus.pending;
  required = true;
  entrypoint = game_chat_command;
  action_summary = some redacted_summary;
  details = none;
}
create_external_auth_public_state (ExternalAuthState.authenticated source reference) = record {
  status = ExternalAuthStatus.authenticated;
  required = true;
  entrypoint = game_chat_command;
  action_summary = none;
  details = none;
}
create_external_auth_public_state (ExternalAuthState.failed f source reference) = record {
  status = ExternalAuthStatus.failed;
  required = true;
  entrypoint = game_chat_command;
  action_summary = none;
  details =
      some record { failure_reason = f; secret_source = source; secret_reference = reference };
}

data TaskKind : Type 0 where
  code : TaskKind

record RuntimeScaffold : Type 0 where
  default_status : BotStatus
  external_auth : ExternalAuthState
  external_auth_plan : ExternalAuthPlan
  ready_gate : ReadyGate
  supported_task_kinds : List TaskKind
  interrupt_template : InterruptSignal

-- `input.externalAuth ?? createExternalAuthState({ status: "not_required" })`.
abbrev given_auth : Option ExternalAuthState → ExternalAuthState
given_auth (some auth) = auth
given_auth none = create_external_auth_state AuthInput.not_required

unfoldable create_runtime_scaffold :
    Option ExternalAuthState → Option SecretBinding → Result RuntimeScaffold
create_runtime_scaffold auth secret =
    let external_auth = given_auth auth in
    create_external_auth_execution_plan external_auth secret >>= λ plan. ok record {
      default_status = initializing;
      external_auth = external_auth;
      external_auth_plan = plan;
      ready_gate = create_runtime_ready_gate initializing external_auth;
      supported_task_kinds = code ∷ [];
      interrupt_template = record {
        source = InterruptSource.system SystemCause.shutdown;
        reason = "placeholder";
      };
    }

-- Where the plan of a state is made, the public state has its status, and shows an action exactly
-- when the plan has one to take.
create_external_auth_public_state-plan :
    (auth : ExternalAuthState) (secret : Option SecretBinding) (plan : ExternalAuthPlan)
    → create_external_auth_execution_plan auth secret ≡ ok plan
    → let p = create_external_auth_public_state auth in
      (p.status ≡ plan_status plan) × ((p.action_summary ≡ none) ↔ (next_action plan ≡ none))
unfolding create_external_auth_public_state create_external_auth_execution_plan
create_external_auth_public_state-plan auth secret plan h = ground arith

command :
    (b : SecretBinding) → (create_external_auth_command_action b).command ≡ join "/login " b.secret
unfolding create_external_auth_command_action
command b = refl

-- The state that a binding is made pending with always gets its plan from that binding.
create_external_auth_state-plan :
    (b : SecretBinding)
    → (plan : ExternalAuthPlan) × (create_external_auth_execution_plan
          (create_external_auth_state (AuthInput.pending b))
          (some b)
        ≡ ok plan)
unfolding create_external_auth_state
create_external_auth_state-plan b =
    let planned =
      create_external_auth_execution_plan-pending b.source b.reference b
        (create_external_auth_command_action b) in
    let p = planned.1 (refl, refl, command b) in (p.0, p.1)

bind_ok :
    {A B : Type 0} (r : Result A) (f : A → Result B) (b : B)
    → (r >>= f) ≡ ok b
    → (a : A) × (r ≡ ok a) × (f a ≡ ok b)
bind_ok (ok a) f b h = (a, refl, h)
bind_ok (err e) f b h = ground (arith, h)

-- The gate of a scaffold is closed: the bot is still initializing.
create_runtime_scaffold-gate :
    (auth : Option ExternalAuthState) (secret : Option SecretBinding) (s : RuntimeScaffold)
    → create_runtime_scaffold auth secret ≡ ok s
    → (s.ready_gate.ready ≡ false)
      × (s.ready_gate.runtime_status ≡ s.default_status)
      × (plan_status s.external_auth_plan ≡ s.ready_gate.external_auth_status)
unfolding create_runtime_scaffold create_runtime_ready_gate
create_runtime_scaffold-gate auth secret s h =
    let made = bind_ok (create_external_auth_execution_plan (given_auth auth) secret) _ s h in
    ground (
      arith,
      made.2,
      create_external_auth_execution_plan-ready (given_auth auth) secret made.0 made.1,
    )
