-- ===== src/Runtime/Contracts/Plans.antt =====
-- The plan of external authentication and the ready gate: ts-core/src/runtime/contracts.ts.
use Prim.Native.String.{String, ◌++◌ as join}
use text.Mathlib.TextEquality.{eq_iff}
use mc_servant.Base.{◌≡◌, refl, ◌≢◌, ◌↔◌, true, Option, some, List, arith}
use mc_servant.Runtime.Contracts.{
  BotStatus, idle, SecretSource, same_source, SecretBinding, ExternalAuthState, ExternalAuthStatus,
  auth_status, ExternalAuthPlan, plan_status, next_action, ready_for_idle, CommandAction,
  redacted_summary, ok, create_external_auth_execution_plan, create_runtime_ready_gate,
}

-- A plan that `createExternalAuthExecutionPlan` returns has the status of the state, and it lets
-- the bot be idle exactly when the ready gate of an idle bot is open.
pub create_external_auth_execution_plan-ready :
    (auth : ExternalAuthState) (secret : Option SecretBinding) (plan : ExternalAuthPlan)
    → create_external_auth_execution_plan auth secret ≡ ok plan
    → (plan_status plan ≡ auth_status auth)
      × (ready_for_idle plan ≡ (create_runtime_ready_gate idle auth).ready)
unfolding create_external_auth_execution_plan create_runtime_ready_gate
create_external_auth_execution_plan-ready auth secret plan h = ground arith

same_source_iff : (s t : SecretSource) → (same_source s t ≡ true) ↔ (s ≡ t)
unfolding same_source
same_source_iff s t = ground arith

-- A pending login is planned exactly when a secret is given whose source and reference are those
-- of the state; its command is then `/login` with the secret.
pub create_external_auth_execution_plan-pending :
    (source : SecretSource) (reference : String) (b : SecretBinding) (action : CommandAction)
    → ((p : ExternalAuthPlan) × (create_external_auth_execution_plan
            (ExternalAuthState.pending source reference)
            (some b)
          ≡ ok p)
        × (next_action p ≡ some action))
      ↔ ((b.source ≡ source)
          × (b.reference ≡ reference)
          × (action.command ≡ join "/login " b.secret))
unfolding create_external_auth_execution_plan
create_external_auth_execution_plan-pending source reference b action = (
  λ p. ground (arith, same_source_iff b.source source, eq_iff b.reference reference, p),
  λ p. (
    ExternalAuthPlan.pending action redacted_summary,
    ground (arith, same_source_iff b.source source, eq_iff b.reference reference, p),
    refl,
  ),
)

-- The gate is open exactly when the bot is idle and authentication neither waits nor has failed;
-- realtime, HTTP and the ready event follow it, and a closed gate gives a reason.
pub create_runtime_ready_gate-ready :
    (status : BotStatus) (auth : ExternalAuthState)
    → let g = create_runtime_ready_gate status auth in
      ((g.ready ≡ true) ↔ (
        (status ≡ idle)
        × (auth_status auth ≢ ExternalAuthStatus.pending)
        × (auth_status auth ≢ ExternalAuthStatus.failed)))
      × ((g.ready ≡ true) ↔ (g.blocked_by ≡ List.[]))
      × (g.can_emit_bot_ready ≡ g.ready)
      × (g.can_open_realtime ≡ g.ready)
      × (g.can_open_http ≡ g.ready)
unfolding create_runtime_ready_gate
create_runtime_ready_gate-ready status auth = ground arith
