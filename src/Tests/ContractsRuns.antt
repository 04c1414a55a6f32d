-- ===== src/Tests/ContractsRuns.antt =====
-- ts-core/src/runtime/contracts.ts on concrete inputs.
use mc_servant.Base.{◌≡◌, refl, some}
use mc_servant.Runtime.Contracts.{
  env, SecretBinding, ExternalAuthState, ExternalAuthPlan, redacted_summary, CommandAction, ok,
  create_external_auth_execution_plan,
}

abbrev binding : SecretBinding
binding = record { source = env; reference = "BOT_KEY"; secret = "pw" }

abbrev login : CommandAction
login = record { command = "/login pw" }

abbrev login_plan : ExternalAuthPlan
login_plan = ExternalAuthPlan.pending login redacted_summary

abbrev waiting : ExternalAuthState
waiting = ExternalAuthState.pending env "BOT_KEY"

planned : create_external_auth_execution_plan waiting (some binding) ≡ ok login_plan
unfolding create_external_auth_execution_plan
planned = refl
