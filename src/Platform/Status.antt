-- ===== src/Platform/Status.antt =====
-- agentgatewayplatform_controller.go: a platform's conditions, and `updateStatus`.
use agentgateway_educates_op.Base.{String, Bool, Text}
use agentgateway_educates_op.Api.Types.{AgentGatewayPlatform, PlatformPhase}
use agentgateway_educates_op.Kube.{Packages, Cluster}
use agentgateway_educates_op.Kube.Monad.{Action, State, ◌>>=◌, get_platform, update_platform_status}
use agentgateway_educates_op.Session.Status.{set_condition}

abbrev pub platform_finalizer : String
platform_finalizer = "agentgatewayplatform.agentgateway.operators.educates.dev/finalizer"

-- `setCondition(&platform.Status.Conditions, platform.Generation, ...)`
unfoldable pub with_platform_condition :
    Packages → AgentGatewayPlatform → String → Bool → String → Text → AgentGatewayPlatform
unfolding set_condition
with_platform_condition p platform cond_type status reason message = record platform {
  status = record platform.status {
    conditions =
        set_condition p platform.status.conditions platform.metadata.generation cond_type status
          reason message;
  };
}

abbrev pub with_phase : AgentGatewayPlatform → PlatformPhase → AgentGatewayPlatform
with_phase platform phase = record platform { status = record platform.status { phase = phase } }

-- One attempt of `updateStatus`.
unfoldable pub write_platform_status :
    (c : Cluster) → AgentGatewayPlatform → Action (State c) (Unit {0})
write_platform_status c platform = do
  live ← get_platform c platform.metadata.name
  update_platform_status c (record live { status = platform.status })

unfoldable pub update_status_of : (c : Cluster) → AgentGatewayPlatform → Action (State c) (Unit {0})
update_status_of c platform = c.retry_on_conflict (write_platform_status c platform)
