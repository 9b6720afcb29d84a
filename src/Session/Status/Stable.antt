-- ===== src/Session/Status/Stable.antt =====
-- The write of a status keeps what no further call can break.
use agentgateway_educates_op.Base.{List}
use agentgateway_educates_op.Api.Types.{AgentGatewaySession}
use agentgateway_educates_op.Kube.{Cluster}
use agentgateway_educates_op.Kube.Monad.{Event}
use agentgateway_educates_op.Kube.Lawful.{RetriesOnly}
use agentgateway_educates_op.Kube.Keeps.{Keeps, Keeps-retry, keeps_rules}
use agentgateway_educates_op.Kube.Stable.{IsStable}
use agentgateway_educates_op.Kube.Stable.{get_session-Keeps, update_status-Keeps}
use agentgateway_educates_op.Session.Status.{update_session_status, write_status}

module _ {c : Cluster} {P : List Event → Type 0} (stable : IsStable P) where
  write_status-Keeps : (s : AgentGatewaySession) → Keeps c P (write_status c s)
  unfolding write_status
  write_status-Keeps s = search (keeps_rules, get_session-Keeps stable, update_status-Keeps stable)

  pub status-Keeps :
      RetriesOnly c → (s : AgentGatewaySession) → Keeps c P (update_session_status c s)
  unfolding update_session_status
  status-Keeps law s = Keeps-retry law (write_status c s) (write_status-Keeps s)
