-- ===== src/Session/Status/Writes.antt =====
-- The write of a status writes nothing but a status.
use agentgateway_educates_op.Base.{All}
use agentgateway_educates_op.Api.Types.{AgentGatewaySession}
use agentgateway_educates_op.Kube.{Cluster}
use agentgateway_educates_op.Kube.Lawful.{RetriesOnly}
use agentgateway_educates_op.Kube.Keeps.{Keeps, keeps_rules, Keeps-write, Keeps-retry}
use agentgateway_educates_op.Kube.Monad.{Event, session_status_update, get_session, update_status}
use agentgateway_educates_op.Session.Status.{update_session_status, write_status}

-- The call writes a status.
abbrev pub OnlyStatus : Event → Type 0
OnlyStatus e = elim e.call [ session_status_update x ↦ Unit {0} | _ ↦ ⊥ ]

module _ {c : Cluster} (law : RetriesOnly c) where
  update_status-OnlyStatus :
      (s : AgentGatewaySession) → Keeps c (All OnlyStatus) (update_status c s)
  unfolding update_status
  update_status-OnlyStatus s = Keeps-write OnlyStatus _ _ (λ b. tt)

  write_status-OnlyStatus : (s : AgentGatewaySession) → Keeps c (All OnlyStatus) (write_status c s)
  unfolding write_status get_session
  write_status-OnlyStatus s = search (keeps_rules, update_status-OnlyStatus)

  pub status-Keeps :
      (s : AgentGatewaySession) → Keeps c (All OnlyStatus) (update_session_status c s)
  unfolding update_session_status
  status-Keeps s = Keeps-retry law (write_status c s) (write_status-OnlyStatus s)
