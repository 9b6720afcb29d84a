-- ===== src/Session/Reconcile/Placement.antt =====
-- A grant in the wrong place gets a status and nothing else.
use agentgateway_educates_op.Base.{◌≡◌, String, true, false, Text, ok, All}
use agentgateway_educates_op.Base.Int.{ℤ}
use agentgateway_educates_op.Api.Types.{AgentGatewaySession}
use agentgateway_educates_op.Kube.{Packages, Cluster, Namespace}
use agentgateway_educates_op.Kube.Lawful.{RetriesOnly}
use agentgateway_educates_op.Kube.Keeps.{Keeps, keeps_rules}
use agentgateway_educates_op.Kube.Monad.{State, ◌>>=◌, get_session, get_namespace}
use agentgateway_educates_op.Session.Secrets.{is_set}
use agentgateway_educates_op.Session.Status.Writes.{OnlyStatus, status-Keeps}
use agentgateway_educates_op.Session.Resolve.{
  placement_valid, judge_placement, is_session_namespace, wrong_namespace_message,
}
use agentgateway_educates_op.Session.Reconcile.{
  reconcile, with_session, reconcile_session, reconcile_placed, reject, observed,
}

module _ (p : Packages) (c : Cluster) (law : RetriesOnly c) where
  pub reject-status :
      (s : AgentGatewaySession) (reason : Text) → Keeps c (All OnlyStatus) (reject p c s reason)
  unfolding reject
  reject-status s reason = search (keeps_rules, status-Keeps law)

-- A grant that is read, is not being deleted, and whose namespace is read and belongs to a workshop
-- session is not acted upon: whatever else the cluster answers, the pass writes the status of the
-- grant and nothing else, so neither a finalizer, a Secret nor a registration.
pub reconcile-misplaced :
    (p : Packages) (c : Cluster) (timeout : ℤ) (namespace name : String) (st : State c)
    (s : AgentGatewaySession) (ns : Namespace) (w w' : c.World)
    → RetriesOnly c
    → c.get_session namespace name st.world ≡ (ok s, w)
    → is_set s.metadata.deletion_timestamp ≡ false
    → c.get_namespace s.metadata.namespace w ≡ (ok ns, w')
    → is_session_namespace ns ≡ true
    → All OnlyStatus st.events
    → All OnlyStatus (reconcile p c timeout namespace name st).1.events
unfolding reconcile ◌>>=◌ get_session with_session reconcile_session placement_valid get_namespace
    judge_placement reconcile_placed
reconcile-misplaced p c timeout namespace name st s ns w w' law got kept there owned h =
    rw (got, kept, there, owned)
      ((reject-status p c law (observed s) (wrong_namespace_message s.metadata.namespace)).at _ h)
