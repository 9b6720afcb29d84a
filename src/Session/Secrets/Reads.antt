-- ===== src/Session/Secrets/Reads.antt =====
-- The steps around the key Secret that write nothing, and so keep every property of the record.
use agentgateway_educates_op.Base.{List, ok, err, String}
use agentgateway_educates_op.Api.Types.{AgentGatewaySession}
use agentgateway_educates_op.Kube.{Packages, Cluster, Answer, Namespace, Secret}
use agentgateway_educates_op.Kube.Monad.{Event, get_namespace, get_secret, random_bytes}
use agentgateway_educates_op.Kube.Keeps.{Keeps, Keeps-observe, keeps_rules}
use agentgateway_educates_op.Key.{generate}
use agentgateway_educates_op.Session.Secrets.{
  set_session_namespace_owner, owned_by, session_namespace_ending, judge_ending,
  secret_owner_namespace, read_owner,
}

module _ {c : Cluster} {P : List Event → Type 0} where
  get_namespace-Keeps : (name : String) → Keeps c P (get_namespace c name)
  unfolding get_namespace
  get_namespace-Keeps name = Keeps-observe _

  pub get_secret-Keeps : (ns name : String) → Keeps c P (get_secret c ns name)
  unfolding get_secret
  get_secret-Keeps ns name = Keeps-observe _

module _ (p : Packages) {c : Cluster} {P : List Event → Type 0} where
  pub generate-Keeps : Keeps c P (generate p c)
  unfolding generate random_bytes
  generate-Keeps = search keeps_rules

  owned_by-Keeps : (secret : Secret) (r : Answer Namespace) → Keeps c P (owned_by p c secret r)
  unfolding owned_by
  owned_by-Keeps secret (ok ns) = search keeps_rules
  owned_by-Keeps secret (err e) = search keeps_rules

  pub set_owner-Keeps :
      (s : AgentGatewaySession) (secret : Secret)
      → Keeps c P (set_session_namespace_owner p c s secret)
  unfolding set_session_namespace_owner
  set_owner-Keeps s secret = search (keeps_rules, get_namespace-Keeps, owned_by-Keeps)

  judge_ending-Keeps :
      (s : AgentGatewaySession) (r : Answer Namespace) → Keeps c P (judge_ending p c s r)
  unfolding judge_ending
  judge_ending-Keeps s (ok ns) = search keeps_rules
  judge_ending-Keeps s (err e) = search keeps_rules

  pub ending-Keeps : (s : AgentGatewaySession) → Keeps c P (session_namespace_ending p c s)
  unfolding session_namespace_ending
  ending-Keeps s = search (keeps_rules, get_namespace-Keeps, judge_ending-Keeps)

  read_owner-Keeps : (r : Answer Secret) → Keeps c P (read_owner p c r)
  unfolding read_owner
  read_owner-Keeps (ok secret) = search keeps_rules
  read_owner-Keeps (err e) = search keeps_rules

  pub secret_owner-Keeps : (s : AgentGatewaySession) → Keeps c P (secret_owner_namespace p c s)
  unfolding secret_owner_namespace
  secret_owner-Keeps s = search (keeps_rules, get_secret-Keeps, read_owner-Keeps)
