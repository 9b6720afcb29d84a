-- ===== src/Session/Reconcile/Stable.antt =====
-- A pass from the catalog on keeps what no further call can break.
use agentgateway_educates_op.Base.{String, Bool, Option, none, some, List, Text, ok, err}
use agentgateway_educates_op.Api.Types.{AgentGatewaySession}
use agentgateway_educates_op.Kube.{Packages, Cluster, Answer, Error}
use agentgateway_educates_op.Kube.Monad.{Event}
use agentgateway_educates_op.Kube.Lawful.{RetriesOnly}
use agentgateway_educates_op.Kube.Keeps.{Keeps, keeps_rules}
use agentgateway_educates_op.Kube.Stable.{IsStable}
use agentgateway_educates_op.Session.Status.Stable.{status-Keeps}
use agentgateway_educates_op.Session.Secrets.Stable.{ensure_secret-Keeps}
use agentgateway_educates_op.Session.Secrets.Reads.{secret_owner-Keeps}
use agentgateway_educates_op.Session.Register.Stable.{ensure_registration-Keeps}
use agentgateway_educates_op.Session.Resolve.{ResolvedCatalog}
use agentgateway_educates_op.Session.Reconcile.{
  grant_key, with_key, register_key, after_registration, publish, secret_failed, fail_with,
  wait_for_catalog, reject,
}

module _ {c : Cluster} {P : List Event → Type 0} (stable : IsStable P) (law : RetriesOnly c)
    (p : Packages) where
  pub reject-Keeps : (s : AgentGatewaySession) (reason : Text) → Keeps c P (reject p c s reason)
  unfolding reject
  reject-Keeps s reason = search (keeps_rules, status-Keeps stable law)

  fail_with-Keeps :
      (s : AgentGatewaySession) (t : String) (e : Error) → Keeps c P (fail_with p c s t e)
  unfolding fail_with
  fail_with-Keeps s t e = search (keeps_rules, status-Keeps stable law)

  secret_failed-Keeps : (s : AgentGatewaySession) (e : Error) → Keeps c P (secret_failed p c s e)
  unfolding secret_failed
  secret_failed-Keeps s e = search (keeps_rules, status-Keeps stable law, fail_with-Keeps)

  publish-Keeps :
      (s : AgentGatewaySession) (catalog : ResolvedCatalog) → Keeps c P (publish p c s catalog)
  unfolding publish
  publish-Keeps s catalog = search (keeps_rules, status-Keeps stable law, secret_owner-Keeps p)

  after_registration-Keeps :
      (s : AgentGatewaySession) (catalog : ResolvedCatalog) (r : Answer (Unit {0}))
      → Keeps c P (after_registration p c s catalog r)
  unfolding after_registration
  after_registration-Keeps s catalog (ok x) = publish-Keeps s catalog
  after_registration-Keeps s catalog (err e) = fail_with-Keeps _ _ _

  register_key-Keeps :
      (s : AgentGatewaySession) (catalog : ResolvedCatalog) (key : Text)
      → Keeps c P (register_key p c s catalog key)
  unfolding register_key
  register_key-Keeps s catalog key =
      search (keeps_rules, ensure_registration-Keeps stable p, after_registration-Keeps)

  with_key-Keeps :
      (s : AgentGatewaySession) (catalog : ResolvedCatalog) (r : Answer (Text × Bool))
      → Keeps c P (with_key p c s catalog r)
  unfolding with_key
  with_key-Keeps s catalog (ok (key, generated)) = register_key-Keeps s catalog key
  with_key-Keeps s catalog (err e) = secret_failed-Keeps s e

  pub grant_key-Keeps :
      (s : AgentGatewaySession) (r : Option ResolvedCatalog) → Keeps c P (grant_key p c s r)
  unfolding grant_key wait_for_catalog
  grant_key-Keeps s (some catalog) =
      search (keeps_rules, ensure_secret-Keeps stable p, with_key-Keeps)
  grant_key-Keeps s none = search (keeps_rules, status-Keeps stable law)
