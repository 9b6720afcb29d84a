-- ===== src/Catalog/Reconcile/Gated.antt =====
-- Nothing is rendered for a platform that does not serve.
use agentgateway_educates_op.Base.{
  String, ◌≡◌, refl, Bool, true, false, ◌&&◌, ◌||◌, not, inl, inr, [], Text, ok, err, All, is_nil,
  str_eq, arith, Bool-cases,
}
use agentgateway_educates_op.Api.Types.{AgentGatewayCatalog, AgentGatewayPlatform, catalog_pending}
use agentgateway_educates_op.Api.Session.{singleton_name}
use agentgateway_educates_op.Kube.{Packages, Cluster, Answer}
use agentgateway_educates_op.Kube.Lawful.{RetriesOnly}
use agentgateway_educates_op.Kube.Keeps.{
  Keeps, Keeps-retry, Keeps-write, Keeps-pure, Keeps-bind, Keeps-observe, Keeps-fail,
}
use agentgateway_educates_op.Kube.Monad.{
  Event, catalog_status_update, attempt, ◌>>=◌, observe, is_not_found, get_catalog, get_platform,
  update_catalog_status,
}
use agentgateway_educates_op.Session.Status.{requeue_short, condition_true, condition_ready}
use agentgateway_educates_op.Catalog.Reconcile.{
  not_ready, with_platform, reconcile_catalog, update_status_of_catalog, write_catalog_status,
}

abbrev no_address : AgentGatewayPlatform → Bool
no_address platform =
    str_eq platform.status.gateway_namespace "" || is_nil platform.status.gateway_url

serving_twice : (a b : Bool) → a ≡ true → b ≡ false → (a && not b) ≡ false → ⊥
serving_twice a b h k e = ground arith

-- Whether the platform is there, Ready, and has an address.
unfoldable pub is_serving : Packages → Answer AgentGatewayPlatform → Bool
is_serving p (err e) = false
is_serving p (ok platform) =
    condition_true p platform.status.conditions condition_ready
    && not (str_eq platform.status.gateway_namespace "" || is_nil platform.status.gateway_url)

-- A write of the catalog's status, in the phase Pending.
abbrev pub OnlyPending : Event → Type 0
OnlyPending e = elim e.call [ catalog_status_update x ↦ x.status.phase ≡ catalog_pending | _ ↦ ⊥ ]

module _ (p : Packages) (discovery : Bool) (c : Cluster) (retries : RetriesOnly c) where
  not_ready-Keeps :
      (catalog : AgentGatewayCatalog) (cond_type reason : String) (message : Text)
      → Keeps c (All OnlyPending) (not_ready p discovery c catalog cond_type reason message)
  unfolding not_ready update_status_of_catalog write_catalog_status get_catalog
      update_catalog_status
  not_ready-Keeps catalog cond_type reason message =
      Keeps-bind _ _
        (Keeps-retry retries _
          (Keeps-bind _ _ (Keeps-observe _) (λ live. Keeps-write OnlyPending _ _ (λ b. refl))))
        (λ _. Keeps-pure requeue_short)

  with_platform-Keeps :
      (catalog : AgentGatewayCatalog) (r : Answer AgentGatewayPlatform)
      → is_serving p r ≡ false
      → Keeps c (All OnlyPending) (with_platform p discovery c catalog r)
  unfolding with_platform is_serving
  with_platform-Keeps catalog (err e) h = elim (Bool-cases (is_not_found e)) [
    | inl k ↦ rw k (not_ready-Keeps catalog _ _ _)
    | inr k ↦ rw k (Keeps-fail e)
  ]
  with_platform-Keeps catalog (ok platform) h =
      elim (Bool-cases (condition_true p platform.status.conditions condition_ready)) [
        | inl k ↦ elim (Bool-cases (no_address platform)) [
          | inl a ↦ rw (k, a) (not_ready-Keeps catalog _ _ _)
          | inr a ↦ elim (serving_twice _ _ k a h) [ ]
        ]
        | inr k ↦ rw k (not_ready-Keeps catalog _ _ _)
      ]

-- A pass over the catalog where the platform is missing, unreadable, not Ready or without an
-- address writes no model and deletes none: all that it writes is the catalog's own status, in the
-- phase Pending.
pub reconcile_catalog-Keeps :
    (p : Packages) (discovery : Bool) (c : Cluster) (catalog : AgentGatewayCatalog) (w : c.World)
    → RetriesOnly c
    → is_serving p (c.get_platform singleton_name w).0 ≡ false
    → All OnlyPending
        (reconcile_catalog p discovery c catalog (record { world = w; events = [] })).1.events
unfolding reconcile_catalog attempt ◌>>=◌ get_platform observe
reconcile_catalog-Keeps p discovery c catalog w retries h =
    (with_platform-Keeps p discovery c retries _ (c.get_platform singleton_name w).0 h).at
      (record { world = (c.get_platform singleton_name w).1; events = [] }) tt
