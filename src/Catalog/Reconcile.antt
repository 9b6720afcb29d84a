-- ===== src/Catalog/Reconcile.antt =====
-- agentgatewaycatalog_controller.go: a pass over the catalog, gated on the platform.
pub mod Gated
use agentgateway_educates_op.Base.{
  ℕ, String, Bool, true, false, ◌||◌, not, Option, none, some, List, [], ◌∷◌, ◌++◌, map, Text,
  codes, ok, err, is_nil, str_eq, length, any, if◌then◌else◌,
}
use agentgateway_educates_op.Format.{format_nat}
use agentgateway_educates_op.Api.Types.{
  AgentGatewayCatalog, AgentGatewayPlatform, CatalogPhase, CatalogModel, catalog_pending,
  catalog_ready, catalog_failed,
}
use agentgateway_educates_op.Api.Session.{singleton_name}
use agentgateway_educates_op.Kube.{Packages, Cluster, Answer}
use agentgateway_educates_op.Kube.Monad.{
  Action, State, pure, fail, attempt, ◌>>=◌, ◌>>◌, observe, is_not_found, is_no_match, get_catalog,
  get_platform, update_catalog_status,
}
use agentgateway_educates_op.Names.{agentgateway_group, agentgateway_version, kind_model}
use agentgateway_educates_op.Session.Status.{
  Requeue, requeue_short, set_condition, condition_true, condition_ready, reason_ready,
  reason_waiting, reason_failed,
}
use agentgateway_educates_op.Platform.ClusterConfig.{reason_not_found}
use agentgateway_educates_op.Catalog.Render.{render_models}

abbrev pub condition_platform_ready : String
condition_platform_ready = "PlatformReady"

abbrev pub condition_models_rendered : String
condition_models_rendered = "ModelsRendered"

abbrev pub reason_custom_resource_kinds : String
reason_custom_resource_kinds = "CustomResourceKindsMissing"

module _ (p : Packages) where
  unfoldable pub with_catalog_condition :
      AgentGatewayCatalog → String → Bool → String → Text → AgentGatewayCatalog
  with_catalog_condition catalog cond_type status reason message = record catalog {
    status = record catalog.status {
      conditions =
          set_condition p catalog.status.conditions catalog.generation cond_type status reason
            message;
    };
  }

abbrev pub with_catalog_phase : AgentGatewayCatalog → CatalogPhase → AgentGatewayCatalog
with_catalog_phase catalog phase = record catalog {
  status = record catalog.status { phase = phase };
}

module _ (c : Cluster) where
  unfoldable pub write_catalog_status : AgentGatewayCatalog → Action (State c) (Unit {0})
  write_catalog_status catalog = do
    live ← get_catalog c catalog.name
    update_catalog_status c (record live { status = catalog.status })

  unfoldable pub update_status_of_catalog : AgentGatewayCatalog → Action (State c) (Unit {0})
  update_status_of_catalog catalog = c.retry_on_conflict (write_catalog_status catalog)

  -- `customResourceKindsPresent`, by the mapper where no discovery client is given.
  unfoldable pub mapped : Answer (Unit {0}) → Action (State c) Bool
  mapped (ok _) = pure true
  mapped (err e) = if is_no_match e then pure false else fail e

  unfoldable pub discovered : Answer (List String) → Action (State c) Bool
  unfolding observe
  discovered (err e) = if is_not_found e then pure false else fail e
  discovered (ok kinds) =
      if any (λ kind. str_eq kind kind_model) kinds
      then (do
        observe c
            (λ w. (ok tt, if c.objects.mapper_resettable w then c.objects.reset_mapper w else w))
        pure true)
      else pure false

  unfoldable pub kinds_present : Bool → Action (State c) Bool
  unfolding observe
  kinds_present discovery =
      if discovery
      then (do
        answer ← attempt (observe c (c.objects.server_resources "agentgateway.dev/v1alpha1"))
        discovered answer)
      else (do
        answer ←
            attempt (
              observe c (c.objects.rest_mapping agentgateway_group kind_model agentgateway_version))
        mapped answer)

module _ (p : Packages) (discovery : Bool) (c : Cluster) where
  abbrev pub gated : AgentGatewayCatalog → String → String → Text → AgentGatewayCatalog
  gated catalog cond_type reason message =
      with_catalog_phase
        (with_catalog_condition p (with_catalog_condition p catalog cond_type false reason message)
          condition_ready false reason message)
        catalog_pending

  unfoldable pub not_ready : AgentGatewayCatalog → String → String → Text → Action (State c) Requeue
  not_ready catalog cond_type reason message =
      update_status_of_catalog c (gated catalog cond_type reason message) >> pure requeue_short

  abbrev with_models : AgentGatewayCatalog → Text → AgentGatewayCatalog
  with_models catalog url = record catalog {
    status = record catalog.status {
      available_models = map (λ m. m.name) catalog.models;
      gateway_url = url;
      phase = catalog_ready;
    };
  }

  unfoldable pub served : AgentGatewayCatalog → Text → AgentGatewayCatalog
  served catalog url =
      with_catalog_condition p
        (with_models
          (with_catalog_condition p catalog condition_models_rendered true reason_ready
            (format_nat (length catalog.models) ++ codes " catalog models rendered"))
          url)
        condition_ready true reason_ready (codes "the catalog is rendered and serving")

  unfoldable pub after_render :
      AgentGatewayCatalog → Text → Answer (Unit {0}) → Action (State c) Requeue
  after_render catalog url (ok _) = update_status_of_catalog c (served catalog url) >> pure 0
  after_render catalog url (err e) = do
    attempt (
        update_status_of_catalog c (
          with_catalog_phase
            (with_catalog_condition p catalog condition_models_rendered false reason_failed
              e.message)
            catalog_failed))
    fail e

  unfoldable pub with_kinds_present :
      AgentGatewayCatalog → String → Text → Bool → Action (State c) Requeue
  with_kinds_present catalog ns url true = do
    answer ← attempt (render_models p c ns catalog.models)
    after_render catalog url answer
  with_kinds_present catalog ns url false =
      not_ready catalog condition_models_rendered reason_custom_resource_kinds
        (codes "agentgateway's CRDs are not established yet")

  unfoldable pub render_on : AgentGatewayCatalog → String → Text → Action (State c) Requeue
  render_on catalog ns url = do
    present ← kinds_present c discovery
    with_kinds_present
        (with_catalog_condition p catalog condition_platform_ready true reason_ready
          (codes "the platform is ready"))
        ns url present

  unfoldable pub with_platform :
      AgentGatewayCatalog → Answer AgentGatewayPlatform → Action (State c) Requeue
  with_platform catalog (err e) =
      if not (is_not_found e)
      then fail e
      else not_ready catalog condition_platform_ready reason_not_found
          (codes "no AgentGatewayPlatform named 'cluster' exists yet")
  with_platform catalog (ok platform) =
      if not (condition_true p platform.status.conditions condition_ready)
      then not_ready catalog condition_platform_ready reason_waiting
          (codes "waiting for the AgentGatewayPlatform to become ready")
      else if str_eq platform.status.gateway_namespace "" || is_nil platform.status.gateway_url
      then not_ready catalog condition_platform_ready reason_waiting
          (codes "the platform has not published its gateway address yet")
      else render_on catalog platform.status.gateway_namespace platform.status.gateway_url

  unfoldable pub reconcile_catalog : AgentGatewayCatalog → Action (State c) Requeue
  reconcile_catalog catalog = do
    answer ← attempt (get_platform c singleton_name)
    with_platform
        (record catalog {
          status = record catalog.status { observed_generation = catalog.generation };
        })
        answer

  unfoldable pub catalog_read : Answer AgentGatewayCatalog → Action (State c) Requeue
  catalog_read (ok catalog) = reconcile_catalog catalog
  catalog_read (err e) = if is_not_found e then pure 0 else fail e

  -- `Reconcile` at a request's name.
  unfoldable pub reconcile_catalog_request : String → Action (State c) Requeue
  reconcile_catalog_request name = do answer ← attempt (get_catalog c name); catalog_read answer
