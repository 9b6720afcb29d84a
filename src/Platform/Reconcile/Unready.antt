-- ===== src/Platform/Reconcile/Unready.antt =====
-- A platform is not reported ready before its Gateway is programmed.
use agentgateway_educates_op.Base.{
  String, ◌≡◌, refl, false, ◌||◌, not, [], Option, none, some, Text, ok, err, Bool-cases, inl, inr,
}
use agentgateway_educates_op.Api.Types.{
  AgentGatewayPlatform, PlatformPhase, Provider, external, bundled, ExternalAgentgateway,
}
use agentgateway_educates_op.Kube.{Packages, Cluster, Answer, Error}
use agentgateway_educates_op.Kube.Lawful.{RetriesOnly}
use agentgateway_educates_op.Kube.Keeps.{Keeps-bind, Keeps-pure, Keeps-if}
use agentgateway_educates_op.Kube.Traces.{calls}
use agentgateway_educates_op.Kube.Monad.{
  Action, State, pure, fail, attempt, ◌>>=◌, continue, observe, is_not_found, is_no_match,
  update_platform,
}
use agentgateway_educates_op.Names.{gateway_api_group, kind_gateway}
use agentgateway_educates_op.Sdk.Objects.{Custom}
use agentgateway_educates_op.Untyped.{get_like, unstructured_condition_true}
use agentgateway_educates_op.Session.Status.{Requeue}
use agentgateway_educates_op.Platform.Teardown.{HelmClientFor}
use agentgateway_educates_op.Session.Secrets.{is_set}
use agentgateway_educates_op.Platform.Status.{platform_finalizer}
use agentgateway_educates_op.Platform.Gate.{Gate, proceed, stop, stop_at}
use agentgateway_educates_op.Platform.Steps.{
  reconcile_gateway_ready, gateway_found, gateway_name_of,
}
use agentgateway_educates_op.Platform.Reconcile.{
  through, serve, overlay, install_charts, reconcile_bundled, reconcile_external_at,
  reconcile_provider, reconcile_platform, ensure_platform_finalizer,
}
use agentgateway_educates_op.Platform.Quiet.{
  Quiet, Quiet-perform, NeverReady, reports_ready, is_ready_phase, update_status_of-Quiet,
}
use agentgateway_educates_op.Platform.Quiet.Steps.{
  ensure_namespace-Quiet, reconcile_cluster_config-Quiet, reconcile_gateway_api-Quiet,
  wait_for_gateway_class-Quiet, ensure_parameters-Quiet,
}
use agentgateway_educates_op.Platform.Quiet.Charts.{
  reconcile_crds_chart-Quiet, reconcile_control_plane-Quiet, drain_bundled-Quiet,
  ensure_gateway-Quiet,
}

-- No Gateway of the cluster ever reports Programmed.
pub record NeverProgrammed (p : Packages) (c : Cluster) : Type 0 where
  pub unprogrammed :
      (ns name : String) (w : c.World) (gw : Custom)
      → (c.objects.get_custom gateway_api_group kind_gateway ns name w).0 ≡ ok gw
      → unstructured_condition_true p gw "Programmed" ≡ false

module _ (p : Packages) (helm_client_for : HelmClientFor) (c : Cluster)
    (retries : RetriesOnly c) where
  failed-Quiet : {A B : Type 0} (e : Error) (f : A → Action (State c) B) → Quiet c (fail e >>= f)
  unfolding fail ◌>>=◌
  failed-Quiet e f = record { at = λ s h. h }

  stopped-NeverReady :
      (next : AgentGatewayPlatform → Action (State c) Requeue) (requeue : Requeue)
      (r : Answer (Unit {0})) (s : State c)
      → NeverReady s.events
      → NeverReady
          (continue
            (continue r (λ _. pure (stop requeue)) s).0
            (λ gate. through p helm_client_for c gate next)
            (continue r (λ _. pure (stop requeue)) s).1).1.events
  unfolding through pure
  stopped-NeverReady next requeue (ok _) s h = h
  stopped-NeverReady next requeue (err e) s h = h

  -- After a step that stops, nothing more is done.
  stopped-Quiet :
      (platform : AgentGatewayPlatform) (cond_type reason : String) (message : Text)
      (phase : PlatformPhase) (requeue : Requeue)
      (next : AgentGatewayPlatform → Action (State c) Requeue)
      → is_ready_phase phase ≡ false
      → Quiet c (
          stop_at p c platform cond_type reason message phase requeue >>= λ gate.
          through p helm_client_for c gate next)
  unfolding stop_at through pure ◌>>=◌
  stopped-Quiet platform cond_type reason message phase requeue next h = record {
    at = λ s k. stopped-NeverReady next requeue _ _ ((update_status_of-Quiet c _ retries h).at s k);
  }

  gateway_found-Quiet :
      (platform : AgentGatewayPlatform) (ns name : String) (r : Answer Custom)
      (next : AgentGatewayPlatform → Action (State c) Requeue)
      → ((gw : Custom) → r ≡ ok gw → unstructured_condition_true p gw "Programmed" ≡ false)
      → Quiet c
          (gateway_found p c platform ns name r >>= λ gate. through p helm_client_for c gate next)
  unfolding gateway_found is_ready_phase
  gateway_found-Quiet platform ns name (err e) next h =
      elim (Bool-cases (is_not_found e || is_no_match e)) [
        | inl k ↦ rw k (stopped-Quiet platform _ _ _ _ _ next refl)
        | inr k ↦ rw k (failed-Quiet e _)
      ]
  gateway_found-Quiet platform ns name (ok gw) next h =
      rw (h gw refl) (stopped-Quiet platform _ _ _ _ _ next refl)

  gateway_ready-Quiet :
      (platform : AgentGatewayPlatform) (ns : String)
      (next : AgentGatewayPlatform → Action (State c) Requeue)
      → NeverProgrammed p c
      → Quiet c (
          reconcile_gateway_ready p c platform ns >>= λ gate. through p helm_client_for c gate next)
  unfolding reconcile_gateway_ready get_like observe attempt ◌>>=◌
  gateway_ready-Quiet platform ns next never = record {
    at = λ s h.
        let (r, w) =
          c.objects.get_custom gateway_api_group kind_gateway ns (gateway_name_of platform)
            s.world in
        (gateway_found-Quiet platform ns (gateway_name_of platform) r next
            (λ gw e. never.unprogrammed ns (gateway_name_of platform) s.world gw e)).at
          (record s { world = w }) h;
  }

  through-Quiet :
      (gate : Gate) (next : AgentGatewayPlatform → Action (State c) Requeue)
      → ((platform : AgentGatewayPlatform) → Quiet c (next platform))
      → Quiet c (through p helm_client_for c gate next)
  unfolding through
  through-Quiet (proceed platform) next k = k platform
  through-Quiet (stop requeue) next k = Keeps-pure requeue

  module _ (never : NeverProgrammed p c) where
    serve-Quiet :
        (ns : String) (platform : AgentGatewayPlatform)
        → Quiet c (serve p helm_client_for c ns platform)
    unfolding serve
    serve-Quiet ns platform =
        Keeps-bind _ _ (ensure_gateway-Quiet p c ns) (λ _. gateway_ready-Quiet platform ns _ never)

    overlay-Quiet :
        (ns : String) (platform : AgentGatewayPlatform)
        → Quiet c (overlay p helm_client_for c ns platform)
    unfolding overlay
    overlay-Quiet ns platform =
        Keeps-bind _ _ (ensure_parameters-Quiet p c retries platform ns) (λ _.
          Keeps-bind _ _ (wait_for_gateway_class-Quiet p c retries platform)
            (λ gate. through-Quiet gate _ (serve-Quiet ns)))

    install_charts-Quiet :
        (ns : String) (platform : AgentGatewayPlatform)
        → Quiet c (install_charts p helm_client_for c ns platform)
    unfolding install_charts
    install_charts-Quiet ns platform =
        Keeps-bind _ _ (reconcile_crds_chart-Quiet p helm_client_for c retries platform ns) (λ crds.
          through-Quiet crds _ (λ established.
            Keeps-bind _ _
              (reconcile_control_plane-Quiet p helm_client_for c retries established ns)
              (λ plane. through-Quiet plane _ (overlay-Quiet ns))))

    reconcile_bundled-Quiet :
        (platform : AgentGatewayPlatform) → Quiet c (reconcile_bundled p helm_client_for c platform)
    unfolding reconcile_bundled
    reconcile_bundled-Quiet platform =
        Keeps-bind _ _ (reconcile_cluster_config-Quiet p c retries platform) (λ configured.
          Keeps-bind _ _ (ensure_namespace-Quiet p c retries _ configured) (λ _.
            Keeps-bind _ _ (reconcile_gateway_api-Quiet p c retries configured)
              (λ api. through-Quiet api _ (install_charts-Quiet _))))

    external-Quiet :
        (platform : AgentGatewayPlatform) (e : Option ExternalAgentgateway)
        → Quiet c (reconcile_external_at p helm_client_for c platform e)
    unfolding reconcile_external_at is_ready_phase
    external-Quiet platform none =
        Keeps-bind _ _ (update_status_of-Quiet c _ retries refl) (λ _. Keeps-pure 0)
    external-Quiet platform (some e) =
        Keeps-bind _ _ (drain_bundled-Quiet p helm_client_for c retries _)
          (λ _. gateway_ready-Quiet _ e.namespace _ never)

    provider-Quiet :
        (platform : AgentGatewayPlatform) (provider : Provider)
        → platform.provider ≡ provider
        → Quiet c (reconcile_provider p helm_client_for c platform)
    unfolding reconcile_provider
    provider-Quiet platform bundled e = rw e (reconcile_bundled-Quiet _)
    provider-Quiet platform external e = rw e (external-Quiet _ _)

    update_platform-Quiet : (platform : AgentGatewayPlatform) → Quiet c (update_platform c platform)
    unfolding update_platform reports_ready
    update_platform-Quiet platform = Quiet-perform _ _ refl

    finalizer-Quiet :
        (platform : AgentGatewayPlatform)
        → Quiet c (ensure_platform_finalizer p helm_client_for c platform)
    unfolding ensure_platform_finalizer
    finalizer-Quiet platform =
        Keeps-if (not (p.contains_finalizer platform.metadata.finalizers platform_finalizer)) _ _
          (update_platform-Quiet _) (Keeps-pure platform)

    reconcile_platform-Quiet :
        (platform : AgentGatewayPlatform)
        → is_set platform.metadata.deletion_timestamp ≡ false
        → Quiet c (reconcile_platform p helm_client_for c platform)
    unfolding reconcile_platform
    reconcile_platform-Quiet platform h =
        rw h (Keeps-bind _ _ (finalizer-Quiet platform) (λ finalized. provider-Quiet _ _ refl))

-- While no Gateway of the cluster reports Programmed, a pass over a platform that is not deleted
-- writes no status in the phase Ready, for a bundled and for an external gateway alike, and
-- whatever else the cluster answers.
pub reconcile_platform-NeverReady :
    (p : Packages) (helm_client_for : HelmClientFor) (c : Cluster) (platform : AgentGatewayPlatform)
    (w : c.World)
    → RetriesOnly c
    → NeverProgrammed p c
    → is_set platform.metadata.deletion_timestamp ≡ false
    → NeverReady
        (reconcile_platform p helm_client_for c platform
          (record { world = w; events = [] })).1.events
unfolding calls
reconcile_platform-NeverReady p helm_client_for c platform w retries never h =
    (reconcile_platform-Quiet p helm_client_for c retries never platform h).at
      (record { world = w; events = [] }) refl
