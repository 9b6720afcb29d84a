-- ===== src/Tests/Platform.antt =====
-- The platform and the catalog at concrete inputs.
use agentgateway_educates_op.Base.{
  String, ◌≡◌, ◌↔◌, refl, true, false, ◌∷◌, ◌++◌, ◌&&◌, [], List, some, ok, is_ok, All,
}
use agentgateway_educates_op.Base.Int.{pos}
use agentgateway_educates_op.Api.Types.{AgentGatewayPlatform, CatalogModel, new_platform, bundled}
use agentgateway_educates_op.Api.Session.{gateway_namespace}
use agentgateway_educates_op.Sdk.Json.{Json, number, object, string, fields_from, get_field}
use agentgateway_educates_op.Sdk.Objects.{Custom}
use agentgateway_educates_op.Kube.{Cluster, Answer}
use agentgateway_educates_op.Kube.Monad.{State}
use agentgateway_educates_op.Kube.Traces.{Ends, calls}
use agentgateway_educates_op.Kube.Scripts.{Continues}
use agentgateway_educates_op.Names.{managed_labels}
use agentgateway_educates_op.Untyped.{new_gateway, new_model, unstructured_condition_true}
use agentgateway_educates_op.Helm.{HelmClient, new_client}
use agentgateway_educates_op.Platform.Status.{platform_finalizer}
use agentgateway_educates_op.Platform.Teardown.{
  HelmClientFor, reconcile_platform_delete, list_managed_models,
}
use agentgateway_educates_op.Platform.Teardown.Passes.{
  IsScoped, teardown_script, reconcile_platform_delete-Follows,
}
use agentgateway_educates_op.Platform.Reconcile.{reconcile_platform}
use agentgateway_educates_op.Platform.Reconcile.Unready.{
  NeverProgrammed, reconcile_platform-NeverReady,
}
use agentgateway_educates_op.Platform.Quiet.{NeverReady}
use agentgateway_educates_op.Platform.Policy.{policy_for}
use agentgateway_educates_op.Platform.Policy.Rendered.{Renders, policy_for-Renders}
use agentgateway_educates_op.Platform.Gateway.{scan_listeners, with_kinds}
use agentgateway_educates_op.Platform.Gateway.Listeners.{is_own, scan_listeners-settled}
use agentgateway_educates_op.Catalog.Reconcile.{reconcile_catalog}
use agentgateway_educates_op.Catalog.Reconcile.Gated.{
  OnlyPending, is_serving, reconcile_catalog-Keeps,
}
use agentgateway_educates_op.Catalog.Render.{is_expected, prune_models}
use agentgateway_educates_op.Catalog.Render.Prune.{
  attempted, goes_through, can_list, deletions, listed, IsRendered, prune_models-Ends,
}
use agentgateway_educates_op.Tests.Memory.{
  packages, packages-IsLawful, memory_cluster, memory_objects, memory_cluster-RetriesOnly,
  memory_cluster-ListsLabelled, Memory,
}
use agentgateway_educates_op.Session.Status.{condition_true}
use agentgateway_educates_op.Tests.Untyped.{at_path, deep_equal_refl}
use agentgateway_educates_op.Tests.Fixtures.{bare, start, platform, catalog}

-- Clients of the namespace that is asked for.
abbrev helm_client_for : HelmClientFor
helm_client_for = new_client (λ ns. ok tt)

same_client : (r : Answer HelmClient) (x y : HelmClient) → r ≡ ok x → r ≡ ok y → x ≡ y
same_client r x y e f = cc

helm_client_for-IsScoped : IsScoped helm_client_for
unfolding new_client
helm_client_for-IsScoped = record {
  scoped = λ ns client e.
      rw⁻¹
        (same_client (helm_client_for ns) (record { namespace = ns; skip_crds = false }) client refl
          e)
        refl;
}

abbrev model_named : String → Custom
model_named name = record (new_model "agentgateway-system" name) { labels = managed_labels }

-- A platform on its way out, with its Gateway and two models.
abbrev leaving : AgentGatewayPlatform
leaving = record platform {
  metadata = record platform.metadata {
    deletion_timestamp = some (pos 5);
    finalizers = platform_finalizer ∷ [];
  };
}

abbrev serving : Memory
serving = record bare {
  platforms = leaving ∷ [];
  customs =
      new_gateway "agentgateway-system" "agentgateway-educates"
      ∷ (model_named "m" ∷ (model_named "m-upstream" ∷ (model_named "stray" ∷ [])));
}

reconcile_platform_delete-Follows_example :
    Continues
      (is_ok
        (reconcile_platform_delete packages helm_client_for memory_cluster leaving
          (start serving)).0)
      (teardown_script packages bundled (gateway_namespace leaving))
      []
      (calls
        (reconcile_platform_delete packages helm_client_for memory_cluster leaving
          (start serving)).1.events)
unfolding calls
reconcile_platform_delete-Follows_example =
    reconcile_platform_delete-Follows packages helm_client_for memory_cluster leaving
      (start serving) packages-IsLawful memory_cluster-RetriesOnly helm_client_for-IsScoped
      memory_cluster-ListsLabelled refl

-- A cluster whose Gateways have no status yet.
abbrev waiting_cluster : Cluster
waiting_cluster = record memory_cluster {
  objects = record memory_objects {
    get_custom = λ group kind ns name w. (ok (new_gateway ns name), w);
  };
}

same_custom : (r : Answer Custom) (x y : Custom) → r ≡ ok x → r ≡ ok y → x ≡ y
same_custom r x y e f = cc

waiting_cluster-NeverProgrammed : NeverProgrammed packages waiting_cluster
unfolding unstructured_condition_true at_path get_field
waiting_cluster-NeverProgrammed = record {
  unprogrammed = λ ns name w gw e.
      rw⁻¹ (same_custom (ok (new_gateway ns name)) (new_gateway ns name) gw refl e) refl;
}

abbrev started : State waiting_cluster
started = record { world = bare; events = [] }

reconcile_platform-NeverReady_example :
    NeverReady
      (reconcile_platform packages helm_client_for waiting_cluster platform started).1.events
reconcile_platform-NeverReady_example =
    reconcile_platform-NeverReady packages helm_client_for waiting_cluster platform bare
      (record { retry_keeps = λ S P f k s h. k s h; retry_ok = λ S f s h. refl })
      waiting_cluster-NeverProgrammed refl

policy_for-Renders_example : Renders (policy_for (some catalog) "gw") (some catalog)
policy_for-Renders_example = policy_for-Renders (some catalog) "gw"

abbrev other_port : Json
other_port = object (fields_from (("port", number (pos 9000)) ∷ []))

-- The platform is not Ready.
abbrev installing : Memory
installing = record bare {
  platforms = record platform { status = record platform.status { phase = new_platform } } ∷ [];
}

reconcile_catalog-Keeps_example :
    All OnlyPending
      (reconcile_catalog packages true memory_cluster catalog (start installing)).1.events
unfolding is_serving condition_true
reconcile_catalog-Keeps_example =
    reconcile_catalog-Keeps packages true memory_cluster catalog installing
      memory_cluster-RetriesOnly refl

abbrev model : CatalogModel
model = record {
  name = "m";
  provider = "openai";
  model = "gpt";
  credential_ref = record { name = "key"; key = "" };
  base_url = "";
}

abbrev pruned : Answer (Unit {0}) × State memory_cluster
pruned = prune_models memory_cluster "agentgateway-system" (model ∷ []) (start serving)

abbrev found : Answer (List Custom) × State memory_cluster
found = list_managed_models memory_cluster "agentgateway-system" (start serving)

prune_models-Ends_example :
    Ends (is_ok pruned.0) [] (deletions (model ∷ []) (listed found.0)) (calls pruned.1.events)
    × (calls pruned.1.events
        ≡ calls found.1.events
          ++ attempted memory_cluster (model ∷ []) (listed found.0) found.1.world)
    × (is_ok pruned.0 ≡ (
        can_list found.0
        && goes_through memory_cluster (model ∷ []) (listed found.0) found.1.world))
    × ((name : String) → (is_expected (model ∷ []) name ≡ true) ↔ IsRendered (model ∷ []) name)
unfolding calls
prune_models-Ends_example =
    prune_models-Ends memory_cluster (model ∷ []) "agentgateway-system" (start serving)

-- A listener that does not name the models yet.
abbrev old_listener : Json
old_listener = object (fields_from (("name", string "llm") ∷ []))

scan_listeners-settled_example :
    ((scan_listeners packages (scan_listeners packages (old_listener ∷ [])).listeners).changed
      ≡ false)
    × ((scan_listeners packages (old_listener ∷ [])).changed ≡ false
        → (scan_listeners packages (old_listener ∷ [])).listeners ≡ old_listener ∷ [])
    × ((raw : Json) → is_own raw ≡ false → with_kinds packages raw ≡ raw)
scan_listeners-settled_example = scan_listeners-settled packages (old_listener ∷ []) deep_equal_refl
