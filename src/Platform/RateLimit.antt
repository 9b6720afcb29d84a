-- ===== src/Platform/RateLimit.antt =====
-- ratelimit.go: the rate-limit service and its counter store.
use agentgateway_educates_op.Base.{
  String, true, false, not, ◌<>◌, Option, none, some, [], ◌∷◌, ◌++◌, Text, codes, ok, err, Dict,
  if◌then◌else◌,
}
use agentgateway_educates_op.Base.Int.{ℤ, pos}
use agentgateway_educates_op.Format.{format_int}
use agentgateway_educates_op.Api.Types.{AgentGatewayCatalog, AgentGatewayPlatform}
use agentgateway_educates_op.Api.Session.{singleton_name}
use agentgateway_educates_op.Api.Budget.{default_token_budget, effective_default_token_budget}
use agentgateway_educates_op.Registration.{metadata_key_session, metadata_key_cost_budget}
use agentgateway_educates_op.Kube.{Packages, Cluster, Answer}
use agentgateway_educates_op.Sdk.Objects.{
  OwnedObject, OwnedKind, config_map_kind, deployment_kind, service_kind, Body, config_data,
  deployment_spec, service_spec, Container, owned_create, owned_update,
}
use agentgateway_educates_op.Kube.Monad.{
  Action, State, pure, fail, lift, attempt, wrap, ◌>>=◌, ◌>>◌, observe, is_not_found,
  is_already_exists, get_catalog, write_object,
}
use agentgateway_educates_op.Names.{
  managed_labels, managed_by_label, managed_by_value, rate_limit_domain, rate_limit_service_name,
}
use agentgateway_educates_op.Platform.Policy.{default_window}

abbrev pub redis_name : String
redis_name = "agentgateway-ratelimit-redis"

abbrev pub redis_port : ℤ
redis_port = pos 6379

abbrev pub rate_limit_port : ℤ
rate_limit_port = pos 8081

abbrev pub rate_limit_config_map_name : String
rate_limit_config_map_name = "agentgateway-ratelimit-config"

-- The two rows: the token key's, and the cost key's below it.
unfoldable pub render_rate_limit_config : Text → ℤ → Text
render_rate_limit_config window budget =
    codes "domain: "
    ++ (codes rate_limit_domain
        ++ (codes "\ndescriptors:\n  - key: "
            ++ (codes metadata_key_session
                ++ (codes "\n    rate_limit:\n      unit: "
                    ++ (window
                        ++ (codes "\n      requests_per_unit: "
                            ++ (format_int budget
                                ++ (codes "\n    descriptors:\n      - key: "
                                    ++ (codes metadata_key_cost_budget
                                        ++ (codes "\n        rate_limit:\n          unit: "
                                            ++ (window
                                                ++ (codes "\n          requests_per_unit: "
                                                    ++ (format_int budget ++ codes "\n")))))))))))))

abbrev named_labels : String → Dict String
named_labels name = (managed_by_label, managed_by_value) ∷ (("app.kubernetes.io/name", name) ∷ [])

-- A desired object has no owner yet.
abbrev desired : OwnedKind → String → String → Dict String → Body → OwnedObject
desired kind ns name labels body = record {
  kind = kind;
  namespace = ns;
  name = name;
  labels = labels;
  controller = none;
  body = body;
}

-- The budget that the row holds, for a catalog and without one.
unfoldable pub row_budget : Option AgentGatewayCatalog → ℤ
row_budget none = default_token_budget
row_budget (some catalog) = effective_default_token_budget catalog

unfoldable pub rate_limit_config : Option AgentGatewayCatalog → String → OwnedObject
rate_limit_config catalog ns =
    desired config_map_kind ns rate_limit_config_map_name managed_labels (
      config_data (
        (rate_limit_domain <> ".yaml", render_rate_limit_config default_window (row_budget catalog))
        ∷ []))

abbrev pub redis_container : Container
redis_container = record {
  name = "redis";
  image = "redis:7-alpine";
  command = [];
  args = "--save" ∷ ("" ∷ ("--appendonly" ∷ ("no" ∷ [])));
  env = [];
  ports = ("", redis_port) ∷ [];
  config_mounts = [];
  allow_privilege_escalation = false;
  dropped_capabilities = "ALL" ∷ [];
}

unfoldable pub redis_deployment : String → OwnedObject
redis_deployment ns = desired deployment_kind ns redis_name (named_labels redis_name) (
    deployment_spec (record {
      replicas = pos 1;
      selector = named_labels redis_name;
      pod_labels = named_labels redis_name;
      run_as_non_root = true;
      run_as_user = some (pos 999);
      run_as_group = some (pos 1000);
      fs_group = some (pos 1000);
      container = redis_container;
      config_volumes = [];
    }))

service_of : String → String → String → ℤ → OwnedObject
service_of ns name port_name port = desired service_kind ns name managed_labels (
    service_spec (("app.kubernetes.io/name", name) ∷ [])
      (record { name = port_name; port = port; target_port = port } ∷ []))

unfoldable pub redis_service : String → OwnedObject
unfolding service_of
redis_service ns = service_of ns redis_name "redis" redis_port

abbrev pub rate_limit_container : Container
rate_limit_container = record {
  name = "ratelimit";
  image = "envoyproxy/ratelimit:master";
  command = "/bin/ratelimit" ∷ [];
  args = [];
  env =
      ("USE_STATSD", codes "false")
      ∷ (("LOG_LEVEL", codes "warn")
          ∷ (("REDIS_SOCKET_TYPE", codes "tcp")
              ∷ (("REDIS_URL", codes redis_name ++ (codes ":" ++ format_int redis_port))
                  ∷ (("RUNTIME_ROOT", codes "/data")
                      ∷ (("RUNTIME_SUBDIRECTORY", codes "ratelimit")
                          ∷ (("RUNTIME_WATCH_ROOT", codes "false")
                              ∷ (("RUNTIME_IGNOREDOTFILES", codes "true")
                                  ∷ (("GRPC_PORT", format_int rate_limit_port) ∷ []))))))));
  ports = ("grpc", rate_limit_port) ∷ [];
  config_mounts = ("config", "/data/ratelimit/config") ∷ [];
  allow_privilege_escalation = false;
  dropped_capabilities = "ALL" ∷ [];
}

unfoldable pub rate_limit_deployment : String → OwnedObject
rate_limit_deployment ns =
    desired deployment_kind ns rate_limit_service_name (named_labels rate_limit_service_name) (
      deployment_spec (record {
        replicas = pos 1;
        selector = named_labels rate_limit_service_name;
        pod_labels = named_labels rate_limit_service_name;
        run_as_non_root = true;
        run_as_user = none;
        run_as_group = none;
        fs_group = none;
        container = rate_limit_container;
        config_volumes = ("config", rate_limit_config_map_name) ∷ [];
      }))

unfoldable pub rate_limit_service : String → OwnedObject
unfolding service_of
rate_limit_service ns = service_of ns rate_limit_service_name "grpc" rate_limit_port

-- %T at the type of the object.
go_type : OwnedKind → Text
go_type config_map_kind = codes "*v1.ConfigMap"
go_type deployment_kind = codes "*v1.Deployment"
go_type service_kind = codes "*v1.Service"

unfoldable pub object_prefix : String → OwnedObject → Text
unfolding go_type
object_prefix verb x =
    codes verb
    ++ (codes " "
        ++ (go_type x.kind
            ++ (codes " " ++ (codes x.namespace ++ (codes "/" ++ (codes x.name ++ codes ": "))))))

module _ (p : Packages) (c : Cluster) where
  unfoldable pub created_owned : OwnedObject → Answer (Unit {0}) → Action (State c) (Unit {0})
  created_owned x (ok _) = pure tt
  created_owned x (err e) =
      if is_already_exists e then pure tt else wrap (object_prefix "create" x) (fail e)

  -- `mutate` writes the body onto the live object.
  unfoldable pub put_owned : OwnedObject → Answer OwnedObject → Action (State c) (Unit {0})
  put_owned x (ok live) =
      wrap (object_prefix "update" x)
        (write_object c (owned_update (record live { body = x.body })))
  put_owned x (err e) =
      if not (is_not_found e)
      then fail e
      else (do answer ← attempt (write_object c (owned_create x)); created_owned x answer)

  unfoldable pub apply_owned : AgentGatewayPlatform → OwnedObject → Action (State c) (Unit {0})
  unfolding observe
  apply_owned platform x = do
    owner ← lift (p.platform_reference platform)
    answer ← attempt (observe c (c.objects.get_owned x.kind x.namespace x.name))
    put_owned (record x { controller = some owner.name }) answer

  unfoldable pub with_row :
      AgentGatewayPlatform → String → Answer AgentGatewayCatalog → Action (State c) (Unit {0})
  with_row platform ns (ok catalog) = apply_owned platform (rate_limit_config (some catalog) ns)
  with_row platform ns (err e) =
      if is_not_found e then apply_owned platform (rate_limit_config none ns) else fail e

  unfoldable pub ensure_rate_limit_config :
      AgentGatewayPlatform → String → Action (State c) (Unit {0})
  ensure_rate_limit_config platform ns = do
    answer ← attempt (get_catalog c singleton_name)
    with_row platform ns answer

  -- The five steps, up to the first that fails.
  unfoldable pub rate_limit_steps : AgentGatewayPlatform → String → Action (State c) (Unit {0})
  rate_limit_steps platform ns = do
    ensure_rate_limit_config platform ns
    apply_owned platform (redis_deployment ns)
    apply_owned platform (redis_service ns)
    apply_owned platform (rate_limit_deployment ns)
    apply_owned platform (rate_limit_service ns)
