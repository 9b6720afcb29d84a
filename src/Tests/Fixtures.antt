-- ===== src/Tests/Fixtures.antt =====
-- A workshop's grant, its catalog, its platform, and memories with and without its objects.
use agentgateway_educates_op.Base.{String, true, false, none, some, [], ◌∷◌, Text}
use agentgateway_educates_op.Base.Int.{pos}
use agentgateway_educates_op.Api.Types.{
  AgentGatewaySession, AgentGatewayCatalog, AgentGatewayPlatform, bundled, existing, platform_ready,
  catalog_ready, new_session, unset,
}
use agentgateway_educates_op.Api.Session.{
  session_finalizer, secret_key_api_key, secret_key_base_url, registration_label,
}
use agentgateway_educates_op.Kube.{Namespace, Secret, ConfigMap, RegistrationEntry}
use agentgateway_educates_op.Kube.Monad.{State}
use agentgateway_educates_op.Session.Resolve.{read_catalog, ResolvedCatalog}
use agentgateway_educates_op.Session.Reconcile.{token_budget_of, cost_budget_of}
use agentgateway_educates_op.Session.Register.{desired_entry, expiry_for}
use agentgateway_educates_op.Tests.Memory.{packages, Memory, memory_cluster}

-- "s1" in the workshop namespace "w1", with 2.50 dollars and the catalog's tokens.
abbrev pub grant : AgentGatewaySession
grant = record {
  metadata = record {
    name = "s1";
    namespace = "w1";
    generation = 1;
    creation_timestamp = pos 100;
    deletion_timestamp = none;
    finalizers = session_finalizer ∷ [];
  };
  spec = record {
    catalog_ref_name = "";
    token_budget = none;
    cost_budget = b'2' ∷ b'.' ∷ b'5' ∷ [];
    budget_window = unset;
    ttl = b'1' ∷ b'h' ∷ [];
  };
  status = record {
    phase = new_session;
    conditions = [];
    observed_generation = 0;
    secret_ref = none;
    gateway_url = [];
    expires_at = none;
    session_namespace = "s1";
    effective_token_budget = pos 0;
    effective_cost_budget = [];
  };
}

abbrev pub deleted_grant : AgentGatewaySession
deleted_grant = record grant {
  metadata = record grant.metadata { deletion_timestamp = some (pos 200) };
}

abbrev pub new_grant : AgentGatewaySession
new_grant = record grant { metadata = record grant.metadata { finalizers = [] } }

abbrev pub url : Text
url = b'u' ∷ []

abbrev pub catalog : AgentGatewayCatalog
catalog = record {
  name = "cluster";
  generation = 1;
  models = [];
  rate_limit = none;
  request_timeout = "";
  budgets = some (record {
    default_token_budget = some (pos 50000);
    max_token_budget = some (pos 40000);
    default_cost_budget = [];
    max_cost_budget = b'9' ∷ [];
  });
  status = record {
    phase = catalog_ready;
    conditions =
        record {
          type_name = "Ready";
          status = true;
          reason = "Ready";
          message = [];
          observed_generation = 1;
        }
        ∷ [];
    observed_generation = 1;
    gateway_url = url;
    available_models = [];
  };
}

abbrev pub platform : AgentGatewayPlatform
platform = record {
  provider = bundled;
  bundled_namespace = "";
  external_agentgateway = none;
  gateway_api = existing;
  admin_exposed = false;
  metadata = record {
    name = "cluster";
    namespace = "";
    generation = 1;
    creation_timestamp = pos 0;
    deletion_timestamp = none;
    finalizers = [];
  };
  status = record {
    phase = platform_ready;
    conditions = [];
    observed_generation = 1;
    gateway_url = url;
    gateway_namespace = "gw";
    bundled_chart_versions = none;
  };
}

abbrev plain : String → Namespace
plain name = record {
  name = name;
  uid = "u";
  labels = [];
  owner_references = [];
  deletion_timestamp = none;
}

abbrev pub workshop_namespace : Namespace
workshop_namespace = plain "w1"

abbrev pub session_namespace : Namespace
session_namespace = record (plain "s1") {
  owner_references =
      record { api_version = "v1"; kind = "WorkshopSession"; name = "s1"; uid = "u" } ∷ [];
}

abbrev pub key : Text
key = b's' ∷ b'k' ∷ []

abbrev pub secret : Secret
secret = record {
  name = "s1-agentgateway";
  namespace = "w1";
  labels = [];
  owner_references = record { api_version = "v1"; kind = "Namespace"; name = "s1"; uid = "u" } ∷ [];
  contents = (secret_key_api_key, key) ∷ (secret_key_base_url, url) ∷ [];
}

abbrev pub empty_secret : Secret
empty_secret = record secret { contents = [] }

abbrev pub resolved : ResolvedCatalog
resolved = read_catalog catalog "gw"

abbrev pub entry : RegistrationEntry
entry =
    desired_entry packages grant key (expiry_for packages grant) (token_budget_of grant resolved)
      (cost_budget_of grant resolved)

abbrev pub registration : ConfigMap
registration = record {
  name = "s1-agentgateway";
  namespace = "gw";
  labels = (registration_label, "true") ∷ [];
  contents = ("s1", packages.json_marshal entry) ∷ [];
}

-- A registration whose time was up at 50.
abbrev pub stale : ConfigMap
stale = record {
  name = "old";
  namespace = "gw";
  labels = (registration_label, "true") ∷ [];
  contents =
      (
        "old",
        packages.json_marshal (record {
          key_hash = [];
          metadata = ("expiresAt", packages.format_rfc3339 (pos 50)) ∷ [];
        }),
      )
      ∷ [];
}

abbrev pub bare : Memory
bare = record {
  sessions = grant ∷ [];
  secrets = [];
  config_maps = [];
  namespaces = workshop_namespace ∷ (session_namespace ∷ (plain "gw" ∷ []));
  catalogs = catalog ∷ [];
  platforms = platform ∷ [];
  time = pos 300;
  broken_deletes = false;
  releases = [];
  customs = [];
  owned = [];
  deployments = [];
}

abbrev pub converged : Memory
converged = record bare { secrets = secret ∷ []; config_maps = registration ∷ [] }

abbrev pub broken : Memory
broken = record converged { broken_deletes = true }

abbrev pub start : Memory → State memory_cluster
start m = record { world = m; events = [] }
