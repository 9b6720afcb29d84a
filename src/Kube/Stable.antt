-- ===== src/Kube/Stable.antt =====
-- A property of the record that no further call can break is kept by every call.
use agentgateway_educates_op.Base.{String, List, [], ◌∷◌, ◌++◌}
use agentgateway_educates_op.Api.Types.{AgentGatewaySession}
use agentgateway_educates_op.Kube.{Cluster, Answer, Secret, ConfigMap}
use agentgateway_educates_op.Kube.Monad.{
  Event, Call, perform, get_session, get_namespace, get_catalog, get_platform, get_config_map,
  update_status, update_secret, create_secret, create_config_map, update_config_map,
}
use agentgateway_educates_op.Kube.Keeps.{Keeps, Keeps-observe, Keeps-perform}

-- One more call keeps `P`.
abbrev pub IsStable : (List Event → Type 0) → Type 0
IsStable P = (l : List Event) (e : Event) → P l → P (l ++ e ∷ [])

module _ {c : Cluster} {P : List Event → Type 0} (stable : IsStable P) where
  pub perform-Keeps :
      {A : Type 0} (call : Call) (f : c.World → Answer A × c.World) → Keeps c P (perform c call f)
  perform-Keeps call f = Keeps-perform call f (λ l b h. stable l _ h)

  pub create_secret-Keeps : (x : Secret) → Keeps c P (create_secret c x)
  unfolding create_secret
  create_secret-Keeps x = perform-Keeps _ _

  pub update_secret-Keeps : (x : Secret) → Keeps c P (update_secret c x)
  unfolding update_secret
  update_secret-Keeps x = perform-Keeps _ _

  pub create_config_map-Keeps : (x : ConfigMap) → Keeps c P (create_config_map c x)
  unfolding create_config_map
  create_config_map-Keeps x = perform-Keeps _ _

  pub update_config_map-Keeps : (x : ConfigMap) → Keeps c P (update_config_map c x)
  unfolding update_config_map
  update_config_map-Keeps x = perform-Keeps _ _

  pub update_status-Keeps : (x : AgentGatewaySession) → Keeps c P (update_status c x)
  unfolding update_status
  update_status-Keeps x = perform-Keeps _ _

  pub get_config_map-Keeps : (ns name : String) → Keeps c P (get_config_map c ns name)
  unfolding get_config_map
  get_config_map-Keeps ns name = Keeps-observe _

  pub get_session-Keeps : (ns name : String) → Keeps c P (get_session c ns name)
  unfolding get_session
  get_session-Keeps ns name = Keeps-observe _

  pub get_namespace-Keeps : (name : String) → Keeps c P (get_namespace c name)
  unfolding get_namespace
  get_namespace-Keeps name = Keeps-observe _

  pub get_catalog-Keeps : (name : String) → Keeps c P (get_catalog c name)
  unfolding get_catalog
  get_catalog-Keeps name = Keeps-observe _

  pub get_platform-Keeps : (name : String) → Keeps c P (get_platform c name)
  unfolding get_platform
  get_platform-Keeps name = Keeps-observe _
