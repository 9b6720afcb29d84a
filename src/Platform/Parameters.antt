-- ===== src/Platform/Parameters.antt =====
-- gateway_objects.go: the parameters overlay, and the admin interface within it.
pub mod Ports
use agentgateway_educates_op.Base.{
  String, Bool, true, false, ◌&&◌, ◌||◌, not, ◌==◌, Option, none, some, List, [], ◌∷◌, ◌++◌, Text,
  codes, ok, err, is_nil, if◌then◌else◌,
}
use agentgateway_educates_op.Base.Int.{ℤ, pos, negsuc}
use agentgateway_educates_op.Api.Types.{AgentGatewayPlatform}
use agentgateway_educates_op.Kube.{Packages, Cluster, Answer}
use agentgateway_educates_op.Sdk.Json.{
  Json, Fields, no_fields, field, null, text, number, array, object, string, items_of, fields_from,
}
use agentgateway_educates_op.Sdk.Objects.{Custom, custom_create, custom_update}
use agentgateway_educates_op.Kube.Monad.{
  Action, State, pure, fail, lift, attempt, ◌>>=◌, ◌>>◌, is_not_found, write_object,
}
use agentgateway_educates_op.Names.{parameters_name, managed_labels}
use agentgateway_educates_op.Untyped.{new_parameters, get_like}

abbrev pub ports_path : List String
ports_path = "spec" ∷ ("service" ∷ ("spec" ∷ ("ports" ∷ [])))

abbrev pub type_path : List String
type_path = "spec" ∷ ("service" ∷ ("spec" ∷ ("type" ∷ [])))

abbrev pub raw_path : List String
raw_path = "spec" ∷ ("rawConfig" ∷ [])

abbrev pub config_path : List String
config_path = "spec" ∷ ("rawConfig" ∷ ("config" ∷ []))

abbrev pub addr_path : List String
addr_path = "spec" ∷ ("rawConfig" ∷ ("config" ∷ ("adminAddr" ∷ [])))

abbrev pub admin_port : ℤ
admin_port = pos 15000

abbrev pub is_int : Answer (Option ℤ) → ℤ → Bool
is_int (ok (some (pos m))) (pos n) = m == n
is_int _ _ = false

module _ (p : Packages) where
  -- A port map with the admin port's number.
  unfoldable pub is_admin_port : Json → Bool
  is_admin_port (object port) = is_int (p.nested_int64 port ("port" ∷ [])) admin_port
  is_admin_port _ = false

  -- The ports that are not the admin interface's, in order.
  unfoldable pub other_ports : List Json → List Json
  other_ports [] = []
  other_ports (raw ∷ l) = let rest = other_ports l in if is_admin_port raw then rest else raw ∷ rest

abbrev pub admin_service_port : Json
admin_service_port = object (
    fields_from (
      ("name", string "admin")
      ∷ (("port", number admin_port)
          ∷ (("protocol", string "TCP") ∷ (("targetPort", number admin_port) ∷ [])))))

abbrev pub listed : Option (List Json) → List Json
listed none = []
listed (some l) = l

-- What the list of ports becomes.
unfoldable pub kept_ports : Packages → Bool → List Json → List Json
kept_ports p exposed ports =
    if exposed then other_ports p ports ++ admin_service_port ∷ [] else other_ports p ports

unfoldable pub admin_interface_exposed : AgentGatewayPlatform → Bool
admin_interface_exposed platform = platform.admin_exposed

abbrev is_empty_map : Option Fields → Bool
is_empty_map (some no_fields) = true
is_empty_map _ = false

module _ (p : Packages) {S : Type 0} where
  unfoldable pub with_ports : Fields → List Json → Action S Fields
  with_ports contents kept =
      if is_nil kept
      then pure (p.remove_nested_field contents ports_path)
      else lift (p.set_nested_field contents (array (items_of kept)) ports_path)

  unfoldable pub apply_admin_service_port : Fields → Bool → Action S Fields
  apply_admin_service_port contents exposed = do
    ports ← lift (p.nested_slice contents ports_path)
    with_ports contents (kept_ports p exposed (listed ports))

  -- An emptied block goes as well.
  unfoldable pub prune_empty : Fields → List String → Action S Fields
  prune_empty contents path = do
    block ← lift (p.nested_map contents path)
    pure (if is_empty_map block then p.remove_nested_field contents path else contents)

  unfoldable pub apply_admin_addr : Fields → Bool → Action S Fields
  apply_admin_addr contents exposed =
      if exposed then lift (p.set_nested_field contents (string "[::]:15000") addr_path) else (do
        pruned ← prune_empty (p.remove_nested_field contents addr_path) config_path
        prune_empty pruned raw_path)

  unfoldable pub apply_admin_interface : Fields → Bool → Action S Fields
  apply_admin_interface contents exposed = do
    bound ← apply_admin_addr contents exposed
    apply_admin_service_port bound exposed

  -- The fields of the overlay that the operator owns.
  unfoldable pub with_parameters : AgentGatewayPlatform → Custom → Action S Custom
  with_parameters platform u = do
    typed ← lift (p.set_nested_field u.contents (string "ClusterIP") type_path)
    contents ← apply_admin_interface typed (admin_interface_exposed platform)
    pure (record u { contents = contents })

module _ (p : Packages) (c : Cluster) where
  unfoldable pub put_parameters :
      AgentGatewayPlatform → Custom → Answer Custom → Action (State c) (Unit {0})
  put_parameters platform desired (err e) =
      if is_not_found e then write_object c (custom_create desired) else fail e
  put_parameters platform desired (ok live) = do
    updated ← with_parameters p platform live
    write_object c (custom_update updated)

  unfoldable pub ensure_parameters : AgentGatewayPlatform → String → Action (State c) (Unit {0})
  ensure_parameters platform ns = do
    desired ←
        with_parameters p platform
          (record (new_parameters ns parameters_name) { labels = managed_labels })
    answer ← attempt (get_like c (new_parameters ns parameters_name))
    put_parameters platform desired answer
