-- ===== src/Platform/Gateway.antt =====
-- gateway_objects.go: the Gateway, what its listener accepts and the overlay that it refers to.
pub mod Listeners
use agentgateway_educates_op.Base.{
  String, Bool, true, false, ◌&&◌, ◌||◌, not, Option, none, some, List, [], ◌∷◌, ◌++◌, Text, codes,
  ok, err, if◌then◌else◌,
}
use agentgateway_educates_op.Base.Int.{ℤ, pos}
use agentgateway_educates_op.Kube.{Packages, Cluster, Answer}
use agentgateway_educates_op.Sdk.Json.{
  Json, Fields, no_fields, null, text, number, array, object, string, items_of, fields_from,
  get_field, set_field, is_string,
}
use agentgateway_educates_op.Sdk.Objects.{Custom, custom_create, custom_update}
use agentgateway_educates_op.Kube.Monad.{
  Action, State, pure, fail, lift, attempt, wrap, ◌>>=◌, ◌>>◌, observe, is_not_found, is_no_match,
  is_already_exists, write_object,
}
use agentgateway_educates_op.Names.{
  gateway_name, gateway_class_name, gateway_listener_name, parameters_name, agentgateway_group,
  kind_parameters, kind_model, gateway_api_group, gateway_api_version, kind_gateway,
  kind_http_route, managed_labels,
}
use agentgateway_educates_op.Untyped.{new_gateway, get_like, prune_legacy_gateway}

abbrev pub gateway_port : ℤ
gateway_port = pos 4000

abbrev route_kind : String → String → Json
route_kind group kind =
    object (fields_from (("group", string group) ∷ (("kind", string kind) ∷ [])))

abbrev pub listener_route_kinds : Json
listener_route_kinds = array (
    items_of (
      route_kind gateway_api_group kind_http_route
      ∷ (route_kind agentgateway_group kind_model ∷ [])))

abbrev pub from_all : Json
from_all = object (fields_from (("from", string "All") ∷ []))

abbrev pub parameters_ref : Fields
parameters_ref = fields_from (
    ("group", string agentgateway_group)
    ∷ (("kind", string kind_parameters) ∷ (("name", string parameters_name) ∷ [])))

abbrev pub listener : Json
listener = object (
    fields_from (
      ("name", string gateway_listener_name)
      ∷ (("port", number gateway_port)
          ∷ (("protocol", string "HTTP")
              ∷ ((
                "allowedRoutes",
                object (
                    fields_from
                      (("namespaces", from_all) ∷ (("kinds", listener_route_kinds) ∷ []))),
              )
                  ∷ [])))))

unfoldable pub gateway_spec : Fields
gateway_spec = fields_from (
    ("gatewayClassName", string gateway_class_name)
    ∷ (("infrastructure", object (fields_from (("parametersRef", object parameters_ref) ∷ [])))
        ∷ (("listeners", array (items_of (listener ∷ []))) ∷ [])))

abbrev pub as_map : Json → Fields
as_map (object m) = m
as_map _ = no_fields

-- A key that is absent, or no map, reads as an empty map.
abbrev pub map_at : String → Fields → Fields
map_at k m = as_map (get_field k m)

abbrev pub is_null : Json → Bool
is_null null = true
is_null _ = false

-- What the loop has made of the listeners, and whether it has changed one.
pub record Scanned : Type 0 where
  pub listeners : List Json
  pub changed : Bool

module _ (p : Packages) where
  -- The routes of the operator's own listener, where they do not name the model kind.
  unfoldable pub allow_models : Fields → Fields
  allow_models allowed =
      let kinds = set_field "kinds" listener_route_kinds allowed in
      if is_null (get_field "namespaces" kinds)
      then set_field "namespaces" from_all kinds
      else kinds

  unfoldable pub needs_kinds : Fields → Bool
  needs_kinds l =
      is_string (get_field "name" l) gateway_listener_name
      && not (p.deep_equal (get_field "kinds" (map_at "allowedRoutes" l)) listener_route_kinds)

  unfoldable pub with_kinds : Json → Json
  with_kinds (object l) =
      if needs_kinds l
      then object (set_field "allowedRoutes" (object (allow_models (map_at "allowedRoutes" l))) l)
      else object l
  with_kinds raw = raw

  unfoldable pub misses_kinds : Json → Bool
  misses_kinds (object l) = needs_kinds l
  misses_kinds _ = false

  unfoldable pub scan_listeners : List Json → Scanned
  scan_listeners [] = record { listeners = []; changed = false }
  scan_listeners (raw ∷ l) =
      let rest = scan_listeners l in
      record {
        listeners = with_kinds raw ∷ rest.listeners;
        changed = misses_kinds raw || rest.changed;
      }

module _ (p : Packages) (c : Cluster) where
  unfoldable pub update_listeners : Custom → Scanned → Action (State c) (Unit {0})
  update_listeners gw scanned = if not scanned.changed then pure tt else (do
    contents ← lift (
        p.set_nested_field gw.contents (array (items_of scanned.listeners))
          ("spec" ∷ ("listeners" ∷ [])))
    write_object c (custom_update (record gw { contents = contents })))

  unfoldable pub ensure_listener_route_kinds : Custom → Action (State c) (Unit {0})
  ensure_listener_route_kinds gw = do
    listeners ← lift (p.nested_slice gw.contents ("spec" ∷ ("listeners" ∷ [])))
    elim listeners [ none ↦ pure tt | some l ↦ update_listeners gw (scan_listeners p l) ]

  abbrev pub ref_path : List String
  ref_path = "spec" ∷ ("infrastructure" ∷ ("parametersRef" ∷ []))

  pub has_ref : Option Fields → Bool
  has_ref none = false
  has_ref (some current) = p.deep_equal (object current) (object parameters_ref)

  unfoldable pub ensure_gateway_parameters_ref : Custom → Action (State c) (Unit {0})
  unfolding has_ref
  ensure_gateway_parameters_ref gw = do
    current ← lift (p.nested_map gw.contents ref_path)
    if has_ref current then pure tt else (do
      contents ← lift (p.set_nested_field gw.contents (object parameters_ref) ref_path)
      write_object c (custom_update (record gw { contents = contents })))

  gateway_prefix : String → Text
  gateway_prefix ns =
      codes "create Gateway " ++ (codes ns ++ (codes "/" ++ (codes gateway_name ++ codes ": ")))

  unfoldable pub created_gateway : String → Answer (Unit {0}) → Action (State c) (Unit {0})
  unfolding gateway_prefix
  created_gateway ns (ok _) = pure tt
  created_gateway ns (err e) =
      if is_already_exists e then pure tt else wrap (gateway_prefix ns) (fail e)

  -- The live object is read again, since the first step may have written it.
  unfoldable pub put_gateway : String → Answer Custom → Action (State c) (Unit {0})
  put_gateway ns (ok live) = do
    ensure_listener_route_kinds live
    reread ← get_like c (new_gateway ns gateway_name)
    ensure_gateway_parameters_ref reread
  put_gateway ns (err e) = if not (is_not_found e) then fail e else (do
    contents ← lift (p.set_nested_field no_fields (object gateway_spec) ("spec" ∷ []))
    answer ← attempt (
        write_object c (
          custom_create (record (new_gateway ns gateway_name) {
            labels = managed_labels;
            contents = contents;
          })))
    created_gateway ns answer)

  unfoldable pub ensure_gateway : String → Action (State c) (Unit {0})
  ensure_gateway ns = do
    prune_legacy_gateway c ns
    answer ← attempt (get_like c (new_gateway ns gateway_name))
    put_gateway ns answer

module _ (c : Cluster) where
  unfoldable pub rest_mapping : Action (State c) (Unit {0})
  unfolding observe
  rest_mapping =
      observe c (c.objects.rest_mapping gateway_api_group kind_gateway gateway_api_version)

  -- The mapper may have been asked before the kinds were there: it is reset and asked once more.
  unfoldable pub second_mapping : Answer (Unit {0}) → Action (State c) Bool
  second_mapping (ok _) = pure true
  second_mapping (err e) = if is_no_match e then pure false else fail e

  unfoldable pub reset_and_ask : Action (State c) Bool
  unfolding observe
  reset_and_ask = do
    resettable ← observe c (λ w. (ok (c.objects.mapper_resettable w), w))
    if not resettable then pure false else (do
      observe c (λ w. (ok tt, c.objects.reset_mapper w))
      again ← attempt rest_mapping
      second_mapping again)

  unfoldable pub first_mapping : Answer (Unit {0}) → Action (State c) Bool
  first_mapping (ok _) = pure true
  first_mapping (err e) = if is_no_match e then reset_and_ask else fail e

  unfoldable pub gateway_api_present : Action (State c) Bool
  gateway_api_present = do answer ← attempt rest_mapping; first_mapping answer
