-- ===== src/Catalog/Render.antt =====
-- agentgatewaycatalog_controller.go: the two models of each entry, and the models that have no entry.
pub mod Prune
use agentgateway_educates_op.Base.{
  String, Bool, true, false, ◌||◌, not, ◌<>◌, Option, none, some, List, [], ◌∷◌, ◌++◌, Text, codes,
  ok, err, insert, str_eq, if◌then◌else◌,
}
use agentgateway_educates_op.Base.Int.{pos}
use agentgateway_educates_op.Api.Types.{CatalogModel}
use agentgateway_educates_op.Kube.{Packages, Cluster, Answer}
use agentgateway_educates_op.Sdk.Json.{
  Json, Fields, number, array, object, string, items_of, fields_from, set_field,
}
use agentgateway_educates_op.Sdk.Objects.{Custom, custom_create, custom_update, custom_delete}
use agentgateway_educates_op.Kube.Monad.{
  Action, State, pure, fail, attempt, wrap, ◌>>=◌, ◌>>◌, is_not_found, is_no_match,
  is_already_exists, write_object,
}
use agentgateway_educates_op.Names.{
  gateway_api_group, kind_gateway, gateway_name, managed_labels, managed_by_label, managed_by_value,
}
use agentgateway_educates_op.Untyped.{new_model, get_like}
use agentgateway_educates_op.Session.Status.{quoted}
use agentgateway_educates_op.Platform.Policy.{with_spec}
use agentgateway_educates_op.Platform.Teardown.{list_managed_models}

unfoldable pub internal_model_name : String → String
internal_model_name name = name <> "-upstream"

-- `CatalogModel.CredentialKey`
unfoldable pub credential_key : CatalogModel → String
credential_key model =
    if str_eq model.credential_ref.key "" then "api-key" else model.credential_ref.key

abbrev pub parent_refs : Json
parent_refs = array (
    items_of (
      object (
        fields_from (
          ("group", string gateway_api_group)
          ∷ (("kind", string kind_gateway) ∷ (("name", string gateway_name) ∷ []))))
      ∷ []))

abbrev pub one_field : String → Json → Json
one_field k v = object (fields_from ((k, v) ∷ []))

abbrev pub secret_ref : CatalogModel → Json
secret_ref model = object (
    fields_from
      (("name", string model.credential_ref.name) ∷ (("key", string (credential_key model)) ∷ [])))

-- The concrete model: provider, upstream name and credential.
unfoldable pub internal_spec : CatalogModel → Fields
internal_spec model =
    let base = fields_from (
      ("parentRefs", parent_refs)
      ∷ (("provider", string model.provider)
          ∷ (("visibility", string "Internal")
              ∷ (("match", one_field "model" (string model.model))
                  ∷ (("policies", one_field "auth" (one_field "secretRef" (secret_ref model)))
                      ∷ []))))) in
    if str_eq model.base_url "" then base else set_field "baseURL" (string model.base_url) base

abbrev pub weighted_target : String → Json
weighted_target name =
    object (
      fields_from
        (("modelRef", one_field "name" (string name)) ∷ (("weight", number (pos 1)) ∷ [])))

-- The model that an attendee addresses.
unfoldable pub alias_spec : CatalogModel → Fields
alias_spec model = fields_from (
    ("parentRefs", parent_refs)
    ∷ (("visibility", string "Public")
        ∷ (("match", one_field "model" (string model.name))
            ∷ ((
              "virtualModel",
              one_field "weighted" (
                  one_field "targets"
                    (array (items_of (weighted_target (internal_model_name model.name) ∷ [])))),
            )
                ∷ []))))

-- The names that the catalog accounts for.
unfoldable pub is_expected : List CatalogModel → String → Bool
is_expected [] name = false
is_expected (m ∷ l) name =
    str_eq m.name name || (str_eq (internal_model_name m.name) name || is_expected l name)

module _ (p : Packages) (c : Cluster) where
  unfoldable pub created_model : Answer (Unit {0}) → Action (State c) (Unit {0})
  created_model (ok _) = pure tt
  created_model (err e) = if is_already_exists e then pure tt else fail e

  -- The live object keeps its other labels.
  unfoldable pub put_model : String → String → Fields → Answer Custom → Action (State c) (Unit {0})
  put_model ns name spec (ok live) = do
    updated ← with_spec p c live spec
    write_object c (
        custom_update
          (record updated { labels = insert managed_by_label managed_by_value live.labels }))
  put_model ns name spec (err e) =
      if is_not_found e
      then (do
        desired ← with_spec p c (record (new_model ns name) { labels = managed_labels }) spec
        answer ← attempt (write_object c (custom_create desired))
        created_model answer)
      else fail e

  unfoldable pub apply_model : String → String → Fields → Action (State c) (Unit {0})
  apply_model ns name spec = do
    answer ← attempt (get_like c (new_model ns name))
    put_model ns name spec answer

  unfoldable pub render_model : String → CatalogModel → Action (State c) (Unit {0})
  render_model ns model = do
    wrap (codes "render internal model for " ++ (quoted model.name ++ codes ": "))
        (apply_model ns (internal_model_name model.name) (internal_spec model))
    wrap (codes "render alias for " ++ (quoted model.name ++ codes ": "))
        (apply_model ns model.name (alias_spec model))

module _ (c : Cluster) where
  unfoldable pub pruned_model : Custom → Answer (Unit {0}) → Action (State c) (Unit {0})
  pruned_model live (ok _) = pure tt
  pruned_model live (err e) =
      if is_not_found e
      then pure tt
      else wrap (codes "prune model " ++ (quoted live.name ++ codes ": ")) (fail e)

  unfoldable pub prune_model : List CatalogModel → Custom → Action (State c) (Unit {0})
  prune_model models live =
      if is_expected models live.name
      then pure tt
      else (do answer ← attempt (write_object c (custom_delete live)); pruned_model live answer)

  unfoldable pub prune_each : List CatalogModel → List Custom → Action (State c) (Unit {0})
  prune_each models [] = pure tt
  prune_each models (live ∷ l) = prune_model models live >> prune_each models l

  unfoldable pub prune_listed :
      List CatalogModel → Answer (List Custom) → Action (State c) (Unit {0})
  prune_listed models (ok l) = prune_each models l
  prune_listed models (err e) = if is_no_match e || is_not_found e then pure tt else fail e

  unfoldable pub prune_models : String → List CatalogModel → Action (State c) (Unit {0})
  prune_models ns models = do
    answer ← attempt (list_managed_models c ns)
    prune_listed models answer

module _ (p : Packages) (c : Cluster) where
  unfoldable pub render_each : String → List CatalogModel → Action (State c) (Unit {0})
  render_each ns [] = pure tt
  render_each ns (model ∷ l) = render_model p c ns model >> render_each ns l

  unfoldable pub render_models : String → List CatalogModel → Action (State c) (Unit {0})
  render_models ns models = render_each ns models >> prune_models c ns models
