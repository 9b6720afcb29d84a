-- ===== src/Untyped.antt =====
-- gateway_objects.go: the untyped objects, how they are read and how they are removed.
use agentgateway_educates_op.Base.{
  String, Bool, true, false, ◌||◌, not, Option, none, some, List, [], ◌∷◌, ◌++◌, Text, codes, ok,
  err, Dict, lookup, str_eq, if◌then◌else◌,
}
use agentgateway_educates_op.Kube.{Packages, Cluster, Answer, Error}
use agentgateway_educates_op.Sdk.Errors.{method_not_supported}
use agentgateway_educates_op.Sdk.Json.{Json, object, no_fields, get_field, is_string}
use agentgateway_educates_op.Sdk.Objects.{Custom, custom_delete}
use agentgateway_educates_op.Kube.Monad.{
  Action, State, pure, fail, attempt, wrap, ◌>>=◌, observe, write_object, is_not_found, is_no_match,
}
use agentgateway_educates_op.Names.{
  agentgateway_group, agentgateway_version, gateway_api_group, gateway_api_version, kind_gateway,
  kind_gateway_class, kind_parameters, kind_policy, kind_model, legacy_gateway_name, gateway_name,
  managed_by_label, managed_by_value,
}

-- An object without labels and contents, of a namespace and a name.
abbrev empty_custom : String → String → String → String → String → Custom
empty_custom group version kind ns name = record {
  group = group;
  version = version;
  kind = kind;
  namespace = ns;
  name = name;
  labels = [];
  contents = no_fields;
}

abbrev pub new_gateway_class : String → String → Custom
new_gateway_class = empty_custom gateway_api_group gateway_api_version kind_gateway_class

abbrev pub new_gateway : String → String → Custom
new_gateway = empty_custom gateway_api_group gateway_api_version kind_gateway

abbrev pub new_parameters : String → String → Custom
new_parameters = empty_custom agentgateway_group agentgateway_version kind_parameters

abbrev pub new_policy : String → String → Custom
new_policy = empty_custom agentgateway_group agentgateway_version kind_policy

abbrev pub new_model : String → String → Custom
new_model = empty_custom agentgateway_group agentgateway_version kind_model

-- The loop over the conditions: those that are not maps are passed over, and the first of the type
-- decides.
unfoldable pub first_condition : List Json → String → Bool
first_condition [] cond_type = false
first_condition (object cond ∷ l) cond_type =
    let rest = first_condition l cond_type in
    if is_string (get_field "type" cond) cond_type
    then is_string (get_field "status" cond) "True"
    else rest
first_condition (_ ∷ l) cond_type = first_condition l cond_type

in_slice : Answer (Option (List Json)) → String → Bool
in_slice (err e) cond_type = false
in_slice (ok none) cond_type = false
in_slice (ok (some conditions)) cond_type = first_condition conditions cond_type

unfoldable pub unstructured_condition_true : Packages → Custom → String → Bool
unfolding in_slice
unstructured_condition_true p u cond_type =
    in_slice (p.nested_slice u.contents ("status" ∷ ("conditions" ∷ []))) cond_type

abbrev pub is_operator : Option String → Bool
is_operator none = false
is_operator (some v) = str_eq v managed_by_value

-- Whether the object carries this operator's label.
unfoldable pub is_managed : Dict String → Bool
is_managed labels = is_operator (lookup managed_by_label labels)

abbrev pub is_method_not_supported : Error → Bool
is_method_not_supported e = elim e.kind [ method_not_supported ↦ true | _ ↦ false ]

unfoldable pub legacy_prefix : String → Text
legacy_prefix ns =
    codes "delete legacy Gateway "
    ++ (codes ns ++ (codes "/" ++ (codes legacy_gateway_name ++ codes ": ")))

module _ (c : Cluster) where
  unfoldable pub get_like : Custom → Action (State c) Custom
  unfolding observe
  get_like u = observe c (c.objects.get_custom u.group u.kind u.namespace u.name)

  unfoldable pub tolerate : Answer (Unit {0}) → Action (State c) (Unit {0})
  tolerate (ok _) = pure tt
  tolerate (err e) =
      if is_not_found e || (is_no_match e || is_method_not_supported e) then pure tt else fail e

  -- `deleteIfPresent`, over the call that deletes.
  unfoldable pub delete_if_present : Action (State c) (Unit {0}) → Action (State c) (Unit {0})
  unfolding tolerate
  delete_if_present delete = do answer ← attempt delete; tolerate answer

  unfoldable pub after_legacy_delete : String → Answer (Unit {0}) → Action (State c) (Unit {0})
  after_legacy_delete ns (ok _) = pure tt
  after_legacy_delete ns (err e) =
      if is_not_found e then pure tt else wrap (legacy_prefix ns) (fail e)

  unfoldable pub prune_found : String → Answer Custom → Action (State c) (Unit {0})
  prune_found ns (err e) = if is_not_found e || is_no_match e then pure tt else fail e
  prune_found ns (ok legacy) = if not (is_managed legacy.labels) then pure tt else (do
    answer ← attempt (write_object c (custom_delete legacy))
    after_legacy_delete ns answer)

  unfoldable pub prune_legacy_gateway : String → Action (State c) (Unit {0})
  unfolding prune_found after_legacy_delete
  prune_legacy_gateway ns = if str_eq legacy_gateway_name gateway_name then pure tt else (do
    answer ← attempt (get_like (new_gateway ns legacy_gateway_name))
    prune_found ns answer)
