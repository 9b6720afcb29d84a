-- ===== src/Platform/Teardown/Order.antt =====
-- The order in which a platform is taken down.
use agentgateway_educates_op.Base.{
  String, ◌≡◌, refl, ap, Bool, true, false, ◌||◌, some, List, [], ◌∷◌, Text, ok, err, All, lookup,
  Bool-cases, inl, inr,
}
use agentgateway_educates_op.Kube.{Cluster, Answer}
use agentgateway_educates_op.Kube.Lawful.{ListsLabelled}
use agentgateway_educates_op.Sdk.Objects.{Custom, custom_delete}
use agentgateway_educates_op.Sdk.Releases.{uninstall_release}
use agentgateway_educates_op.Kube.Keeps.{
  Keeps, keeps_rules, Keeps-pure, Keeps-bind, Keeps-attempt, Keeps-wrap, Keeps-observe,
}
use agentgateway_educates_op.Kube.Traces.{
  Makes, Makes-pure, Makes-fail, Makes-perform, Makes-attempt, Makes-wrap, Makes-if, Makes-bind,
}
use agentgateway_educates_op.Kube.Scripts.{
  Item, once, any_of, Scripted, AddsOnly, AddsOnly-perform, Scripted-bind, Makes-Scripted,
  Keeps-Scripted,
}
use agentgateway_educates_op.Kube.Monad.{
  Action, State, Call, helm_call, object_call, namespace_delete, attempt, wrap, ◌>>=◌, observe,
  is_not_found, is_no_match, write_object,
}
use agentgateway_educates_op.Names.{
  rate_limit_release_name, agentgateway_release_name, agentgateway_crds_release_name, policy_name,
  gateway_name, parameters_name, agentgateway_group, kind_model, managed_by_label, managed_by_value,
}
use agentgateway_educates_op.Untyped.{
  new_policy, new_gateway, new_parameters, delete_if_present, tolerate, prune_legacy_gateway,
  prune_found, after_legacy_delete, is_managed, is_operator, get_like, is_method_not_supported,
}
use agentgateway_educates_op.Helm.{hook_only_strategy, action_timeout}
use agentgateway_educates_op.Platform.Teardown.{
  delete_custom, delete_each, drain_models, drain_listed, list_managed_models, drain_configuration,
}

-- A delete of an object that carries the operator's label.
unfoldable pub deletes_managed : Call → Bool
deletes_managed call = elim call [ object_call (custom_delete u) ↦ is_managed u.labels | _ ↦ false ]

-- The removal of a Helm release.
abbrev pub uninstalls : String → String → Call
uninstalls ns name = helm_call ns (
    uninstall_release (record {
      release_name = name;
      ignore_not_found = true;
      wait_strategy = hook_only_strategy;
      timeout = action_timeout;
    }))

abbrev pub deletes : Custom → Call
deletes u = object_call (custom_delete u)

-- What the operator wrote itself goes first, and the models that carry its label.
abbrev pub configuration_script : String → List Item
configuration_script ns =
    once (deletes (new_policy ns policy_name))
    ∷ (once (deletes (new_gateway ns gateway_name))
        ∷ (any_of deletes_managed
            ∷ (once (deletes (new_parameters ns parameters_name)) ∷ (any_of deletes_managed ∷ []))))

-- Then the releases, the control plane before its CRDs, and the namespace.
abbrev pub bundled_script : String → List Item
bundled_script ns =
    once (uninstalls ns rate_limit_release_name)
    ∷ (once (uninstalls ns agentgateway_release_name)
        ∷ (once (uninstalls ns agentgateway_crds_release_name) ∷ (once (namespace_delete ns) ∷ [])))

module _ (c : Cluster) where
  tolerate-Makes : (r : Answer (Unit {0})) → Makes c [] (tolerate c r)
  unfolding tolerate
  tolerate-Makes (ok _) = Makes-pure _
  tolerate-Makes (err e) =
      Makes-if _ (is_not_found e || (is_no_match e || is_method_not_supported e)) _ _ (Makes-pure _)
        (Makes-fail e)

  pub delete_if_present-Makes :
      (plan : List Call) (m : Action (State c) (Unit {0}))
      → Makes c plan m
      → Makes c plan (delete_if_present c m)
  unfolding delete_if_present
  delete_if_present-Makes plan m k = Makes-bind _ _ _ (Makes-attempt _ _ k) tolerate-Makes

  delete_custom-Makes : (u : Custom) → Makes c (deletes u ∷ []) (delete_custom c u)
  unfolding write_object
  delete_custom-Makes u = delete_if_present-Makes _ _ (Makes-perform _ _)

  delete-Scripted :
      (prefix : Text) (u : Custom)
      → Scripted c (once (deletes u) ∷ []) (wrap prefix (delete_custom c u))
  delete-Scripted prefix u = Makes-Scripted _ _ (Makes-wrap _ _ _ (delete_custom-Makes u))

  module _ (before : List Call) where
    abbrev Managed : {A : Type 0} → Action (State c) A → Type 0
    Managed m = Keeps c (AddsOnly deletes_managed before) m

    tolerate-Managed : (r : Answer (Unit {0})) → Managed (tolerate c r)
    unfolding tolerate
    tolerate-Managed (ok _) = Keeps-pure tt
    tolerate-Managed (err e) = search keeps_rules

    delete_custom-Managed : (u : Custom) → is_managed u.labels ≡ true → Managed (delete_custom c u)
    unfolding delete_if_present write_object deletes_managed
    delete_custom-Managed u h =
        Keeps-bind _ _ (Keeps-attempt _ (AddsOnly-perform deletes_managed before _ _ h))
          tolerate-Managed

    delete_each-Managed :
        (l : List Custom)
        → All (λ u. lookup managed_by_label u.labels ≡ some managed_by_value) l
        → Managed (delete_each c l)
    unfolding delete_each is_managed
    delete_each-Managed [] h = Keeps-pure tt
    delete_each-Managed (u ∷ l) (first, rest) =
        Keeps-bind _ _ (delete_custom-Managed u (ap is_operator first))
          (λ _. delete_each-Managed l rest)

    legacy_delete-Managed :
        (ns : String) (r : Answer (Unit {0})) → Managed (after_legacy_delete c ns r)
    unfolding after_legacy_delete
    legacy_delete-Managed ns (ok _) = Keeps-pure tt
    legacy_delete-Managed ns (err e) = search keeps_rules

    prune_found-Managed : (ns : String) (r : Answer Custom) → Managed (prune_found c ns r)
    unfolding prune_found write_object deletes_managed
    prune_found-Managed ns (err e) = search keeps_rules
    prune_found-Managed ns (ok legacy) = elim (Bool-cases (is_managed legacy.labels)) [
      | inl h ↦ rw h (
          Keeps-bind _ _ (Keeps-attempt _ (AddsOnly-perform deletes_managed before _ _ h))
            (legacy_delete-Managed ns))
      | inr h ↦ rw h (Keeps-pure tt)
    ]

    prune_legacy_gateway-Managed : (ns : String) → Managed (prune_legacy_gateway c ns)
    unfolding prune_legacy_gateway get_like
    prune_legacy_gateway-Managed ns =
        Keeps-bind _ _ (Keeps-attempt _ (Keeps-observe _)) (prune_found-Managed ns)

    drain_listed-Managed :
        (r : Answer (List Custom))
        → ((l : List Custom)
            → r ≡ ok l
            → All (λ u. lookup managed_by_label u.labels ≡ some managed_by_value) l)
        → Managed (drain_listed c r)
    unfolding drain_listed
    drain_listed-Managed (ok l) h = delete_each-Managed l (h l refl)
    drain_listed-Managed (err e) h = search keeps_rules

    -- What is deleted is what the list has answered.
    drain_models-Managed : (ns : String) → ListsLabelled c → Managed (drain_models c ns)
    unfolding drain_models attempt list_managed_models observe ◌>>=◌
    drain_models-Managed ns law = record {
      at = λ s h.
          let (r, w) =
            c.objects.list_custom agentgateway_group kind_model ns managed_by_label managed_by_value
              s.world in
          (drain_listed-Managed r (law.lists _ _ _ _ _ s.world)).at (record s { world = w }) h;
    }

  pub drain_configuration-Scripted :
      (ns : String)
      → ListsLabelled c
      → Scripted c (configuration_script ns) (drain_configuration c ns)
  unfolding drain_configuration
  drain_configuration-Scripted ns law =
      Scripted-bind (_ ∷ []) _ _ _ (delete-Scripted _ (new_policy ns policy_name)) (λ _.
        Scripted-bind (_ ∷ []) _ _ _ (delete-Scripted _ (new_gateway ns gateway_name)) (λ _.
          Scripted-bind (_ ∷ []) _ _ _
            (Keeps-Scripted deletes_managed _
              (λ before. Keeps-wrap _ _ (prune_legacy_gateway-Managed before ns)))
            (λ _.
              Scripted-bind (_ ∷ []) _ _ _ (delete-Scripted _ (new_parameters ns parameters_name))
                (λ _.
                  Keeps-Scripted deletes_managed _
                    (λ before. Keeps-wrap _ _ (drain_models-Managed before ns law))))))
