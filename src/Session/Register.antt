-- ===== src/Session/Register.antt =====
-- The key registration and its expiry (agentgatewaysession_controller.go: `ensureRegistration`,
-- `expiryFor`).
pub mod Stable
pub mod Laws
use agentgateway_educates_op.Base.{
  ℕ, String, Bool, true, false, not, Option, none, some, List, [], ◌∷◌, ◌++◌, Text, codes, ok, err,
  is_nil, lookup, if◌then◌else◌,
}
use agentgateway_educates_op.Base.Int.{ℤ, pos, ◌+ℤ◌}
use agentgateway_educates_op.Api.Types.{AgentGatewaySession}
use agentgateway_educates_op.Api.Session.{
  resource_name, budget_window, registration_label, session_label, session_ns_label,
}
use agentgateway_educates_op.Api.Budget.{ResolvedTokenBudget}
use agentgateway_educates_op.Api.Cost.{ResolvedCostBudget}
use agentgateway_educates_op.Kube.{Packages, Cluster, Answer, ConfigMap, RegistrationEntry}
use agentgateway_educates_op.Kube.Monad.{
  Action, State, pure, fail, attempt, wrap, ◌>>=◌, ◌>>◌, is_not_found, is_already_exists,
  get_config_map, create_config_map, update_config_map,
}
use agentgateway_educates_op.Key.{hash}
use agentgateway_educates_op.Registration.{
  build_registration, parse_registration, entry_equals, marshal_registration,
}
use agentgateway_educates_op.Names.{managed_by_label, managed_by_value}

abbrev pub default_ttl : Text
default_ttl = b'4' ∷ b'h' ∷ []

-- The budget that is pinned onto the registration, `none` for an inherited one.
abbrev pub registered_budget : ResolvedTokenBudget → Option ℤ
registered_budget b = if not b.inherited then some b.value else none

abbrev pub registered_cost : ResolvedCostBudget → Option ℕ
registered_cost cost = if cost.configured then some cost.micro_dollars else none

abbrev or_duration : Option ℤ → Option ℤ → ℤ
or_duration (some d) other = d
or_duration none none = pos 0
or_duration none (some d) = d

unfoldable pub desired_config_map : AgentGatewaySession → String → Text → ConfigMap
desired_config_map s gateway_namespace payload = record {
  name = resource_name s;
  namespace = gateway_namespace;
  labels =
      (registration_label, "true")
      ∷ (managed_by_label, managed_by_value)
      ∷ (session_label, s.metadata.name)
      ∷ (session_ns_label, s.metadata.namespace)
      ∷ [];
  contents = (s.metadata.name, payload) ∷ [];
}

module _ (p : Packages) where
  unfoldable pub expiry_for : AgentGatewaySession → ℤ
  expiry_for s =
      let ttl : Text = if is_nil s.spec.ttl then default_ttl else s.spec.ttl in
      s.metadata.creation_timestamp
      +ℤ or_duration (p.parse_duration ttl) (p.parse_duration default_ttl)

  unfoldable pub desired_entry :
      AgentGatewaySession → Text → ℤ → ResolvedTokenBudget → ResolvedCostBudget → RegistrationEntry
  desired_entry s key expires_at budget cost = build_registration p (record {
    key_hash = hash p key;
    session_name = s.metadata.name;
    token_budget = registered_budget budget;
    cost_micro_dollars = registered_cost cost;
    window = budget_window s;
    expires_at = expires_at;
  })

  abbrev entry_matches : RegistrationEntry → Answer RegistrationEntry → Bool
  entry_matches desired (err e) = false
  entry_matches desired (ok entry) = entry_equals entry desired

  -- The published entry is the wanted one already.
  pub up_to_date : RegistrationEntry → Option Text → Bool
  up_to_date desired none = false
  up_to_date desired (some existing) = entry_matches desired (parse_registration p existing)

module _ (p : Packages) (c : Cluster) where
  pub after_register : Answer (Unit {0}) → Action (State c) (Unit {0})
  after_register (ok _) = pure tt
  after_register (err e) =
      if is_already_exists e
      then pure tt
      else fail (record e { message = codes "create key registration: " ++ e.message })

  pub publish_over :
      RegistrationEntry → ConfigMap → String → ConfigMap → Action (State c) (Unit {0})
  publish_over entry desired session_name live =
      if up_to_date p entry (lookup session_name live.contents)
      then pure tt
      else wrap (codes "update key registration: ") (
          update_config_map c
            (record live { contents = desired.contents; labels = desired.labels }))

  pub with_config_map :
      RegistrationEntry → ConfigMap → String → Answer ConfigMap → Action (State c) (Unit {0})
  with_config_map entry desired session_name (err e) =
      if is_not_found e
      then (do answer ← attempt (create_config_map c desired); after_register answer)
      else fail e
  with_config_map entry desired session_name (ok live) =
      publish_over entry desired session_name live

  pub register_payload :
      AgentGatewaySession → String → RegistrationEntry → Answer Text → Action (State c) (Unit {0})
  register_payload s gateway_namespace entry (err e) = fail e
  register_payload s gateway_namespace entry (ok payload) = do
    answer ← attempt (get_config_map c gateway_namespace (resource_name s))
    with_config_map entry (desired_config_map s gateway_namespace payload) s.metadata.name answer

  unfoldable pub ensure_registration :
      AgentGatewaySession
      → String
      → Text
      → ℤ
      → ResolvedTokenBudget
      → ResolvedCostBudget
      → Action (State c) (Unit {0})
  unfolding register_payload with_config_map publish_over after_register up_to_date
  ensure_registration s gateway_namespace key expires_at budget cost =
      let entry = desired_entry p s key expires_at budget cost in
      register_payload s gateway_namespace entry (marshal_registration p entry)
