-- ===== src/Platform/Policy.antt =====
-- policy.go: the one policy that authenticates participants' keys and meters them.
pub mod Rendered
use agentgateway_educates_op.Base.{
  String, Bool, true, false, ◌||◌, ◌&&◌, not, Option, none, some, List, [], ◌∷◌, ◌++◌, Text, codes,
  ok, err, str_eq, if◌then◌else◌,
}
use agentgateway_educates_op.Base.Int.{ℤ, pos}
use agentgateway_educates_op.Format.{format_int, format_nat}
use agentgateway_educates_op.Api.Types.{
  AgentGatewayCatalog, RateLimitFailureMode, unset_mode, fail_closed, fail_open, day,
}
use agentgateway_educates_op.Api.Session.{singleton_name, registration_label}
use agentgateway_educates_op.Api.Budget.{default_token_budget, effective_default_token_budget}
use agentgateway_educates_op.Api.Cost.{micro_dollars_per_dollar}
use agentgateway_educates_op.Registration.{
  metadata_key_session, metadata_key_budget_window, metadata_key_cost_budget, window_text,
}
use agentgateway_educates_op.Kube.{Packages, Cluster, Answer}
use agentgateway_educates_op.Sdk.Json.{
  Json, Fields, text, number, array, object, string, items_of, fields_from, set_field, get_field,
}
use agentgateway_educates_op.Sdk.Objects.{Custom, custom_create, custom_update}
use agentgateway_educates_op.Kube.Monad.{
  Action, State, pure, fail, lift, attempt, wrap, ◌>>=◌, ◌>>◌, is_not_found, is_already_exists,
  get_catalog, write_object,
}
use agentgateway_educates_op.Names.{
  gateway_api_group, kind_gateway, gateway_name, rate_limit_domain, rate_limit_service_name,
  policy_name, managed_labels,
}
use agentgateway_educates_op.Untyped.{new_policy, get_like}

-- `has(apiKey.KEY) ? A : B`
abbrev key_field : String → Text
key_field key = codes "apiKey." ++ codes key

quoted_text : Text → Text
quoted_text t = b'"' ∷ (t ++ b'"' ∷ [])

unfoldable pub window_expression : Text → Text
unfolding quoted_text
window_expression window =
    codes "(has("
    ++ (key_field metadata_key_budget_window
        ++ (codes ") ? "
            ++ (key_field metadata_key_budget_window
                ++ (codes " : " ++ (quoted_text window ++ codes ")")))))

-- The object that limitOverride evaluates to.
unfoldable pub limit_object : Text → Text → Text
unfolding quoted_text
limit_object unit requests =
    codes "{"
    ++ (quoted_text (codes "unit")
        ++ (codes ": "
            ++ (unit
                ++ (codes ", "
                    ++ (quoted_text (codes "requestsPerUnit")
                        ++ (codes ": " ++ (requests ++ codes "}")))))))

unfoldable pub token_budget_override : Text → ℤ → Text
unfolding limit_object
token_budget_override window fallback =
    codes "has(apiKey.tokenBudget) ? "
    ++ (limit_object (window_expression window) (codes "int(apiKey.tokenBudget)")
        ++ (codes " : " ++ limit_object (window_expression window) (format_int fallback)))

unfoldable pub cost_budget_override : Text → Text
unfolding limit_object
cost_budget_override window =
    codes "has("
    ++ (key_field metadata_key_cost_budget
        ++ (codes ") ? "
            ++ (limit_object (window_expression window)
                  (codes "int(" ++ (key_field metadata_key_cost_budget ++ codes ")"))
                ++ (codes " : " ++ limit_object (window_expression window) (codes "1")))))

abbrev pub unpriced_request_micro_dollars : ℤ
unpriced_request_micro_dollars = pos 1000

priced : Text
priced = codes "int(llm.cost.total * " ++ (format_nat micro_dollars_per_dollar ++ codes ")")

unfoldable pub cost_expression : Text
unfolding priced
cost_expression =
    codes "has(llm.cost) ? ("
    ++ (priced
        ++ (codes " > 0 ? "
            ++ (priced
                ++ (codes " : "
                    ++ (format_int unpriced_request_micro_dollars
                        ++ (codes ") : " ++ format_int unpriced_request_micro_dollars))))))

abbrev pub entry_of : String → Json
entry_of key =
    object (fields_from (("name", string key) ∷ (("expression", text (key_field key)) ∷ [])))

unfoldable pub token_descriptor : Text → ℤ → Json
token_descriptor window fallback = object (
    fields_from (
      ("unit", string "Tokens")
      ∷ (("entries", array (items_of (entry_of metadata_key_session ∷ [])))
          ∷ (("limitOverride", text (token_budget_override window fallback)) ∷ []))))

unfoldable pub cost_descriptor : Text → Json
cost_descriptor window = object (
    fields_from (
      ("unit", string "Tokens")
      ∷ ((
        "entries",
        array (items_of (entry_of metadata_key_session ∷ (entry_of metadata_key_cost_budget ∷ []))),
      )
          ∷ (("cost", text cost_expression)
              ∷ (("limitOverride", text (cost_budget_override window)) ∷ [])))))

-- string(failureMode)
unfoldable pub failure_mode_text : RateLimitFailureMode → Text
failure_mode_text unset_mode = []
failure_mode_text fail_closed = codes "FailClosed"
failure_mode_text fail_open = codes "FailOpen"

abbrev api_key_authentication : Json
api_key_authentication = object (
    fields_from (
      ("mode", string "Strict")
      ∷ ((
        "configMapSelector",
        object (
            fields_from (
              ("matchLabels", object (fields_from ((registration_label, string "true") ∷ [])))
              ∷ [])),
      )
          ∷ [])))

abbrev backend_ref : String → Json
backend_ref ns = object (
    fields_from (
      ("group", string "")
      ∷ (("kind", string "Service")
          ∷ (("name", string rate_limit_service_name)
              ∷ (("namespace", string ns) ∷ (("port", number (pos 8081)) ∷ []))))))

unfoldable pub global_rate_limit : RateLimitFailureMode → String → Text → ℤ → Fields
global_rate_limit mode ns window fallback = fields_from (
    ("domain", string rate_limit_domain)
    ∷ (("backendRef", backend_ref ns)
        ∷ (("failureMode", text (failure_mode_text mode))
            ∷ ((
              "descriptors",
              array (items_of (token_descriptor window fallback ∷ (cost_descriptor window ∷ []))),
            )
                ∷ []))))

abbrev target_refs : Json
target_refs = array (
    items_of (
      object (
        fields_from (
          ("group", string gateway_api_group)
          ∷ (("kind", string kind_gateway) ∷ (("name", string gateway_name) ∷ []))))
      ∷ []))

-- The timeouts only where one is asked for.
unfoldable pub traffic : RateLimitFailureMode → String → String → Text → ℤ → Fields
traffic mode ns timeout window fallback =
    let base = fields_from (
      ("apiKeyAuthentication", api_key_authentication)
      ∷ ((
        "rateLimit",
        object (fields_from (("global", object (global_rate_limit mode ns window fallback)) ∷ [])),
      )
          ∷ [])) in
    if str_eq timeout ""
    then base
    else set_field "timeouts" (object (fields_from (("request", string timeout) ∷ []))) base

unfoldable pub render_policy_spec : RateLimitFailureMode → String → String → Text → ℤ → Fields
render_policy_spec mode ns timeout window fallback = fields_from (
    ("targetRefs", target_refs)
    ∷ (("traffic", object (traffic mode ns timeout window fallback)) ∷ []))

-- `(*AgentGatewayCatalog).FailureMode`
unfoldable pub failure_mode : AgentGatewayCatalog → RateLimitFailureMode
failure_mode catalog = elim catalog.rate_limit [
  | none ↦ fail_closed
  | some mode ↦ elim mode [
    | unset_mode ↦ fail_closed
    | fail_closed ↦ fail_closed
    | fail_open ↦ fail_open
  ]
]

-- string(DefaultBudgetWindow)
abbrev pub default_window : Text
default_window = window_text day

-- The spec for a catalog, and without one.
unfoldable pub policy_for : Option AgentGatewayCatalog → String → Fields
policy_for none ns = render_policy_spec fail_closed ns "" default_window default_token_budget
policy_for (some catalog) ns =
    render_policy_spec (failure_mode catalog) ns catalog.request_timeout default_window
      (effective_default_token_budget catalog)

module _ (p : Packages) (c : Cluster) where
  -- SetNestedMap at "spec".
  abbrev pub with_spec : Custom → Fields → Action (State c) Custom
  with_spec u spec = do
    contents ← lift (p.set_nested_field u.contents (object spec) ("spec" ∷ []))
    pure (record u { contents = contents })

  pub created_policy : Answer (Unit {0}) → Action (State c) (Unit {0})
  created_policy (ok _) = pure tt
  created_policy (err e) =
      if is_already_exists e then pure tt else wrap (codes "create API-key policy: ") (fail e)

  unfoldable pub put_policy : String → Fields → Answer Custom → Action (State c) (Unit {0})
  unfolding created_policy
  put_policy ns spec (ok live) = do
    updated ← with_spec live spec
    write_object c (custom_update updated)
  put_policy ns spec (err e) = if not (is_not_found e) then fail e else (do
    desired ← with_spec (record (new_policy ns policy_name) { labels = managed_labels }) spec
    answer ← attempt (write_object c (custom_create desired))
    created_policy answer)

  unfoldable pub put_policy_for : String → Option AgentGatewayCatalog → Action (State c) (Unit {0})
  put_policy_for ns catalog = do
    answer ← attempt (get_like c (new_policy ns policy_name))
    put_policy ns (policy_for catalog ns) answer

  unfoldable pub with_catalog : String → Answer AgentGatewayCatalog → Action (State c) (Unit {0})
  with_catalog ns (ok catalog) = put_policy_for ns (some catalog)
  with_catalog ns (err e) = if is_not_found e then put_policy_for ns none else fail e

  unfoldable pub ensure_policy : String → Action (State c) (Unit {0})
  ensure_policy ns = do answer ← attempt (get_catalog c singleton_name); with_catalog ns answer
