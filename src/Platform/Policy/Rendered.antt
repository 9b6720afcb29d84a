-- ===== src/Platform/Policy/Rendered.antt =====
-- What the data plane reads in the rendered policy.
use agentgateway_educates_op.Base.{
  String, ◌≡◌, refl, ap, inl, inr, Option, none, some, List, [], ◌∷◌, ◌++◌, Text, codes, str_eq,
  Bool-cases, if◌then◌else◌,
}
use agentgateway_educates_op.Base.Int.{ℤ}
use agentgateway_educates_op.Format.{format_int}
use agentgateway_educates_op.Api.Types.{
  AgentGatewayCatalog, RateLimitFailureMode, unset_mode, fail_closed, fail_open,
}
use agentgateway_educates_op.Sdk.Json.{
  Json, Fields, null, text, array, object, item, no_fields, get_field, set_field, string,
  fields_from, items_of,
}
use agentgateway_educates_op.Platform.Policy.{
  policy_for, token_budget_override, window_expression, limit_object, render_policy_spec, traffic,
  global_rate_limit, token_descriptor, failure_mode, failure_mode_text, default_window,
}
use agentgateway_educates_op.Platform.RateLimit.{row_budget}

-- The fields of a map, none of another value.
abbrev within : Json → Fields
within (object m) = m
within _ = no_fields

abbrev first_of : Json → Json
first_of (array (item v l)) = v
first_of _ = null

-- The value at a path of keys.
abbrev pub at_keys : List String → Json → Json
at_keys [] v = v
at_keys (k ∷ path) v = at_keys path (get_field k (within v))

abbrev pub global_path : List String
global_path = "traffic" ∷ ("rateLimit" ∷ ("global" ∷ []))

-- The descriptor that every key is metered by, the failure mode and the timeout.
abbrev pub metering : Fields → Json
metering spec = first_of (get_field "descriptors" (within (at_keys global_path (object spec))))

abbrev pub mode_of : Fields → Json
mode_of spec = get_field "failureMode" (within (at_keys global_path (object spec)))

abbrev pub timeout_of : Fields → Json
timeout_of spec = at_keys ("traffic" ∷ ("timeouts" ∷ ("request" ∷ []))) (object spec)

abbrev timeout_asked : Option AgentGatewayCatalog → String
timeout_asked none = ""
timeout_asked (some catalog) = catalog.request_timeout

-- Open only where the catalog asks for it.
abbrev pub mode_name : Option AgentGatewayCatalog → String
mode_name none = "FailClosed"
mode_name (some catalog) = elim catalog.rate_limit [
  | none ↦ "FailClosed"
  | some mode ↦ elim mode [ fail_open ↦ "FailOpen" | _ ↦ "FailClosed" ]
]

mode_by :
    (catalog : AgentGatewayCatalog) (r : Option RateLimitFailureMode)
    → catalog.rate_limit ≡ r
    → failure_mode_text (failure_mode catalog) ≡ codes (mode_name (some catalog))
unfolding failure_mode failure_mode_text
mode_by catalog none e = rw e refl
mode_by catalog (some unset_mode) e = rw e refl
mode_by catalog (some fail_closed) e = rw e refl
mode_by catalog (some fail_open) e = rw e refl

-- The window and the limit that a key carries, or else the day and the limit given.
abbrev pub limit_text : Text → Text
limit_text limit =
    codes
      "{\"unit\": (has(apiKey.budgetWindow) ? apiKey.budgetWindow : \"day\"), \"requestsPerUnit\": "
    ++ (limit ++ codes "}")

-- Every key by its own token budget where it carries one, else by the fallback.
abbrev pub metered_by : ℤ → Json
metered_by fallback = object (
    fields_from (
      ("unit", string "Tokens")
      ∷ ((
        "entries",
        array (
            items_of (
              object (
                fields_from
                  (("name", string "session") ∷ (("expression", string "apiKey.session") ∷ [])))
              ∷ [])),
      )
          ∷ ((
            "limitOverride",
            text (
                codes "has(apiKey.tokenBudget) ? "
                ++ (limit_text (codes "int(apiKey.tokenBudget)")
                    ++ (codes " : " ++ limit_text (format_int fallback)))),
          )
              ∷ []))))

metered-token_descriptor :
    (fallback : ℤ) → token_descriptor default_window fallback ≡ metered_by fallback
unfolding token_descriptor token_budget_override window_expression limit_object codes
metered-token_descriptor fallback = refl

-- What the data plane reads in a spec is what the catalog asks for.
abbrev pub Renders : Fields → Option AgentGatewayCatalog → Type 0
Renders spec catalog =
    (metering spec ≡ metered_by (row_budget catalog))
    × (mode_of spec ≡ string (mode_name catalog))
    × (timeout_of spec
        ≡ (if str_eq (timeout_asked catalog) "" then null else string (timeout_asked catalog)))

-- The policy for a catalog, or for none, counts the tokens of each session by the limit that its key
-- carries, over the window that its key carries. For a key without a limit of its own it is the
-- budget of the rate-limit service's own row, and for one without a window the day. The policy
-- fails closed unless the catalog asks for open, and it sets a request timeout exactly where the
-- catalog asks for one.
pub policy_for-Renders :
    (catalog : Option AgentGatewayCatalog) (ns : String) → Renders (policy_for catalog ns) catalog
unfolding policy_for render_policy_spec traffic global_rate_limit row_budget get_field set_field
    fields_from items_of failure_mode_text
policy_for-Renders none ns = (metered-token_descriptor _, refl, refl)
policy_for-Renders (some catalog) ns = elim (Bool-cases (str_eq catalog.request_timeout "")) [
  | inl h ↦
      rw h (metered-token_descriptor _, ap text (mode_by catalog catalog.rate_limit refl), refl)
  | inr h ↦
      rw h (metered-token_descriptor _, ap text (mode_by catalog catalog.rate_limit refl), refl)
]
