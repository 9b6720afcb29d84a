-- ===== src/Session/Register/Laws.antt =====
-- What the gateway enforces by the registration of a grant, against what the grant reports.
use agentgateway_educates_op.Base.{
  String, ◌≡◌, refl, true, Option, none, some, [], ◌∷◌, Text, ok, err, arith, lookup, ap,
  Bool-cases, inl, inr, All,
}
use agentgateway_educates_op.Base.Int.{ℤ, pos, negsuc, ◌<ℤ◌}
use agentgateway_educates_op.Api.Types.{AgentGatewaySession, AgentGatewayCatalog}
use agentgateway_educates_op.Api.Session.{resource_name, budget_window}
use agentgateway_educates_op.Key.{hash}
use agentgateway_educates_op.Api.Budget.{
  ResolvedTokenBudget, resolve_token_budget, effective_default_token_budget,
  catalog_default_token_budget, max_token_budget,
}
use agentgateway_educates_op.Api.Budget.Laws.{resolve_token_budget-pos}
use agentgateway_educates_op.Api.Cost.{ResolvedCostBudget}
use agentgateway_educates_op.Api.Cost.Digits.{decimal_from}
use agentgateway_educates_op.Format.{format_int}
use agentgateway_educates_op.Format.Laws.{format_nat-decimal}
use agentgateway_educates_op.Kube.{Answer, Packages, Cluster, ConfigMap, RegistrationEntry}
use agentgateway_educates_op.Kube.Monad.{
  State, get_config_map, create_config_map, update_config_map, Event, config_map_create,
  config_map_update, ◌>>=◌,
}
use agentgateway_educates_op.Registration.{
  build_registration, RegistrationInputs, parse_registration, marshal_registration,
  metadata_key_token_budget,
}
use agentgateway_educates_op.Registration.Laws.{
  entry_equals-build, build_registration-fields, number_text,
}
use agentgateway_educates_op.Session.Resolve.{read_catalog}
use agentgateway_educates_op.Session.Reconcile.{ready_session, published, token_budget_of}
use agentgateway_educates_op.Session.Status.{with_condition}
use agentgateway_educates_op.Session.Register.{
  desired_entry, ensure_registration, registered_budget, registered_cost, up_to_date, publish_over,
  with_config_map, register_payload, after_register, desired_config_map,
}
use agentgateway_educates_op.Kube.Keeps.{
  Keeps, keeps_rules, Keeps-write, Keeps-if, Keeps-pure, Keeps-wrap,
}

-- What the gateway reads as the budget of a key: the pinned field, or else the budget that the
-- policy gives to keys without one.
abbrev pub enforced_tokens : ℤ → Option Text → ℤ
enforced_tokens row none = row
enforced_tokens row (some pinned) = pos (decimal_from 0 pinned)

format_int-decimal : (n : ℤ) (row : ℤ) → pos 0 <ℤ n → enforced_tokens row (some (format_int n)) ≡ n
unfolding format_int
format_int-decimal (pos n) row h = ap pos (format_nat-decimal n)
format_int-decimal (negsuc n) row h = ground arith

inherited_row :
    (grant dflt limit : Option ℤ)
    → (resolve_token_budget grant dflt limit).inherited ≡ true
    → (resolve_token_budget none dflt limit).value ≡ (resolve_token_budget grant dflt limit).value
unfolding resolve_token_budget
inherited_row grant dflt limit h = ground arith

enforced_tokens-resolved :
    (grant dflt limit : Option ℤ)
    → let b = resolve_token_budget grant dflt limit in
      enforced_tokens
        (resolve_token_budget none dflt limit).value
        (number_text (registered_budget b))
      ≡ b.value
enforced_tokens-resolved grant dflt limit =
    let b = resolve_token_budget grant dflt limit in
    elim (Bool-cases b.inherited) [
      | inl h ↦ rw h (inherited_row grant dflt limit h)
      | inr h ↦ rw h (
          format_int-decimal b.value (resolve_token_budget none dflt limit).value
            (resolve_token_budget-pos grant dflt limit))
    ]

abbrev pub inputs :
    Packages
    → AgentGatewaySession
    → Text
    → ℤ
    → ResolvedTokenBudget
    → ResolvedCostBudget
    → RegistrationInputs
inputs p s key expires_at budget cost = record {
  key_hash = hash p key;
  session_name = s.metadata.name;
  token_budget = registered_budget budget;
  cost_micro_dollars = registered_cost cost;
  window = budget_window s;
  expires_at = expires_at;
}

-- The token budget that the gateway enforces for a grant's key (the one that the registration
-- carries, or the policy's row for the catalog where it carries none) is the effective token
-- budget that the finished pass reports in the grant's status.
pub desired_entry-enforced :
    (p : Packages) (c : Cluster) (s : AgentGatewaySession) (catalog : AgentGatewayCatalog)
    (gateway_namespace owner : String) (key : Text) (expires_at : ℤ) (cost : ResolvedCostBudget)
    → let resolved = read_catalog catalog gateway_namespace in
      let entry = desired_entry p s key expires_at (token_budget_of s resolved) cost in
      enforced_tokens
        (effective_default_token_budget catalog)
        (lookup metadata_key_token_budget entry.metadata)
      ≡ (ready_session p c s resolved owner).status.effective_token_budget
unfolding effective_default_token_budget desired_entry ready_session published with_condition
desired_entry-enforced p c s catalog gateway_namespace owner key expires_at cost =
    let budget = token_budget_of s (read_catalog catalog gateway_namespace) in
    rw ((build_registration-fields p (inputs p s key expires_at budget cost)).3) (
      enforced_tokens-resolved s.spec.token_budget (catalog_default_token_budget catalog)
        (max_token_budget catalog))

pub parse_registration-marshal :
    (p : Packages) (e : RegistrationEntry)
    → p.json_unmarshal (p.json_marshal e) ≡ some e
    → parse_registration p (p.json_marshal e) ≡ ok e
unfolding parse_registration
parse_registration-marshal p e readable = rw (readable, parse_registration) refl

up_to_date-marshal :
    (p : Packages) (i : RegistrationInputs)
    → let e = build_registration p i in
      p.json_unmarshal (p.json_marshal e) ≡ some e → up_to_date p e (some (p.json_marshal e)) ≡ true
unfolding up_to_date
up_to_date-marshal p i readable =
    rw (parse_registration-marshal p (build_registration p i) readable) (entry_equals-build p i)

module _ (p : Packages) (c : Cluster) (s : AgentGatewaySession) (ns : String) (key : Text)
    (expires_at : ℤ) (budget : ResolvedTokenBudget) (cost : ResolvedCostBudget) where
  -- A registration that carries the wanted entry already is left as it is.
  pub ensure_registration-current :
      (st : State c) (w : c.World) (live : ConfigMap)
      → (let e = desired_entry p s key expires_at budget cost in
          p.json_unmarshal (p.json_marshal e) ≡ some e)
      → c.get_config_map ns (resource_name s) st.world ≡ (ok live, w)
      → lookup s.metadata.name live.contents
        ≡ some (p.json_marshal (desired_entry p s key expires_at budget cost))
      → ensure_registration p c s ns key expires_at budget cost st
        ≡ (ok tt, record st { world = w })
  unfolding ensure_registration ◌>>=◌ get_config_map register_payload with_config_map publish_over
      up_to_date parse_registration marshal_registration desired_entry
  ensure_registration-current st w live readable got holds =
      rw (got, holds, up_to_date-marshal p (inputs p s key expires_at budget cost) readable)

-- A publication of `payload` and nothing else.
abbrev pub Publishes : AgentGatewaySession → String → Text → Event → Type 0
Publishes s ns payload e = elim e.call [
  | config_map_create x ↦ x ≡ desired_config_map s ns payload
  | config_map_update x ↦
      (x.contents ≡ (s.metadata.name, payload) ∷ [])
      × (x.labels ≡ (desired_config_map s ns payload).labels)
  | _ ↦ ⊥
]

module _ (p : Packages) (c : Cluster) (s : AgentGatewaySession) (ns : String) (payload : Text) where
  create-Publishes :
      Keeps c (All (Publishes s ns payload)) (create_config_map c (desired_config_map s ns payload))
  unfolding create_config_map
  create-Publishes = Keeps-write (Publishes s ns payload) _ _ (λ b. refl)

  update-Publishes :
      (live : ConfigMap)
      → Keeps c (All (Publishes s ns payload)) (
          update_config_map c (record live {
            contents = (desired_config_map s ns payload).contents;
            labels = (desired_config_map s ns payload).labels;
          }))
  unfolding update_config_map desired_config_map
  update-Publishes live = Keeps-write (Publishes s ns payload) _ _ (λ b. (refl, refl))

  after_register-Publishes :
      (r : Answer (Unit {0})) → Keeps c (All (Publishes s ns payload)) (after_register p c r)
  unfolding after_register
  after_register-Publishes (ok x) = search keeps_rules
  after_register-Publishes (err e) = search keeps_rules

  with_config_map-Publishes :
      (entry : RegistrationEntry) (r : Answer ConfigMap)
      → Keeps c
          (All (Publishes s ns payload))
          (with_config_map p c entry (desired_config_map s ns payload) s.metadata.name r)
  unfolding with_config_map publish_over
  with_config_map-Publishes entry (ok live) =
      Keeps-if _ _ _ (Keeps-pure _) (Keeps-wrap _ _ (update-Publishes live))
  with_config_map-Publishes entry (err e) =
      search (keeps_rules, create-Publishes, after_register-Publishes)

  get_config_map-Publishes :
      Keeps c (All (Publishes s ns payload)) (get_config_map c ns (resource_name s))
  unfolding get_config_map
  get_config_map-Publishes = search keeps_rules

  register_payload-Publishes :
      (entry : RegistrationEntry)
      → Keeps c (All (Publishes s ns payload)) (register_payload p c s ns entry (ok payload))
  unfolding register_payload
  register_payload-Publishes entry =
      search (keeps_rules, get_config_map-Publishes, with_config_map-Publishes)

-- Whatever the cluster answers, all that `ensureRegistration` writes is the wanted entry: a ConfigMap
-- created as wanted, or the live one with its data and labels replaced by the wanted ones.
pub ensure_registration-Publishes :
    (p : Packages) (c : Cluster) (s : AgentGatewaySession) (ns : String) (key : Text)
    (expires_at : ℤ) (budget : ResolvedTokenBudget) (cost : ResolvedCostBudget) (st : State c)
    → let payload = p.json_marshal (desired_entry p s key expires_at budget cost) in
      All (Publishes s ns payload) st.events
      → All
          (Publishes s ns payload)
          (ensure_registration p c s ns key expires_at budget cost st).1.events
unfolding ensure_registration marshal_registration
ensure_registration-Publishes p c s ns key expires_at budget cost st h =
    let entry = desired_entry p s key expires_at budget cost in
    (register_payload-Publishes p c s ns (p.json_marshal entry) entry).at st h
