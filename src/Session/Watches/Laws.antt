-- ===== src/Session/Watches/Laws.antt =====
-- That the objects which a grant owns, and the catalogs that it draws on, wake that grant.
use agentgateway_educates_op.Base.{
  String, ◌≡◌, refl, sym, true, false, none, List, [], ◌∷◌, Text, arith, str_eq, is_nil, Bool-cases,
  inl, inr, ◌⊎◌,
}
use agentgateway_educates_op.Base.Int.{ℤ}
use agentgateway_educates_op.Api.Types.{AgentGatewaySession, AgentGatewayCatalog}
use agentgateway_educates_op.Api.Session.{needs_reconcile_on_catalog_change, catalog_name}
use agentgateway_educates_op.Api.Cost.{
  parse_dollars_to_micro_dollars, trim_space, catalog_default_cost_budget, max_cost_budget,
}
use agentgateway_educates_op.Api.Cost.Resolve.{readable, configured_iff}
use agentgateway_educates_op.Api.Budget.{catalog_default_token_budget, max_token_budget}
use agentgateway_educates_op.Api.Budget.Laws.{inherited_iff}
use agentgateway_educates_op.Session.Register.{registered_budget, registered_cost, desired_entry}
use agentgateway_educates_op.Session.Resolve.{read_catalog}
use agentgateway_educates_op.Session.Reconcile.{token_budget_of, cost_budget_of}
use agentgateway_educates_op.Session.Secrets.{minted_secret}
use agentgateway_educates_op.Kube.{Packages, RegistrationEntry}
use mathlib.Core.List.{Memᴰ}
use agentgateway_educates_op.Session.Watches.{
  Request, map_secret_to_session, select_sessions, is_woken, offers_cost,
}

-- The Secret that is minted for a grant wakes that grant, and only it.
pub map_secret_to_session-minted :
    (s : AgentGatewaySession) (key url : Text)
    → str_eq s.metadata.name "" ≡ false
    → str_eq s.metadata.namespace "" ≡ false
    → map_secret_to_session (minted_secret s key url)
      ≡ record { namespace = s.metadata.namespace; name = s.metadata.name } ∷ []
unfolding map_secret_to_session minted_secret
map_secret_to_session-minted s key url named placed = rw (named, placed) refl

unread : (t : Text) → is_nil t ≡ true → readable t ≡ false
unfolding parse_dollars_to_micro_dollars trim_space
unread [] h = refl
unread (x ∷ t) h = ground arith

-- A grant without budgets of its own carries none, where the catalog offers no cost budget.
registered-unset :
    (s : AgentGatewaySession) (catalog : AgentGatewayCatalog) (ns : String)
    → needs_reconcile_on_catalog_change s (offers_cost catalog) ≡ false
    → (registered_budget (token_budget_of s (read_catalog catalog ns)) ≡ none)
      × (registered_cost (cost_budget_of s (read_catalog catalog ns)) ≡ none)
unfolding needs_reconcile_on_catalog_change
registered-unset s catalog ns h = (
  rw
      ((inherited_iff s.spec.token_budget (catalog_default_token_budget catalog)
          (max_token_budget catalog)).1
        (ground arith))
      refl,
  rw
      (
        configured_iff s.spec.cost_budget (catalog_default_cost_budget catalog)
            (max_cost_budget catalog),
        unread s.spec.cost_budget (ground arith),
        unread (catalog_default_cost_budget catalog) (ground arith),
      )
      refl,
)

-- What a grant is registered as, under a catalog.
abbrev pub entry_under :
    Packages → AgentGatewaySession → String → Text → ℤ → AgentGatewayCatalog → RegistrationEntry
entry_under p s ns key expires_at catalog =
    desired_entry p s key expires_at (token_budget_of s (read_catalog catalog ns))
      (cost_budget_of s (read_catalog catalog ns))

-- The registration of such a grant is the same under any two such catalogs.
desired_entry-unset :
    (p : Packages) (s : AgentGatewaySession) (old new : AgentGatewayCatalog) (ns : String)
    (key : Text) (expires_at : ℤ)
    → needs_reconcile_on_catalog_change s (offers_cost old) ≡ false
    → needs_reconcile_on_catalog_change s (offers_cost new) ≡ false
    → entry_under p s ns key expires_at old ≡ entry_under p s ns key expires_at new
unfolding desired_entry
desired_entry-unset p s old new ns key expires_at h h' =
    let (tokens, cost) = registered-unset s old ns h in
    let (tokens', cost') = registered-unset s new ns h' in rw (tokens, cost, tokens', cost') refl

abbrev pub request_of : AgentGatewaySession → Request
request_of s = record { namespace = s.metadata.namespace; name = s.metadata.name }

select_sessions-woken :
    (catalog : AgentGatewayCatalog) (s : AgentGatewaySession) (l : List AgentGatewaySession)
    → Memᴰ s l
    → is_woken catalog s ≡ true
    → Memᴰ (request_of s) (select_sessions catalog l)
unfolding select_sessions
select_sessions-woken catalog s [] m h = elim m [ ]
select_sessions-woken catalog s (x ∷ l) (Memᴰ.head e) h = rw (sym e, h) (Memᴰ.head refl)
select_sessions-woken catalog s (x ∷ l) (Memᴰ.tail m) h = elim (Bool-cases (is_woken catalog x)) [
  | inl first ↦ rw first (Memᴰ.tail (select_sessions-woken catalog s l m h))
  | inr first ↦ rw first (select_sessions-woken catalog s l m h)
]

-- An edit of a catalog that changes what a listed grant of the catalog is registered as wakes that
-- grant: its request is among those for the catalog as it was or for the catalog as it is, which
-- are both queued for an update.
pub select_sessions-reaches :
    (p : Packages) (s : AgentGatewaySession) (old new : AgentGatewayCatalog)
    (l : List AgentGatewaySession) (ns : String) (key : Text) (expires_at : ℤ)
    → Memᴰ s l
    → str_eq (catalog_name s) old.name ≡ true
    → str_eq (catalog_name s) new.name ≡ true
    → (entry_under p s ns key expires_at old ≡ entry_under p s ns key expires_at new → ⊥)
    → Memᴰ (request_of s) (select_sessions old l) ⊎ Memᴰ (request_of s) (select_sessions new l)
select_sessions-reaches p s old new l ns key expires_at m named named' differ =
    elim (Bool-cases (needs_reconcile_on_catalog_change s (offers_cost old))) [
      | inl h ↦ inl (select_sessions-woken old s l m (rw (named, h) refl))
      | inr h ↦ elim (Bool-cases (needs_reconcile_on_catalog_change s (offers_cost new))) [
        | inl h' ↦ inr (select_sessions-woken new s l m (rw (named', h') refl))
        | inr h' ↦ elim (differ (desired_entry-unset p s old new ns key expires_at h h')) [ ]
      ]
    ]
