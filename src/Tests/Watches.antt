-- ===== src/Tests/Watches.antt =====
-- The watches at concrete inputs.
use mathlib.Core.List.{Memᴰ}
use agentgateway_educates_op.Base.{
  ◌≡◌, ◌⊎◌, refl, ap, Bool, true, false, none, some, [], ◌∷◌, lookup,
}
use agentgateway_educates_op.Base.Int.{pos}
use agentgateway_educates_op.Api.Types.{AgentGatewaySession, AgentGatewayCatalog}
use agentgateway_educates_op.Api.Session.{catalog_name}
use agentgateway_educates_op.Api.Budget.{resolve_token_budget}
use agentgateway_educates_op.Api.Cost.{
  resolve_cost_budget, parse_dollars_to_micro_dollars, trim_space, parse_digits, to_grain,
}
use agentgateway_educates_op.Kube.{RegistrationEntry}
use agentgateway_educates_op.Registration.{build_registration}
use agentgateway_educates_op.Session.Register.{desired_entry}
use agentgateway_educates_op.Session.Secrets.{minted_secret}
use agentgateway_educates_op.Session.Watches.{map_secret_to_session, select_sessions}
use agentgateway_educates_op.Session.Watches.Laws.{
  map_secret_to_session-minted, select_sessions-reaches, entry_under, request_of,
}
use agentgateway_educates_op.Tests.Memory.{packages}
use agentgateway_educates_op.Tests.Fixtures.{grant, catalog, key, url}

map_secret_to_session-minted_example :
    map_secret_to_session (minted_secret grant key url)
    ≡ record { namespace = "w1"; name = "s1" } ∷ []
map_secret_to_session-minted_example = map_secret_to_session-minted grant key url refl refl

-- The grant's catalog with a cost budget that other grants inherit.
abbrev poor_grant : AgentGatewaySession
poor_grant = record grant { spec = record grant.spec { cost_budget = [] } }

abbrev priced : AgentGatewayCatalog
priced = record catalog {
  budgets = some (record {
    default_token_budget = none;
    max_token_budget = none;
    default_cost_budget = b'5' ∷ [];
    max_cost_budget = [];
  });
}

-- Whether the entry carries a cost budget.
abbrev has_cost : RegistrationEntry → Bool
has_cost e = elim (lookup "costBudget" e.metadata) [ none ↦ false | some v ↦ true ]

prices_differ :
    entry_under packages poor_grant "gw" key (pos 9) catalog
      ≡ entry_under packages poor_grant "gw" key (pos 9) priced
    → ⊥
unfolding desired_entry build_registration resolve_cost_budget parse_dollars_to_micro_dollars
    trim_space parse_digits to_grain resolve_token_budget
prices_differ e = let bad : false ≡ true = ap has_cost e in cc

select_sessions-reaches_example :
    Memᴰ (request_of poor_grant) (select_sessions catalog (poor_grant ∷ []))
    ⊎ Memᴰ (request_of poor_grant) (select_sessions priced (poor_grant ∷ []))
unfolding catalog_name
select_sessions-reaches_example =
    select_sessions-reaches packages poor_grant catalog priced (poor_grant ∷ []) "gw" key (pos 9)
      (Memᴰ.head refl) refl refl prices_differ
