-- ===== src/Api/Budget.antt =====
-- api/agentgateway/v1alpha1/budget.go: the token budget that one grant is enforced at.
pub mod Laws
use agentgateway_educates_op.Base.{Bool, true, false, not, ◌&&◌, Option, none, some, if◌then◌else◌}
use agentgateway_educates_op.Base.Int.{ℤ, pos, ltb_ℤ}
use agentgateway_educates_op.Api.Types.{AgentGatewayCatalog}

pub record ResolvedTokenBudget : Type 0 where
  pub value : ℤ
  pub inherited : Bool
  pub clamped : Bool
  pub requested : ℤ

abbrev pub default_token_budget : ℤ
default_token_budget = pos 100000

-- `p != nil && *p > 0`
abbrev pub is_positive : Option ℤ → Bool
is_positive none = false
is_positive (some n) = ltb_ℤ (pos 0) n

-- `*p` behind a test that `p` is not nil.
abbrev pub deref : Option ℤ → ℤ
deref none = pos 0
deref (some n) = n

-- The switch: the grant's own value, the catalog's default, the constant.
select_budget : Option ℤ → Option ℤ → ResolvedTokenBudget
select_budget grant catalog_default =
    if is_positive grant
    then record { value = deref grant; inherited = false; clamped = false; requested = pos 0 }
    else if is_positive catalog_default
    then record {
      value = deref catalog_default;
      inherited = true;
      clamped = false;
      requested = pos 0;
    }
    else record {
      value = default_token_budget;
      inherited = true;
      clamped = false;
      requested = pos 0;
    }

clamp_budget : Option ℤ → ResolvedTokenBudget → ResolvedTokenBudget
clamp_budget catalog_max resolved =
    if is_positive catalog_max && ltb_ℤ (deref catalog_max) resolved.value
    then record {
      value = deref catalog_max;
      inherited = resolved.inherited;
      clamped = not resolved.inherited;
      requested = resolved.value;
    }
    else resolved

unfoldable pub resolve_token_budget : Option ℤ → Option ℤ → Option ℤ → ResolvedTokenBudget
unfolding select_budget clamp_budget
resolve_token_budget grant catalog_default catalog_max =
    clamp_budget catalog_max (select_budget grant catalog_default)

abbrev pub catalog_default_token_budget : AgentGatewayCatalog → Option ℤ
catalog_default_token_budget c = elim c.budgets [ none ↦ none | some b ↦ b.default_token_budget ]

abbrev pub max_token_budget : AgentGatewayCatalog → Option ℤ
max_token_budget c = elim c.budgets [ none ↦ none | some b ↦ b.max_token_budget ]

unfoldable pub effective_default_token_budget : AgentGatewayCatalog → ℤ
effective_default_token_budget c =
    (resolve_token_budget none (catalog_default_token_budget c) (max_token_budget c)).value
