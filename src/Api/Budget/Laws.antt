-- ===== src/Api/Budget/Laws.antt =====
-- What the token budget resolution guarantees (budget.go).
use agentgateway_educates_op.Base.{◌≡◌, true, false, Option, some, arith, if◌then◌else◌, ◌↔◌}
use agentgateway_educates_op.Base.Int.{ℤ, pos, ltb_ℤ, ◌≤ℤ◌, ◌<ℤ◌}
use agentgateway_educates_op.Api.Budget.{
  resolve_token_budget, default_token_budget, is_positive, deref,
}

-- The amount asked for before the maximum applies.
abbrev pub asked : Option ℤ → Option ℤ → ℤ
asked grant dflt =
    if is_positive grant
    then deref grant
    else if is_positive dflt
    then deref dflt
    else default_token_budget

abbrev min_ℤ : ℤ → ℤ → ℤ
min_ℤ a b = if ltb_ℤ b a then b else a

-- The smaller of the amount and the maximum, where there is one.
abbrev pub bounded : Option ℤ → ℤ → ℤ
bounded limit amount = if is_positive limit then min_ℤ amount (deref limit) else amount

-- The enforced budget is the grant's own if that is positive, else the catalog's default if that is
-- positive, else the constant; and where the maximum is positive, the smaller of that and it.
pub resolve_token_budget-value :
    (grant dflt limit : Option ℤ)
    → (resolve_token_budget grant dflt limit).value ≡ bounded limit (asked grant dflt)
unfolding resolve_token_budget
resolve_token_budget-value grant dflt limit = ground arith

pub resolve_token_budget-pos :
    (grant dflt limit : Option ℤ) → pos 0 <ℤ (resolve_token_budget grant dflt limit).value
unfolding resolve_token_budget
resolve_token_budget-pos grant dflt limit = ground arith

-- Under a positive maximum the enforced budget is positive and at most the maximum, whatever the
-- grant and the catalog ask for.
pub resolve_token_budget-within :
    (grant dflt : Option ℤ) (m : ℤ)
    → pos 0 <ℤ m
    → let v = (resolve_token_budget grant dflt (some m)).value in (pos 0 <ℤ v) × (v ≤ℤ m)
unfolding resolve_token_budget
resolve_token_budget-within grant dflt m h = ground arith

pub inherited_iff :
    (grant dflt limit : Option ℤ)
    → (((resolve_token_budget grant dflt limit).inherited ≡ true) ↔ (is_positive grant ≡ false))
unfolding resolve_token_budget
inherited_iff grant dflt limit = ground arith
