-- ===== src/Api/Cost/Resolve.antt =====
-- The spend ceiling that one grant is enforced at (`ResolveCostBudget` of cost.go).
use agentgateway_educates_op.Base.{
  ℕ, ◌≤◌, ◌<◌, ◌≡◌, Bool, true, false, ◌||◌, Text, ok, err, arith, is_nil, is_ok,
}
use agentgateway_educates_op.Api.Cost.{
  CostError, trim_space, parse_dollars_to_micro_dollars, resolve_cost_budget,
}
use agentgateway_educates_op.Api.Cost.Laws.{parse_dollars_bounds}

abbrev pub readable : Text → Bool
readable s = is_ok (parse_dollars_to_micro_dollars s)

trim_space-read :
    (s : Text) (m : ℕ) → parse_dollars_to_micro_dollars s ≡ ok m → is_nil (trim_space s) ≡ false
unfolding parse_dollars_to_micro_dollars
trim_space-read s m h = ground arith

module _ (grant dflt limit : Text) where
  pub configured_iff :
      (resolve_cost_budget grant dflt limit).configured ≡ (readable grant || readable dflt)
  unfolding resolve_cost_budget
  configured_iff = ground arith

  -- Under a maximum that can be read, the resolved amount is at most that maximum.
  pub resolve_cost_budget-within :
      (m : ℕ)
      → parse_dollars_to_micro_dollars limit ≡ ok m
      → (resolve_cost_budget grant dflt limit).micro_dollars ≤ m
  unfolding resolve_cost_budget
  resolve_cost_budget-within m h = ground (arith, trim_space-read limit m h)

  -- Under a maximum that is set and cannot be read, a budget that the grant or the catalog gives is
  -- cut to one micro-dollar and marked as clamped: a broken maximum closes, it does not open.
  pub resolve_cost_budget-unreadable :
      (e : CostError)
      → parse_dollars_to_micro_dollars limit ≡ err e
      → is_nil (trim_space limit) ≡ false
      → (readable grant || readable dflt) ≡ true
      → ((resolve_cost_budget grant dflt limit).micro_dollars ≡ 1)
        × ((resolve_cost_budget grant dflt limit).clamped ≡ true)
  unfolding resolve_cost_budget
  resolve_cost_budget-unreadable e h set some_budget = ground arith

  -- A configured budget is positive: what is asked for is, and no maximum takes it to zero.
  pub resolve_cost_budget-pos :
      (resolve_cost_budget grant dflt limit).configured ≡ true
      → 0 < (resolve_cost_budget grant dflt limit).micro_dollars
  unfolding resolve_cost_budget
  resolve_cost_budget-pos h =
      grind
        (arith, parse_dollars_bounds grant, parse_dollars_bounds dflt, parse_dollars_bounds limit)
