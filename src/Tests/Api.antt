-- ===== src/Tests/Api.antt =====
-- Budgets, amounts and keys at concrete inputs.
use agentgateway_educates_op.Base.{
  ◌≡◌, refl, true, some, none, [], ◌∷◌, ◌≤◌, ◌<◌, Text, ok, arith, replicate,
}
use agentgateway_educates_op.Base.Int.{pos, ◌≤ℤ◌, ◌<ℤ◌}
use agentgateway_educates_op.Api.Budget.{resolve_token_budget}
use agentgateway_educates_op.Api.Budget.Laws.{
  resolve_token_budget-value, resolve_token_budget-within, bounded, asked,
}
use agentgateway_educates_op.Api.Cost.{
  parse_dollars_to_micro_dollars, resolve_cost_budget, not_decimal, trim_space, parse_digits,
  to_grain,
}
use agentgateway_educates_op.Api.Cost.Digits.{decimal_from}
use agentgateway_educates_op.Api.Cost.Grain.{parse_dollars-floor}
use agentgateway_educates_op.Api.Cost.Exact.{read_amount}
use agentgateway_educates_op.Api.Cost.Tail.{parse_dollars-tail}
use agentgateway_educates_op.Api.Cost.Resolve.{
  resolve_cost_budget-within, resolve_cost_budget-unreadable, resolve_cost_budget-pos,
}
use agentgateway_educates_op.Format.{format_micro_dollars, format_nat}
use agentgateway_educates_op.Format.RoundTrip.{parse_dollars-format, strip_dollar}
use agentgateway_educates_op.Tests.Memory.{packages, packages-IsLawful, memory_cluster}
use agentgateway_educates_op.Tests.Fixtures.{start, bare}
use agentgateway_educates_op.Key.{generate, is_participant_key}
use agentgateway_educates_op.Key.Laws.{generate-is_participant_key}

clamped_test : (resolve_token_budget (some (pos 900)) none (some (pos 500))).clamped ≡ true
unfolding resolve_token_budget
clamped_test = refl

dollars_test : parse_dollars_to_micro_dollars (b'2' ∷ b'.' ∷ b'5' ∷ []) ≡ ok 2500000
unfolding parse_dollars_to_micro_dollars trim_space parse_digits to_grain
dollars_test = refl

rendered_test : format_micro_dollars 2500000 ≡ b'$' ∷ b'2' ∷ b'.' ∷ b'5' ∷ b'0' ∷ []
unfolding format_micro_dollars format_nat
rendered_test = refl

resolve_token_budget-value_example :
    (resolve_token_budget (some (pos 900)) none (some (pos 500))).value
    ≡ bounded (some (pos 500)) (asked (some (pos 900)) none)
resolve_token_budget-value_example =
    resolve_token_budget-value (some (pos 900)) none (some (pos 500))

resolve_token_budget-within_example :
    (pos 0 <ℤ (resolve_token_budget (some (pos 900)) none (some (pos 500))).value)
    × ((resolve_token_budget (some (pos 900)) none (some (pos 500))).value ≤ℤ pos 500)
resolve_token_budget-within_example =
    resolve_token_budget-within (some (pos 900)) none (pos 500) (omega arith)

abbrev two_fifty : Text
two_fifty = b'2' ∷ b'.' ∷ b'5' ∷ []

abbrev nine : Text
nine = b'9' ∷ []

abbrev junk : Text
junk = b'x' ∷ []

resolve_cost_budget-within_example : (resolve_cost_budget two_fifty [] nine).micro_dollars ≤ 9000000
unfolding parse_dollars_to_micro_dollars trim_space parse_digits to_grain
resolve_cost_budget-within_example = resolve_cost_budget-within two_fifty [] nine 9000000 refl

resolve_cost_budget-unreadable_example :
    ((resolve_cost_budget two_fifty [] junk).micro_dollars ≡ 1)
    × ((resolve_cost_budget two_fifty [] junk).clamped ≡ true)
unfolding parse_dollars_to_micro_dollars trim_space parse_digits to_grain
resolve_cost_budget-unreadable_example =
    resolve_cost_budget-unreadable two_fifty [] junk not_decimal refl refl refl

resolve_cost_budget-pos_example : 0 < (resolve_cost_budget two_fifty [] nine).micro_dollars
unfolding parse_dollars_to_micro_dollars trim_space parse_digits to_grain resolve_cost_budget
resolve_cost_budget-pos_example = resolve_cost_budget-pos two_fifty [] nine refl

parse_dollars-floor_example : parse_dollars_to_micro_dollars two_fifty ≡ read_amount 2500000
unfolding decimal_from
parse_dollars-floor_example =
    parse_dollars-floor (b'2' ∷ []) (b'5' ∷ []) 2500000 refl refl refl refl
      (omega arith, omega arith)

parse_dollars-tail_example :
    parse_dollars_to_micro_dollars
      (b'1' ∷ b'.' ∷ b'0' ∷ b'0' ∷ b'0' ∷ b'0' ∷ b'0' ∷ b'1' ∷ b'x' ∷ [])
    ≡ parse_dollars_to_micro_dollars (b'1' ∷ b'.' ∷ b'0' ∷ b'0' ∷ b'0' ∷ b'0' ∷ b'0' ∷ b'1' ∷ [])
parse_dollars-tail_example =
    parse_dollars-tail (b'1' ∷ []) b'0' b'0' b'0' b'0' b'0' b'1' junk refl refl refl refl refl

parse_dollars-format_example :
    parse_dollars_to_micro_dollars (strip_dollar (format_micro_dollars 2500000)) ≡ ok 2500000
parse_dollars-format_example = parse_dollars-format 2500000 (omega arith) (omega arith)

generate-is_participant_key_example :
    (key : Text) × ((generate packages memory_cluster (start bare)).0 ≡ ok key)
    × (is_participant_key packages key ≡ true)
generate-is_participant_key_example =
    generate-is_participant_key packages memory_cluster (start bare) (replicate 32 7) bare
      packages-IsLawful refl refl
