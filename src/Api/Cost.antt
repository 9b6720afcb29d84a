-- ===== src/Api/Cost.antt =====
-- api/agentgateway/v1alpha1/cost.go: dollars as text, micro-dollars, and the cost budget of a grant.
pub mod Digits
pub mod Laws
pub mod Exact
pub mod Grain
pub mod Resolve
pub mod Tail
use agentgateway_educates_op.Base.{
  ℕ, zero, suc, ◌+◌, ◌-◌, ◌*◌, ◌/◌, ◌^◌, Bool, true, false, not, ◌&&◌, ◌||◌, Option, none, some,
  List, [], ◌∷◌, ◌++◌, reverse, Text, Result, ok, err, ltb, leb, ◌==◌, if◌then◌else◌, length, take,
  replicate, is_nil, any,
}
use agentgateway_educates_op.Api.Types.{AgentGatewayCatalog}

abbrev pub max_int64 : ℕ
max_int64 = 9223372036854775807

abbrev pub cost_decimal_places : ℕ
cost_decimal_places = 6

abbrev pub micro_dollars_per_dollar : ℕ
micro_dollars_per_dollar = 1000000

-- The errors of the package, without the text that quotes the input.
pub data CostError : Type 0 where
  empty_budget signed_budget two_points not_decimal rounds_to_zero : CostError
  no_digits not_a_digit out_of_range : CostError

-- unicode.IsSpace: the white space that strings.TrimSpace cuts.
abbrev pub is_space : ℕ → Bool
is_space c =
    leb 9 c && leb c 13
    || c == 32
    || c == 0x85
    || c == 0xa0
    || c == 0x1680
    || leb 0x2000 c && leb c 0x200a
    || c == 0x2028
    || c == 0x2029
    || c == 0x202f
    || c == 0x205f
    || c == 0x3000

pub trim_left : Text → Text
trim_left [] = []
trim_left (c ∷ s) = elim (is_space c) [ true ↦ trim_left s | false ↦ c ∷ s ]

unfoldable pub trim_space : Text → Text
unfolding trim_left
trim_space s = reverse (trim_left (reverse (trim_left s)))

-- strings.HasPrefix with "-" or "+".
abbrev pub has_sign : Text → Bool
has_sign [] = false
has_sign (c ∷ s) = c == b'-' || c == b'+'

pub record CutText : Type 0 where
  pub before : Text
  pub after : Text
  pub found : Bool

-- strings.Cut at a decimal point.
pub cut_point : Text → CutText
cut_point [] = record { before = []; after = []; found = false }
cut_point (c ∷ s) =
    let rest = cut_point s in
    if c == b'.'
    then record { before = []; after = s; found = true }
    else record rest { before = c ∷ rest.before }

abbrev pub is_digit : ℕ → Bool
is_digit c = leb b'0' c && leb c b'9'

-- The loop of `parseDigits`, with the guard before the arithmetic.
pub parse_digits_from : ℕ → Text → Result CostError ℕ
parse_digits_from n [] = ok n
parse_digits_from n (r ∷ s) =
    let d = r - b'0' in
    let rest = parse_digits_from (n * 10 + d) s in
    if not (is_digit r)
    then err not_a_digit
    else if ltb ((max_int64 - d) / 10) n
    then err out_of_range
    else rest

unfoldable pub parse_digits : Text → Result CostError ℕ
unfolding parse_digits_from
parse_digits s = if is_nil s then err no_digits else parse_digits_from 0 s

-- Truncated, then padded with zeros, to six places.
unfoldable pub to_grain : Text → Text
to_grain frac =
    let frac' : Text =
      if ltb cost_decimal_places (length frac) then take cost_decimal_places frac else frac in
    frac' ++ replicate (cost_decimal_places - length frac') b'0'

-- What follows the parse of the digits.
abbrev check_micros : Result CostError ℕ → Result CostError ℕ
check_micros (err e) = err not_decimal
check_micros (ok micros) = if micros == 0 then err rounds_to_zero else ok micros

pub parse_cut : CutText → Result CostError ℕ
parse_cut c =
    if c.found && any (λ x. x == b'.') c.after
    then err two_points
    else if is_nil c.before || c.found && is_nil c.after
    then err not_decimal
    else check_micros (parse_digits (c.before ++ to_grain c.after))

unfoldable pub parse_dollars_to_micro_dollars : Text → Result CostError ℕ
unfolding cut_point parse_cut
parse_dollars_to_micro_dollars s =
    let trimmed = trim_space s in
    if is_nil trimmed
    then err empty_budget
    else if has_sign trimmed
    then err signed_budget
    else parse_cut (cut_point trimmed)

pub record ResolvedCostBudget : Type 0 where
  pub configured : Bool
  pub micro_dollars : ℕ
  pub inherited : Bool
  pub clamped : Bool
  pub requested : ℕ

abbrev pub no_cost_budget : ResolvedCostBudget
no_cost_budget = record {
  configured = false;
  micro_dollars = 0;
  inherited = false;
  clamped = false;
  requested = 0;
}

-- The two parses: the grant's own value, else the catalog's default.
abbrev pub select_cost : Result CostError ℕ → Result CostError ℕ → ResolvedCostBudget
select_cost (ok v) dflt = record no_cost_budget { configured = true; micro_dollars = v }
select_cost (err e) (ok v) = record no_cost_budget {
  configured = true;
  micro_dollars = v;
  inherited = true;
}
select_cost (err e) (err e') = no_cost_budget

-- A maximum that is set: unreadable, or read.
abbrev pub clamp_cost : Result CostError ℕ → ResolvedCostBudget → ResolvedCostBudget
clamp_cost (err e) resolved = record resolved {
  requested = resolved.micro_dollars;
  micro_dollars = 1;
  clamped = true;
}
clamp_cost (ok m) resolved =
    if ltb m resolved.micro_dollars
    then record resolved {
      requested = resolved.micro_dollars;
      micro_dollars = m;
      clamped = not resolved.inherited;
    }
    else resolved

unfoldable pub resolve_cost_budget : Text → Text → Text → ResolvedCostBudget
resolve_cost_budget grant catalog_default catalog_max =
    let resolved =
      select_cost (parse_dollars_to_micro_dollars grant)
        (parse_dollars_to_micro_dollars catalog_default) in
    if not resolved.configured
    then resolved
    else if is_nil (trim_space catalog_max)
    then resolved
    else clamp_cost (parse_dollars_to_micro_dollars catalog_max) resolved

abbrev pub catalog_default_cost_budget : AgentGatewayCatalog → Text
catalog_default_cost_budget c = elim c.budgets [ none ↦ [] | some b ↦ b.default_cost_budget ]

abbrev pub max_cost_budget : AgentGatewayCatalog → Text
max_cost_budget c = elim c.budgets [ none ↦ [] | some b ↦ b.max_cost_budget ]
