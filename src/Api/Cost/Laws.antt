-- ===== src/Api/Cost/Laws.antt =====
-- What the parse of a dollar text guarantees (cost.go).
use mathlib.Core.List.{reverse-reverse}
use agentgateway_educates_op.Base.{
  ℕ, ◌≤◌, ◌<◌, ◌≡◌, refl, Bool, true, not, [], ◌∷◌, ◌++◌, Text, ok, arith, all, reverse,
  all-reverse,
}
use agentgateway_educates_op.Api.Cost.{
  max_int64, is_space, parse_digits, trim_left, trim_space, cut_point, to_grain,
  parse_dollars_to_micro_dollars,
}
use agentgateway_educates_op.Api.Cost.Digits.{parse_digits_from_sound}

parse_digits-le : (s : Text) (v : ℕ) → parse_digits s ≡ ok v → v ≤ max_int64
unfolding parse_digits
parse_digits-le s v h = ground (arith, parse_digits_from_sound 0 s v)

-- An accepted budget is positive and fits an int64.
pub parse_dollars_bounds :
    (s : Text) (v : ℕ) → parse_dollars_to_micro_dollars s ≡ ok v → (0 < v) × (v ≤ max_int64)
unfolding parse_dollars_to_micro_dollars
parse_dollars_bounds s v h =
    let c = cut_point (trim_space s) in
    ground (arith, parse_digits-le (c.before ++ to_grain c.after) v)

-- Not white space.
abbrev pub solid : ℕ → Bool
solid c = not (is_space c)

trim_left-solid : (s : Text) → all solid s ≡ true → trim_left s ≡ s
unfolding trim_left
trim_left-solid [] h = refl
trim_left-solid (c ∷ s) h = ground arith

pub trim_space-solid : (s : Text) → all solid s ≡ true → trim_space s ≡ s
unfolding trim_space
trim_space-solid s h =
    rw (
      trim_left-solid s h,
      trim_left-solid (reverse s) (rw (all-reverse solid s) h),
      reverse-reverse,
    )
