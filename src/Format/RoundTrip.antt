-- ===== src/Format/RoundTrip.antt =====
-- A rendered ceiling reads back as the ceiling it was rendered from.
use agentgateway_educates_op.Base.{
  ℕ, ◌+◌, ◌*◌, ◌/◌, ◌%◌, ◌<◌, ◌≤◌, ◌≡◌, refl, true, false, [], ◌∷◌, ◌++◌, Text, arith, all, is_nil,
  ok, length, ltb, if◌then◌else◌, Bool-cases, inl, inr, ==_iff, ◌==◌,
}
use agentgateway_educates_op.Api.Cost.{
  is_digit, max_int64, to_grain, parse_dollars_to_micro_dollars,
}
use agentgateway_educates_op.Api.Cost.Digits.{decimal_from, decimal_from-append}
use agentgateway_educates_op.Api.Cost.Exact.{parse_dollars_micros}
use agentgateway_educates_op.Format.{
  format_nat, format_micro_dollars, six_digits, trim_right_zeros, drop_zeros,
}
use agentgateway_educates_op.Format.Laws.{format_nat-decimal, format_nat-digits, is_nil-format_nat}

-- The fraction that is shown: at least two digits.
abbrev at_least_two : Text → Text
at_least_two s = if ltb (length s) 2 then s ++ (b'0' ∷ []) else s

to_grain-trim :
    (a b c d e f : ℕ)
    → to_grain (at_least_two (trim_right_zeros (a ∷ b ∷ c ∷ d ∷ e ∷ f ∷ [])))
      ≡ a ∷ b ∷ c ∷ d ∷ e ∷ f ∷ []
unfolding to_grain drop_zeros
to_grain-trim a b c d e f = ground arith

all_digits-six : (n : ℕ) → all is_digit (six_digits n) ≡ true
all_digits-six n = ground arith

decimal_from-six : (w n : ℕ) → n < 1000000 → decimal_from w (six_digits n) ≡ w * 1000000 + n
unfolding decimal_from
decimal_from-six w n h = omega arith

-- A rendered amount without its dollar sign.
abbrev pub strip_dollar : Text → Text
strip_dollar [] = []
strip_dollar (c ∷ s) = s

-- What stands behind the point.
abbrev shown_fraction : ℕ → Text
shown_fraction n =
    if n == 0 then b'0' ∷ b'0' ∷ [] else at_least_two (trim_right_zeros (six_digits n))

strip_dollar-format :
    (v : ℕ)
    → strip_dollar (format_micro_dollars v)
      ≡ format_nat (v / 1000000) ++ (b'.' ∷ shown_fraction (v % 1000000))
unfolding format_micro_dollars
strip_dollar-format v = elim (Bool-cases (v % 1000000 == 0)) [ inl e ↦ rw e | inr e ↦ rw e ]

to_grain-shown : (n : ℕ) → n < 1000000 → to_grain (shown_fraction n) ≡ six_digits n
unfolding to_grain drop_zeros
to_grain-shown n h = elim (Bool-cases (n == 0)) [
  | inl e ↦ rw ((==_iff n 0).0 e)
  | inr e ↦ rw e (to_grain-trim _ _ _ _ _ _)
]

trim_keeps_digits :
    (a b c d e f : ℕ)
    → all is_digit (a ∷ b ∷ c ∷ d ∷ e ∷ f ∷ []) ≡ true
    → all is_digit (at_least_two (trim_right_zeros (a ∷ b ∷ c ∷ d ∷ e ∷ f ∷ []))) ≡ true
unfolding drop_zeros
trim_keeps_digits a b c d e f h = ground arith

is_nil-at_least_two : (s : Text) → is_nil (at_least_two s) ≡ false
is_nil-at_least_two [] = refl
is_nil-at_least_two (c ∷ s) = ground arith

all_digits-shown : (n : ℕ) → all is_digit (shown_fraction n) ≡ true
all_digits-shown n = elim (Bool-cases (n == 0)) [
  | inl e ↦ rw e
  | inr e ↦ rw e (trim_keeps_digits _ _ _ _ _ _ (all_digits-six n))
]

is_nil-shown : (n : ℕ) → is_nil (shown_fraction n) ≡ false
is_nil-shown n = elim (Bool-cases (n == 0)) [
  | inl e ↦ rw e
  | inr e ↦ rw e (is_nil-at_least_two (trim_right_zeros (six_digits n)))
]

-- A positive amount that fits an int64 is read back exactly from its rendered text, once the
-- dollar sign is taken off.
pub parse_dollars-format :
    (v : ℕ)
    → 0 < v
    → v ≤ max_int64
    → parse_dollars_to_micro_dollars (strip_dollar (format_micro_dollars v)) ≡ ok v
parse_dollars-format v p b =
    let w = format_nat (v / 1000000) in
    let n = v % 1000000 in
    let value : decimal_from 0 (w ++ to_grain (shown_fraction n)) ≡ v =
      rw
        (
          to_grain-shown n (omega arith),
          decimal_from-append 0 w (six_digits n),
          format_nat-decimal (v / 1000000),
          decimal_from-six (v / 1000000) n (omega arith),
        )
        (omega arith) in
    rw
      (
        strip_dollar-format v,
        parse_dollars_micros w (shown_fraction n) (format_nat-digits _) (all_digits-shown n)
            (is_nil-format_nat _) (is_nil-shown n),
        value,
      )
      (ground arith)
