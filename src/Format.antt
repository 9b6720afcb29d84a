-- ===== src/Format.antt =====
-- Numbers as decimal text: fmt's %d and strconv.FormatInt, and `formatMicroDollars` of
-- internal/controller/agentgatewaysession_controller.go.
pub mod Laws
pub mod RoundTrip
use mathlib.Core.Logic.{dite}
use mathlib.Core.WellFounded.{Acc, WellFounded}
use native.Mathlib.Decide.{dec_lt}
use agentgateway_educates_op.Base.{
  ℕ, zero, suc, ◌+◌, ◌-◌, ◌/◌, ◌%◌, ◌<◌, List, [], ◌∷◌, ◌++◌, reverse, Text, codes, arith, ltb,
  ◌==◌, if◌then◌else◌, length, true, false,
}
use agentgateway_educates_op.Base.Int.{ℤ, pos, negsuc}
use agentgateway_educates_op.Api.Cost.{micro_dollars_per_dollar}

Acc-below : (k n : ℕ) → n < k → Acc ◌<◌ n
Acc-below zero n h = elim h [ ]
Acc-below (suc k) n h = Acc.intro n (λ m hm. Acc-below k m (omega arith))

unfoldable pub lt_wf : WellFounded ◌<◌
unfolding Acc-below
lt_wf = record { apply = λ n. Acc-below (suc n) n (omega arith) }

pub format_nat_acc : (n : ℕ) → Acc ◌<◌ n → Text
format_nat_acc n (Acc.intro _ smaller) =
    dite (dec_lt n 10) (λ _. (b'0' + n) ∷ [])
      (λ h. format_nat_acc (n / 10) (smaller (n / 10) (omega arith)) ++ ((b'0' + n % 10) ∷ []))

unfoldable pub format_nat : ℕ → Text
unfolding format_nat_acc lt_wf dec_lt
format_nat n = format_nat_acc n (lt_wf.apply n)

unfoldable pub format_int : ℤ → Text
format_int (pos n) = format_nat n
format_int (negsuc n) = b'-' ∷ format_nat (suc n)

-- fmt's %06d, for a number of at most six digits.
abbrev pub six_digits : ℕ → Text
six_digits n =
    (b'0' + n / 100000 % 10)
    ∷ (b'0' + n / 10000 % 10)
    ∷ (b'0' + n / 1000 % 10)
    ∷ (b'0' + n / 100 % 10)
    ∷ (b'0' + n / 10 % 10)
    ∷ (b'0' + n % 10)
    ∷ []

pub drop_zeros : Text → Text
drop_zeros [] = []
drop_zeros (c ∷ s) = elim (c == b'0') [ true ↦ drop_zeros s | false ↦ c ∷ s ]

-- strings.TrimRight(s, "0")
abbrev pub trim_right_zeros : Text → Text
trim_right_zeros s = reverse (drop_zeros (reverse s))

unfoldable pub format_micro_dollars : ℕ → Text
unfolding drop_zeros
format_micro_dollars micros =
    let whole = micros / micro_dollars_per_dollar in
    let frac = micros % micro_dollars_per_dollar in
    if frac == 0
    then b'$' ∷ (format_nat whole ++ (b'.' ∷ b'0' ∷ b'0' ∷ []))
    else let s = trim_right_zeros (six_digits frac) in
      let s' : Text = if ltb (length s) 2 then s ++ (b'0' ∷ []) else s in
      b'$' ∷ (format_nat whole ++ (b'.' ∷ s'))
