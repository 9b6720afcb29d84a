-- ===== src/Format/Laws.antt =====
-- Decimal text denotes the number that it was printed from.
use mathlib.Core.WellFounded.{Acc}
use agentgateway_educates_op.Base.{
  ℕ, ◌+◌, ◌/◌, ◌%◌, ◌<◌, ◌≡◌, refl, true, false, [], ◌∷◌, ◌++◌, Text, arith, all, is_nil,
  all-append,
}
use agentgateway_educates_op.Api.Cost.{is_digit}
use agentgateway_educates_op.Api.Cost.Digits.{decimal_from, decimal_from-append}
use agentgateway_educates_op.Format.{format_nat_acc, format_nat, lt_wf}

format_nat_acc-decimal : (n : ℕ) (w : Acc ◌<◌ n) → decimal_from 0 (format_nat_acc n w) ≡ n
unfolding format_nat_acc decimal_from
format_nat_acc-decimal n (Acc.intro _ smaller) = grind (
  arith,
  λ (h : n / 10 < n).
      decimal_from-append 0 (format_nat_acc (n / 10) (smaller (n / 10) h)) ((b'0' + n % 10) ∷ []),
  λ (h : n / 10 < n). format_nat_acc-decimal (n / 10) (smaller (n / 10) h),
)

format_nat_acc-digits : (n : ℕ) (w : Acc ◌<◌ n) → all is_digit (format_nat_acc n w) ≡ true
unfolding format_nat_acc
format_nat_acc-digits n (Acc.intro _ smaller) = grind (
  arith,
  λ (h : n / 10 < n).
      all-append is_digit (format_nat_acc (n / 10) (smaller (n / 10) h)) ((b'0' + n % 10) ∷ []),
  λ (h : n / 10 < n). format_nat_acc-digits (n / 10) (smaller (n / 10) h),
)

pub format_nat-decimal : (n : ℕ) → decimal_from 0 (format_nat n) ≡ n
unfolding format_nat
format_nat-decimal n = format_nat_acc-decimal n (lt_wf.apply n)

pub format_nat-digits : (n : ℕ) → all is_digit (format_nat n) ≡ true
unfolding format_nat
format_nat-digits n = format_nat_acc-digits n (lt_wf.apply n)

is_nil-snoc : (s : Text) (c : ℕ) → is_nil (s ++ (c ∷ [])) ≡ false
is_nil-snoc [] c = refl
is_nil-snoc (x ∷ s) c = refl

is_nil-format_nat_acc : (n : ℕ) (w : Acc ◌<◌ n) → is_nil (format_nat_acc n w) ≡ false
unfolding format_nat_acc
is_nil-format_nat_acc n (Acc.intro _ smaller) = grind (
  arith,
  λ (h : n / 10 < n). is_nil-snoc (format_nat_acc (n / 10) (smaller (n / 10) h)) (b'0' + n % 10),
)

pub is_nil-format_nat : (n : ℕ) → is_nil (format_nat n) ≡ false
unfolding format_nat
is_nil-format_nat n = is_nil-format_nat_acc n (lt_wf.apply n)
