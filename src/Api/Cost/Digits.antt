-- ===== src/Api/Cost/Digits.antt =====
-- `parseDigits` of cost.go against the decimal value of a text.
use agentgateway_educates_op.Base.{
  ℕ, ◌+◌, ◌-◌, ◌*◌, ◌≤◌, ◌<◌, ◌≡◌, refl, true, [], ◌∷◌, ◌++◌, Text, ok, err, arith, all,
}
use agentgateway_educates_op.Api.Cost.{max_int64, is_digit, parse_digits_from, out_of_range}

-- The decimal value of a text of digits, read on from `n`.
unfoldable pub decimal_from : ℕ → Text → ℕ
decimal_from n [] = n
decimal_from n (c ∷ s) = decimal_from (n * 10 + (c - b'0')) s

pub decimal_from-le : (n : ℕ) (s : Text) → n ≤ decimal_from n s
unfolding decimal_from
decimal_from-le n [] = omega arith
decimal_from-le n (c ∷ s) = omega (arith, decimal_from-le (n * 10 + (c - b'0')) s)

pub decimal_from-append :
    (n : ℕ) (s t : Text) → decimal_from n (s ++ t) ≡ decimal_from (decimal_from n s) t
unfolding decimal_from
decimal_from-append n [] t = refl
decimal_from-append n (c ∷ s) t = decimal_from-append (n * 10 + (c - b'0')) s t

pub parse_digits_from_sound :
    (n : ℕ) (s : Text) (v : ℕ)
    → n ≤ max_int64
    → parse_digits_from n s ≡ ok v
    → (all is_digit s ≡ true) × (v ≡ decimal_from n s) × (v ≤ max_int64)
unfolding parse_digits_from decimal_from
parse_digits_from_sound n [] v b h = ground arith
parse_digits_from_sound n (c ∷ s) v b h =
    ground (arith, parse_digits_from_sound (n * 10 + (c - b'0')) s v)

pub parse_digits_from_complete :
    (n : ℕ) (s : Text)
    → all is_digit s ≡ true
    → decimal_from n s ≤ max_int64
    → parse_digits_from n s ≡ ok (decimal_from n s)
unfolding parse_digits_from decimal_from
parse_digits_from_complete n [] a b = refl
parse_digits_from_complete n (c ∷ s) a b = ground (
  arith,
  parse_digits_from_complete (n * 10 + (c - b'0')) s,
  decimal_from-le (n * 10 + (c - b'0')) s,
)

pub parse_digits_from-overflow :
    (n : ℕ) (s : Text)
    → all is_digit s ≡ true
    → n ≤ max_int64
    → max_int64 < decimal_from n s
    → parse_digits_from n s ≡ err out_of_range
unfolding parse_digits_from decimal_from
parse_digits_from-overflow n [] a b o = absurd (omega arith)
parse_digits_from-overflow n (c ∷ s) a b o =
    ground (arith, parse_digits_from-overflow (n * 10 + (c - b'0')) s)
