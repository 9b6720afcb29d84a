-- ===== src/Api/Cost/Exact.antt =====
-- The value of a well-formed dollar text (cost.go).
use agentgateway_educates_op.Base.{
  ℕ, ◌-◌, ◌≡◌, refl, true, false, [], ◌∷◌, ◌++◌, Text, Result, if◌then◌else◌, ok, err, arith,
  length, all, any, replicate, suc, zero, is_nil, all-append, take, ◌==◌, ltb,
}
use agentgateway_educates_op.Api.Cost.{
  max_int64, is_digit, parse_digits, cut_point, to_grain, parse_dollars_to_micro_dollars, CostError,
  not_decimal, rounds_to_zero, out_of_range, has_sign,
}
use agentgateway_educates_op.Api.Cost.Digits.{
  decimal_from, parse_digits_from-overflow, parse_digits_from_complete,
}
use agentgateway_educates_op.Api.Cost.Laws.{trim_space-solid, solid}

digit_solid : (c : ℕ) → is_digit c ≡ true → solid c ≡ true
digit_solid c h = ground arith

pub all_digits-solid : (s : Text) → all is_digit s ≡ true → all solid s ≡ true
all_digits-solid [] h = refl
all_digits-solid (c ∷ s) h = ground (arith, digit_solid c, all_digits-solid s)

pub cut_point-plain :
    (whole rest : Text)
    → all is_digit whole ≡ true
    → cut_point (whole ++ b'.' ∷ rest) ≡ record { before = whole; after = rest; found = true }
unfolding cut_point
cut_point-plain [] rest h = refl
cut_point-plain (c ∷ s) rest h = ground (arith, cut_point-plain s rest)

pub cut_point-whole :
    (whole : Text)
    → all is_digit whole ≡ true
    → cut_point whole ≡ record { before = whole; after = []; found = false }
unfolding cut_point
cut_point-whole [] h = refl
cut_point-whole (c ∷ s) h = ground (arith, cut_point-whole s)

pub no_point : (s : Text) → all is_digit s ≡ true → any (λ x. x == b'.') s ≡ false
no_point [] h = refl
no_point (c ∷ s) h = ground (arith, no_point s)

all_digits-take : (n : ℕ) (s : Text) → all is_digit s ≡ true → all is_digit (take n s) ≡ true
all_digits-take zero s h = refl
all_digits-take (suc n) [] h = refl
all_digits-take (suc n) (c ∷ s) h = ground (arith, all_digits-take n s)

all_digits-zeros : (n : ℕ) → all is_digit (replicate n b'0') ≡ true
all_digits-zeros zero = refl
all_digits-zeros (suc n) = all_digits-zeros n

all_digits-to_grain : (s : Text) → all is_digit s ≡ true → all is_digit (to_grain s) ≡ true
unfolding to_grain
all_digits-to_grain s h = ground (
  arith,
  all-append is_digit (take 6 s) (replicate (6 - length (take 6 s)) b'0'),
  all-append is_digit s (replicate (6 - length s) b'0'),
  all_digits-take 6 s h,
  all_digits-zeros (6 - length (take 6 s)),
  all_digits-zeros (6 - length s),
)

-- A text of digits is read as its value, unless that is more than an int64 holds.
parse_digits_lem :
    (s : Text)
    → is_nil s ≡ false
    → all is_digit s ≡ true
    → parse_digits s
      ≡ (if ltb max_int64 (decimal_from 0 s) then err out_of_range else ok (decimal_from 0 s))
unfolding parse_digits
parse_digits_lem s n h =
    ground (arith, parse_digits_from_complete 0 s h, parse_digits_from-overflow 0 s h)

is_nil-append : (s t : Text) → is_nil s ≡ false → is_nil (s ++ t) ≡ false
is_nil-append [] t h = cc
is_nil-append (x ∷ s) t h = refl

-- What a whole number of micro-dollars is read as: none is refused, and so is too much for an int64.
abbrev pub read_amount : ℕ → Result CostError ℕ
read_amount v =
    if v == 0 then err rounds_to_zero else if ltb max_int64 v then err not_decimal else ok v

module _ (whole frac : Text) (dw : all is_digit whole ≡ true) (df : all is_digit frac ≡ true)
    (nw : is_nil whole ≡ false) (nf : is_nil frac ≡ false) where
  -- The micro-dollars of `whole.frac`, its digits beyond the grain cut off.
  abbrev pub micros : ℕ
  micros = decimal_from 0 (whole ++ to_grain frac)

  all-solid : all solid (whole ++ b'.' ∷ frac) ≡ true
  all-solid =
      rw (all-append solid whole (b'.' ∷ frac), all_digits-solid whole dw, all_digits-solid frac df)

  unsigned : has_sign (whole ++ b'.' ∷ frac) ≡ false
  unsigned = go whole dw nw
    where
      go :
          (w : Text)
          → all is_digit w ≡ true
          → is_nil w ≡ false
          → has_sign (w ++ b'.' ∷ frac) ≡ false
      go [] h k = cc
      go (c ∷ w) h k = ground arith

  pub parse_dollars_micros :
      parse_dollars_to_micro_dollars (whole ++ b'.' ∷ frac) ≡ read_amount micros
  unfolding parse_dollars_to_micro_dollars
  parse_dollars_micros =
      rw
        (
          trim_space-solid (whole ++ b'.' ∷ frac) all-solid,
          unsigned,
          is_nil-append whole (b'.' ∷ frac) nw,
          cut_point-plain whole frac dw,
          no_point frac df,
          nw,
          nf,
          parse_digits_lem (whole ++ to_grain frac) (is_nil-append whole _ nw)
              (rw (all-append is_digit whole (to_grain frac), dw) (all_digits-to_grain frac df)),
        )
        (ground arith)
