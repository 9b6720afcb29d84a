-- ===== src/Api/Cost/Grain.antt =====
-- Truncation to micro-dollars against the exact decimal value (cost.go).
use native.Mathlib.Nat.{pow-suc, pow-zero}
use Prim.Native.Nat.add
use mathlib.Core.List.{append-nil, append_assoc}
use mathlib.Core.Path.{subst₂}
use agentgateway_educates_op.Base.{
  ℕ, ◌+◌, ◌-◌, ◌*◌, ◌^◌, ◌≤◌, ◌<◌, ◌≡◌, refl, true, false, [], ◌∷◌, ◌++◌, Text, ◌∙◌, ap, sym, arith,
  length, all, replicate, suc, zero, is_nil, take, Bool-cases, lt→ltb, ltb→lt, inl, inr, ltb,
}
use agentgateway_educates_op.Api.Cost.{is_digit, to_grain, parse_dollars_to_micro_dollars}
use agentgateway_educates_op.Api.Cost.Digits.{decimal_from, decimal_from-append}
use agentgateway_educates_op.Api.Cost.Exact.{micros, read_amount, parse_dollars_micros}

pow-add : (m n : ℕ) → 10 ^ (m + n) ≡ 10 ^ m * 10 ^ n
pow-add zero n = rw (add.zero, pow-zero) (omega arith)
pow-add (suc m) n = rw (add.suc, pow-suc, pow-suc) (omega (arith, pow-add m n))

-- What stands after the first six places.
abbrev drop : ℕ → Text → Text
drop zero s = s
drop (suc n) [] = []
drop (suc n) (c ∷ s) = drop n s

decimal_from-shift : (n : ℕ) (s : Text) → decimal_from n s ≡ n * 10 ^ length s + decimal_from 0 s
unfolding decimal_from
decimal_from-shift n [] = rw pow-zero (omega arith)
decimal_from-shift n (c ∷ s) = rw pow-suc (
    omega (
      arith,
      decimal_from-shift (n * 10 + (c - b'0')) s,
      decimal_from-shift (0 * 10 + (c - b'0')) s,
    ))

digit-lt : (d p r : ℕ) → d ≤ 9 → r < p → d * p + r < p * 10
digit-lt d p r h k = grind arith

decimal_from-lt : (s : Text) → all is_digit s ≡ true → decimal_from 0 s < 10 ^ length s
unfolding decimal_from
decimal_from-lt [] h = rw pow-zero (omega arith)
decimal_from-lt (c ∷ s) h = rw pow-suc (
    let tail : decimal_from 0 s < 10 ^ length s = decimal_from-lt s (ground arith) in
    omega (
      arith,
      decimal_from-shift (0 * 10 + (c - b'0')) s,
      digit-lt (c - b'0') (10 ^ length s) (decimal_from 0 s) (ground arith) tail,
    ))

decimal_from-zeros : (n m : ℕ) → decimal_from n (replicate m b'0') ≡ n * 10 ^ m
unfolding decimal_from
decimal_from-zeros n zero = rw pow-zero (omega arith)
decimal_from-zeros n (suc m) = rw pow-suc (omega (arith, decimal_from-zeros (n * 10 + 0) m))

take-append-drop : (n : ℕ) (s : Text) → take n s ++ drop n s ≡ s
take-append-drop zero s = refl
take-append-drop (suc n) [] = refl
take-append-drop (suc n) (c ∷ s) = rw (take-append-drop n s)

length-take_long : (n : ℕ) (s : Text) → n ≤ length s → length (take n s) ≡ n
length-take_long zero s h = refl
length-take_long (suc n) [] h = elim h [ ]
length-take_long (suc n) (c ∷ s) h = ap suc (length-take_long n s (omega arith))

length-drop : (n : ℕ) (s : Text) → length (drop n s) ≡ length s - n
length-drop zero s = omega arith
length-drop (suc n) [] = omega arith
length-drop (suc n) (c ∷ s) = omega (arith, length-drop n s)

-- `v` is the largest number of units of 10^-6 in `d` units of 10^-k.
abbrev pub IsFloor : ℕ → ℕ → ℕ → Type 0
IsFloor v d k = (v * 10 ^ k ≤ d * 10 ^ 6) × (d * 10 ^ 6 < (v + 1) * 10 ^ k)

to_grain-short : (s : Text) → length s ≤ 6 → to_grain s ≡ s ++ replicate (6 - length s) b'0'
unfolding to_grain
to_grain-short s h = ground arith

to_grain-long : (s : Text) → 6 < length s → to_grain s ≡ take 6 s
unfolding to_grain
to_grain-long s h =
    rw (lt→ltb 6 (length s) h, length-take_long 6 s (omega arith)) (append-nil (take 6 s))

all_digits-drop : (n : ℕ) (s : Text) → all is_digit s ≡ true → all is_digit (drop n s) ≡ true
all_digits-drop zero s h = h
all_digits-drop (suc n) [] h = refl
all_digits-drop (suc n) (c ∷ s) h = ground (arith, all_digits-drop n s)

pow-pos : (k : ℕ) → 0 < 10 ^ k
pow-pos zero = rw pow-zero (omega arith)
pow-pos (suc k) = rw pow-suc (omega (arith, pow-pos k))

IsFloor-short : (d k : ℕ) → k ≤ 6 → IsFloor (d * 10 ^ (6 - k)) d k
IsFloor-short d k h =
    let sum : 6 - k + k ≡ 6 = omega arith in
    let e : 10 ^ (6 - k) * 10 ^ k ≡ 10 ^ 6 = sym (pow-add (6 - k) k) ∙ ap (λ (n : ℕ). 10 ^ n) sum in
    let e' : d * (10 ^ (6 - k) * 10 ^ k) ≡ d * 10 ^ 6 = ap (λ (n : ℕ). d * n) e in
    omega (arith, e', pow-pos k)

IsFloor-long : (v r k : ℕ) → r < 10 ^ k → IsFloor v (v * 10 ^ k + r) (k + 6)
IsFloor-long v r k h = rw pow-add (omega arith)

module _ (whole frac : Text) (dw : all is_digit whole ≡ true) (df : all is_digit frac ≡ true)
    (nw : is_nil whole ≡ false) (nf : is_nil frac ≡ false) where
  micros-short :
      length frac ≤ 6
      → IsFloor (micros whole frac dw df nw nf) (decimal_from 0 (whole ++ frac)) (length frac)
  micros-short h =
      rw
        (
          to_grain-short frac h,
          ← append_assoc whole frac (replicate (6 - length frac) b'0'),
          decimal_from-append 0 (whole ++ frac) (replicate (6 - length frac) b'0'),
          decimal_from-zeros,
        )
        (IsFloor-short (decimal_from 0 (whole ++ frac)) (length frac) h)

  micros-long :
      6 < length frac
      → IsFloor (micros whole frac dw df nw nf) (decimal_from 0 (whole ++ frac)) (length frac)
  micros-long h =
      let v : ℕ = decimal_from 0 (whole ++ take 6 frac) in
      let r : ℕ = decimal_from 0 (drop 6 frac) in
      let k : ℕ = length (drop 6 frac) in
      let small : r < 10 ^ k = decimal_from-lt (drop 6 frac) (all_digits-drop 6 frac df) in
      let len : k + 6 ≡ length frac = omega (arith, length-drop 6 frac) in
      let sum : v * 10 ^ k + r ≡ decimal_from 0 (whole ++ frac) =
        sym (decimal_from-shift v (drop 6 frac))
        ∙ sym (decimal_from-append 0 (whole ++ take 6 frac) (drop 6 frac))
        ∙ ap (decimal_from 0) (
            append_assoc whole (take 6 frac) (drop 6 frac)
            ∙ ap (λ t. whole ++ t) (take-append-drop 6 frac)) in
      rw (to_grain-long frac h) (subst₂ (λ d n. IsFloor v d n) sum len (IsFloor-long v r k small))

  micros-IsFloor :
      IsFloor (micros whole frac dw df nw nf) (decimal_from 0 (whole ++ frac)) (length frac)
  micros-IsFloor = elim (Bool-cases (ltb 6 (length frac))) [
    | inl long ↦ micros-long (ltb→lt _ _ long)
    | inr short ↦ micros-short (ground arith)
  ]

floor_unique_step : (v w p x : ℕ) → v * p ≤ x → x < (w + 1) * p → v ≤ w
floor_unique_step v w p x h k = grind arith

floor_unique : (v w d k : ℕ) → IsFloor v d k → IsFloor w d k → v ≡ w
floor_unique v w d k (a, b) (a', b') = omega (
  arith,
  floor_unique_step v w (10 ^ k) (d * 10 ^ 6) a b',
  floor_unique_step w v (10 ^ k) (d * 10 ^ 6) a' b,
)

-- An amount written as digits, a point and digits is read as the largest whole number of
-- micro-dollars that it contains, so digits behind the sixth are cut off, never rounded up. A zero
-- and a number above the largest int64 are the errors that `read_amount` gives.
pub parse_dollars-floor :
    (whole frac : Text) (v : ℕ)
    → all is_digit whole ≡ true
    → all is_digit frac ≡ true
    → is_nil whole ≡ false
    → is_nil frac ≡ false
    → IsFloor v (decimal_from 0 (whole ++ frac)) (length frac)
    → parse_dollars_to_micro_dollars (whole ++ b'.' ∷ frac) ≡ read_amount v
parse_dollars-floor whole frac v dw df nw nf h =
    let m : micros whole frac dw df nw nf ≡ v =
      floor_unique _ v _ (length frac) (micros-IsFloor whole frac dw df nw nf) h in
    rw (← m) (parse_dollars_micros whole frac dw df nw nf)
