-- ===== src/Api/Cost/Tail.antt =====
-- What the truncation of cost.go lets pass: text behind the sixth decimal place is never read.
use agentgateway_educates_op.Base.{
  ℕ, ◌≡◌, refl, true, false, [], ◌∷◌, ◌++◌, Text, arith, length, all, any, is_nil, ◌==◌, lt→ltb,
  all-append,
}
use agentgateway_educates_op.Api.Cost.{is_digit, to_grain, has_sign, parse_dollars_to_micro_dollars}
use agentgateway_educates_op.Api.Cost.Laws.{solid, trim_space-solid}
use agentgateway_educates_op.Api.Cost.Exact.{cut_point-plain, all_digits-solid, no_point}

-- Six decimal places.
abbrev pub six : ℕ → ℕ → ℕ → ℕ → ℕ → ℕ → Text
six a b c d e f = a ∷ b ∷ c ∷ d ∷ e ∷ f ∷ []

to_grain-six :
    (a b c d e f : ℕ) (tail : Text) → to_grain (six a b c d e f ++ tail) ≡ six a b c d e f
unfolding to_grain
to_grain-six a b c d e f [] = refl
to_grain-six a b c d e f (x ∷ tail) =
    rw (lt→ltb 6 (length (six a b c d e f ++ x ∷ tail)) (omega arith))

point_free-append :
    (s t : Text)
    → any (λ x. x == b'.') s ≡ false
    → any (λ x. x == b'.') t ≡ false
    → any (λ x. x == b'.') (s ++ t) ≡ false
point_free-append [] t a b = b
point_free-append (c ∷ s) t a b = ground (arith, point_free-append s t)

module _ (whole : Text) (a b c d e f : ℕ) (tail : Text) (dw : all is_digit whole ≡ true)
    (nw : is_nil whole ≡ false) (df : all is_digit (six a b c d e f) ≡ true)
    (solid_tail : all solid tail ≡ true) (no_dot : any (λ x. x == b'.') tail ≡ false) where
  abbrev frac : Text
  frac = six a b c d e f

  solid-all : (t : Text) → all solid t ≡ true → all solid (whole ++ b'.' ∷ (frac ++ t)) ≡ true
  solid-all t h =
      rw
        (
          all-append solid whole (b'.' ∷ (frac ++ t)),
          all_digits-solid whole dw,
          all-append solid frac t,
          all_digits-solid frac df,
        )
        h

  has_sign-digits :
      (w rest : Text) → all is_digit w ≡ true → is_nil w ≡ false → has_sign (w ++ rest) ≡ false
  has_sign-digits [] rest h k = cc
  has_sign-digits (x ∷ w) rest h k = ground arith

  is_nil-digits : (w rest : Text) → is_nil w ≡ false → is_nil (w ++ rest) ≡ false
  is_nil-digits [] rest h = cc
  is_nil-digits (x ∷ w) rest h = refl

  -- Behind six decimal digits any printable text without a point is accepted, and changes nothing:
  -- the amount is read, or refused, as if the text were not there.
  pub parse_dollars-tail :
      parse_dollars_to_micro_dollars (whole ++ b'.' ∷ (frac ++ tail))
      ≡ parse_dollars_to_micro_dollars (whole ++ b'.' ∷ frac)
  unfolding parse_dollars_to_micro_dollars
  parse_dollars-tail = rw (
    trim_space-solid (whole ++ b'.' ∷ (frac ++ tail)) (solid-all tail solid_tail),
    trim_space-solid (whole ++ b'.' ∷ frac) (solid-all [] refl),
    has_sign-digits whole (b'.' ∷ (frac ++ tail)) dw nw,
    has_sign-digits whole (b'.' ∷ frac) dw nw,
    is_nil-digits whole (b'.' ∷ (frac ++ tail)) nw,
    is_nil-digits whole (b'.' ∷ frac) nw,
    cut_point-plain whole (frac ++ tail) dw,
    cut_point-plain whole frac dw,
    point_free-append frac tail (no_point frac df) no_dot,
    no_point frac df,
    to_grain-six a b c d e f tail,
    to_grain-six a b c d e f [],
  )
