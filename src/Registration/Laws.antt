-- ===== src/Registration/Laws.antt =====
-- Which fields a registration carries, and when two entries are taken for the same.
use agentgateway_educates_op.Base.{
  String, ◌≡◌, ◌∙◌, sym, refl, true, false, Bool-cases, str_eq, if◌then◌else◌, ◌+◌, Option, none,
  some, [], ◌∷◌, Text, codes, arith, lookup, Dict, text_eq_refl, text_eq_sound, eq_iff, length,
  ◌==◌, ◌&&◌, Option-cases, inl, inr,
}
use agentgateway_educates_op.Base.Int.{ℤ}
use agentgateway_educates_op.Kube.{Packages, RegistrationEntry}
use agentgateway_educates_op.Format.{format_int}
use agentgateway_educates_op.Registration.{
  RegistrationInputs, build_registration, entry_equals, metadata_within, metadata_key_session,
  metadata_key_token_budget, metadata_key_expires_at, metadata_key_budget_window,
  metadata_key_cost_budget, window_text, as_int64, put_number,
}

abbrev pub number_text : Option ℤ → Option Text
number_text none = none
number_text (some n) = some (format_int n)

-- The token and the cost budget are there exactly when they are given, and the other three
-- fields always.
pub build_registration-fields :
    (p : Packages) (i : RegistrationInputs)
    → let m = (build_registration p i).metadata in
      (lookup metadata_key_session m ≡ some (codes i.session_name))
      × (lookup metadata_key_expires_at m ≡ some (p.format_rfc3339 i.expires_at))
      × (lookup metadata_key_budget_window m ≡ some (window_text i.window))
      × (lookup metadata_key_token_budget m ≡ number_text i.token_budget)
      × (lookup metadata_key_cost_budget m ≡ number_text (as_int64 i.cost_micro_dollars))
unfolding build_registration
build_registration-fields p i = ground arith

abbrev built : Text → Text → Text → Option ℤ → Option ℤ → Dict Text
built session expiry window tokens cost = put_number metadata_key_cost_budget cost (
    put_number metadata_key_token_budget tokens (
      (metadata_key_session, session)
      ∷ (metadata_key_expires_at, expiry)
      ∷ (metadata_key_budget_window, window)
      ∷ []))

metadata_within_sound :
    (m other : Dict Text) (k : String) (v : Text)
    → metadata_within m other ≡ true
    → lookup k m ≡ some v
    → lookup k other ≡ some v
unfolding metadata_within
metadata_within_sound [] other k v h e = cc
metadata_within_sound ((j, w) ∷ m) other k v h e = elim (Option-cases (lookup j other)) [
  | inl missing ↦ ground (arith, missing)
  | inr (x, found) ↦
      ground (arith, found, eq_iff j k, metadata_within_sound m other k v, text_eq_sound w x)
]

metadata_within-build :
    (session expiry window : Text) (tokens cost : Option ℤ)
    → let m = built session expiry window tokens cost in
      (length m == length m && metadata_within m m) ≡ true
unfolding metadata_within
metadata_within-build session expiry window none none =
    simp (text_eq_refl session, text_eq_refl expiry, text_eq_refl window)
metadata_within-build session expiry window none (some c) =
    simp
      (text_eq_refl session, text_eq_refl expiry, text_eq_refl window, text_eq_refl (format_int c))
metadata_within-build session expiry window (some t) none =
    simp
      (text_eq_refl session, text_eq_refl expiry, text_eq_refl window, text_eq_refl (format_int t))
metadata_within-build session expiry window (some t) (some c) = simp (
  text_eq_refl session,
  text_eq_refl expiry,
  text_eq_refl window,
  text_eq_refl (format_int t),
  text_eq_refl (format_int c),
)

pub entry_equals-build :
    (p : Packages) (i : RegistrationInputs)
    → entry_equals (build_registration p i) (build_registration p i) ≡ true
unfolding build_registration entry_equals
entry_equals-build p i = rw (
  text_eq_refl i.key_hash,
  metadata_within-build (codes i.session_name) (p.format_rfc3339 i.expires_at)
      (window_text i.window) i.token_budget (as_int64 i.cost_micro_dollars),
)

-- A key stands once in a Go map.
abbrev pub HasDistinctKeys : Dict Text → Type 0
HasDistinctKeys [] = Unit {0}
HasDistinctKeys ((k, v) ∷ m) = (lookup k m ≡ none) × HasDistinctKeys m

-- The map without its first entry at a key.
abbrev without : String → Dict Text → Dict Text
without j [] = []
without j ((i, v) ∷ m) = if str_eq i j then m else (i, v) ∷ without j m

lookup-without :
    (j k : String) (m : Dict Text) → str_eq j k ≡ false → lookup k (without j m) ≡ lookup k m
lookup-without j k [] h = refl
lookup-without j k ((i, v) ∷ m) h =
    ground (arith, eq_iff i j, eq_iff i k, eq_iff j k, lookup-without j k m h)

length-without :
    (j : String) (m : Dict Text) (w : Text)
    → lookup j m ≡ some w
    → length m ≡ 1 + length (without j m)
length-without j [] w h = cc
length-without j ((i, v) ∷ m) w h = ground (arith, length-without j m w)

metadata_within-without :
    (j : String) (m other : Dict Text)
    → lookup j m ≡ none
    → metadata_within m other ≡ true
    → metadata_within m (without j other) ≡ true
unfolding metadata_within
metadata_within-without j [] other fresh h = refl
metadata_within-without j ((i, v) ∷ m) other fresh h = elim (Bool-cases (str_eq i j)) [
  | inl same ↦ let bad : ⊥ = ground arith in elim bad [ ]
  | inr differ ↦
      rw (lookup-without j i other (ground (arith, eq_iff i j, eq_iff j i)))
        (ground (arith, metadata_within-without j m other))
]

-- A key that the first map misses is missing in the second, which is as long.
missing-metadata_within :
    (m other : Dict Text) (k : String)
    → HasDistinctKeys m
    → metadata_within m other ≡ true
    → length m ≡ length other
    → lookup k m ≡ none
    → lookup k other ≡ none
unfolding metadata_within
missing-metadata_within [] [] k distinct h same fresh = refl
missing-metadata_within [] (x ∷ other) k distinct h same fresh = ground arith
missing-metadata_within ((j, v) ∷ m) other k (once, distinct) h same fresh =
    elim (Option-cases (lookup j other)) [
      | inl missing ↦ let bad : ⊥ = ground (arith, missing) in elim bad [ ]
      | inr (x, found) ↦ elim (Bool-cases (str_eq j k)) [
        | inl e ↦ let bad : ⊥ = ground arith in elim bad [ ]
        | inr differ ↦
            sym (lookup-without j k other differ)
            ∙ missing-metadata_within m (without j other) k distinct
                (metadata_within-without j m other once (ground (arith, found)))
                (ground (arith, length-without j other x found)) (ground arith)
      ]
    ]

-- Two entries that are taken for the same, of which the first holds each of its keys once, agree
-- on the key's hash and on every field: a field of either is in the other with the same text.
pub entry_equals_sound :
    (e other : RegistrationEntry)
    → HasDistinctKeys e.metadata
    → entry_equals e other ≡ true
    → (e.key_hash ≡ other.key_hash) × ((k : String) → lookup k e.metadata ≡ lookup k other.metadata)
unfolding entry_equals
entry_equals_sound e other distinct h = (
  ground (arith, text_eq_sound e.key_hash other.key_hash),
  λ k. elim (Option-cases (lookup k e.metadata)) [
    | inl missing ↦
        missing
        ∙ sym (
            missing-metadata_within e.metadata other.metadata k distinct (ground arith)
              (ground arith) missing)
    | inr (v, found) ↦
        found ∙ sym (metadata_within_sound e.metadata other.metadata k v (ground arith) found)
  ],
)
