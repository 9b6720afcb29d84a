-- ===== src/Helm/Revisions.antt =====
-- The revision that a repair goes back to.
use agentgateway_educates_op.Base.{
  ◌≡◌, refl, sym, ap, true, false, ◌&&◌, List, [], ◌∷◌, All, ok, arith, ◌⊎◌, inl, inr, Bool-cases,
}
use agentgateway_educates_op.Base.Int.{ℤ, ◌≤ℤ◌, ltb_ℤ}
use agentgateway_educates_op.Sdk.Errors.{Answer}
use agentgateway_educates_op.Sdk.Releases.{
  Release, Releaser, nil_release, other_release, v1_release,
}
use agentgateway_educates_op.Helm.{LastDeployed, last_deployed, newer, is_usable, nothing_deployed}

-- A usable release is not newer than `v`.
abbrev pub IsBelow : ℤ → Releaser → Type 0
IsBelow v (v1_release rel) = is_usable rel.info ≡ true → rel.version ≤ℤ v
IsBelow v _ = Unit

abbrev HasRevision : ℤ → Releaser → Type 0
HasRevision v (v1_release rel) = (is_usable rel.info ≡ true) × (rel.version ≡ v)
HasRevision v _ = ⊥

-- A usable release of the history has the revision `v`.
abbrev pub Occurs : ℤ → List Releaser → Type 0
Occurs v [] = ⊥
Occurs v (r ∷ l) = HasRevision v r ⊎ Occurs v l

-- What the loop has found, from what it began with.
abbrev Found : LastDeployed → List Releaser → LastDeployed → Type 0
Found start l last =
    (start.revision ≤ℤ last.revision)
    × All (IsBelow last.revision) l
    × ((last ≡ start) ⊎ (last.found ≡ true) × Occurs last.revision l)

-- A usable release that is newer takes over.
taken-Found :
    (start last : LastDeployed) (rel : Release) (l : List Releaser)
    → (is_usable rel.info && ltb_ℤ start.revision rel.version) ≡ true
    → Found (record { revision = rel.version; found = true }) l last
    → Found start (v1_release rel ∷ l) last
taken-Found start last rel l t (above, below, found) = (
  ground arith,
  (λ u. above, below),
  elim found [
    | inl e ↦ inr (ap (λ x. x.found) e, inl (ground arith, sym (ap (λ x. x.revision) e)))
    | inr (e, o) ↦ inr (e, inr o)
  ],
)

skipped-Found :
    (start last : LastDeployed) (rel : Release) (l : List Releaser)
    → (is_usable rel.info && ltb_ℤ start.revision rel.version) ≡ false
    → Found start l last
    → Found start (v1_release rel ∷ l) last
skipped-Found start last rel l t (above, below, found) =
    (above, (λ u. ground arith, below), elim found [ inl e ↦ inl e | inr (e, o) ↦ inr (e, inr o) ])

newer-Found :
    (start last : LastDeployed) (rel : Release) (l : List Releaser)
    → Found (newer start rel) l last
    → Found start (v1_release rel ∷ l) last
unfolding newer
newer-Found start last rel l =
    elim (Bool-cases (is_usable rel.info && ltb_ℤ start.revision rel.version)) [
      | inl t ↦ rw t (taken-Found start last rel l t)
      | inr t ↦ rw t (skipped-Found start last rel l t)
    ]

same_answer :
    (r : Answer LastDeployed) (start last : LastDeployed)
    → r ≡ ok start
    → r ≡ ok last
    → start ≡ last
same_answer r start last e h = cc

last_deployed-Found :
    (l : List Releaser) (start last : LastDeployed)
    → last_deployed start l ≡ ok last
    → Found start l last
unfolding last_deployed
last_deployed-Found [] start last h =
    rw (same_answer (ok start) start last refl h) (omega arith, tt, inl refl)
last_deployed-Found (nil_release ∷ l) start last h =
    let (above, below, found) = last_deployed-Found l start last h in
    (above, (tt, below), elim found [ inl e ↦ inl e | inr (e, o) ↦ inr (e, inr o) ])
last_deployed-Found (other_release ∷ l) start last h = cc
last_deployed-Found (v1_release rel ∷ l) start last h =
    newer-Found start last rel l (last_deployed-Found l (newer start rel) last h)

-- Where the history is read, the revision that is reported is not below that of any release that
-- is deployed or superseded, and such a release has it. Where none is found, each of these
-- revisions is at most 0.
pub last_deployed-greatest :
    (l : List Releaser) (last : LastDeployed)
    → last_deployed nothing_deployed l ≡ ok last
    → All (IsBelow last.revision) l
      × ((last ≡ nothing_deployed) ⊎ (last.found ≡ true) × Occurs last.revision l)
last_deployed-greatest l last h =
    let found = last_deployed-Found l nothing_deployed last h in (found.1, found.2)
