-- ===== src/Catalog/Render/Prune.antt =====
-- Which models are removed.
use agentgateway_educates_op.Base.{
  String, ◌≡◌, refl, sym, ap, ◌∙◌, ◌++◌, Bool, true, false, ◌&&◌, ◌||◌, ◌↔◌, ◌⊎◌, inl, inr, List,
  [], ◌∷◌, ok, err, is_ok, arith, eq_iff, Bool-cases, if◌then◌else◌,
}
use mathlib.Core.List.{append_assoc, append-nil}
use agentgateway_educates_op.Api.Types.{CatalogModel}
use agentgateway_educates_op.Kube.{Cluster, Answer}
use agentgateway_educates_op.Sdk.Objects.{Custom, custom_delete}
use agentgateway_educates_op.Kube.Monad.{
  State, Call, object_call, attempt, pure, fail, wrap, perform, ◌>>=◌, ◌>>◌, observe, is_not_found,
  is_no_match, write_object,
}
use agentgateway_educates_op.Kube.Traces.{
  calls, Ends, Makes, Traces, Makes-pure, Makes-fail, Makes-perform, Makes-attempt, Makes-wrap,
  Makes-if, Makes-bind, Makes-Traces, Traces-bind,
}
use agentgateway_educates_op.Platform.Teardown.{list_managed_models}
use agentgateway_educates_op.Catalog.Render.{
  is_expected, internal_model_name, pruned_model, prune_model, prune_each, prune_listed,
  prune_models,
}

-- A name that an entry of the catalog accounts for: its own, or its internal model's.
abbrev pub IsRendered : List CatalogModel → String → Type 0
IsRendered [] name = ⊥
IsRendered (m ∷ l) name = (m.name ≡ name) ⊎ (internal_model_name m.name ≡ name) ⊎ IsRendered l name

is_expected_iff :
    (models : List CatalogModel) (name : String)
    → (is_expected models name ≡ true) ↔ IsRendered models name
unfolding is_expected
is_expected_iff [] name = (λ h. cc, λ e. elim e [ ])
is_expected_iff (m ∷ l) name =
    ground
      (arith, eq_iff m.name name, eq_iff (internal_model_name m.name) name, is_expected_iff l name)

-- The deletes of the models that no entry accounts for, in the order of the list.
unfoldable pub deletions : List CatalogModel → List Custom → List Call
deletions models [] = []
deletions models (live ∷ l) =
    if is_expected models live.name
    then deletions models l
    else object_call (custom_delete live) ∷ deletions models l

-- A list that is not answered has nothing to delete.
abbrev pub listed : Answer (List Custom) → List Custom
listed (ok l) = l
listed (err e) = []

module _ (c : Cluster) (models : List CatalogModel) where
  pruned_model-Makes : (live : Custom) (r : Answer (Unit {0})) → Makes c [] (pruned_model c live r)
  unfolding pruned_model
  pruned_model-Makes live (ok _) = Makes-pure _
  pruned_model-Makes live (err e) =
      Makes-if _ (is_not_found e) _ _ (Makes-pure _) (Makes-wrap _ _ _ (Makes-fail e))

  prune_each-Traces : (l : List Custom) → Traces c (deletions models l) (prune_each c models l)
  unfolding prune_each prune_model deletions write_object
  prune_each-Traces [] = Makes-Traces _ _ (Makes-pure tt)
  prune_each-Traces (live ∷ l) = elim (Bool-cases (is_expected models live.name)) [
    | inl h ↦
        rw h (Traces-bind [] _ _ _ (Makes-Traces _ _ (Makes-pure tt)) (λ _. prune_each-Traces l))
    | inr h ↦ rw h (
        Traces-bind (_ ∷ []) _ _ _
          (Makes-Traces _ _
            (Makes-bind _ _ _ (Makes-attempt _ _ (Makes-perform _ _)) (pruned_model-Makes live)))
          (λ _. prune_each-Traces l))
  ]

  prune_listed-Traces :
      (r : Answer (List Custom)) → Traces c (deletions models (listed r)) (prune_listed c models r)
  unfolding prune_listed deletions
  prune_listed-Traces (ok l) = prune_each-Traces l
  prune_listed-Traces (err e) =
      Makes-Traces _ _
        (Makes-if _ (is_no_match e || is_not_found e) _ _ (Makes-pure _) (Makes-fail e))

-- The model is deleted, or was gone.
unfoldable pub is_tolerable : Answer (Unit {0}) → Bool
is_tolerable (ok _) = true
is_tolerable (err e) = is_not_found e

-- The list is answered, or there is no such kind.
unfoldable pub can_list : Answer (List Custom) → Bool
can_list (ok l) = true
can_list (err e) = is_no_match e || is_not_found e

module _ (c : Cluster) (models : List CatalogModel) where
  -- The deletes from a world on, up to the first that is not tolerable.
  unfoldable pub attempted : List Custom → c.World → List Call
  attempted [] w = []
  attempted (live ∷ l) w =
      let (r, w') = c.objects.write (custom_delete live) w in
      if is_expected models live.name
      then attempted l w
      else object_call (custom_delete live) ∷ (if is_tolerable r then attempted l w' else [])

  -- None of them is.
  unfoldable pub goes_through : List Custom → c.World → Bool
  goes_through [] w = true
  goes_through (live ∷ l) w =
      let (r, w') = c.objects.write (custom_delete live) w in
      if is_expected models live.name
      then goes_through l w
      else if is_tolerable r
      then goes_through l w'
      else false

  -- The pass makes these calls and succeeds exactly where all are tolerable.
  abbrev Attempts : List Custom → State c → Type 0
  Attempts l s =
      (calls (prune_each c models l s).1.events ≡ calls s.events ++ attempted l s.world)
      × (is_ok (prune_each c models l s).0 ≡ goes_through l s.world)

  after_write :
      (l : List Custom) (live : Custom) (r : Answer (Unit {0})) (st : State c) (before : List Call)
      → ((s : State c) → Attempts l s)
      → calls st.events ≡ before ++ object_call (custom_delete live) ∷ []
      → let rest = (pruned_model c live r >> prune_each c models l) st in
        (calls rest.1.events
          ≡ before
            ++ object_call (custom_delete live)
              ∷ (if is_tolerable r then attempted l st.world else []))
        × (is_ok rest.0 ≡ (if is_tolerable r then goes_through l st.world else false))
  unfolding pruned_model is_tolerable ◌>>=◌ pure fail wrap
  after_write l live (ok _) st before ih e =
      ((ih st).0 ∙ (ap (λ x. x ++ attempted l st.world) e ∙ append_assoc before _ _), (ih st).1)
  after_write l live (err x) st before ih e = elim (Bool-cases (is_not_found x)) [
    | inl h ↦
        rw h
          ((ih st).0 ∙ (ap (λ y. y ++ attempted l st.world) e ∙ append_assoc before _ _), (ih st).1)
    | inr h ↦ rw h (e, refl)
  ]

  prune_each-Attempts : (l : List Custom) (s : State c) → Attempts l s
  unfolding prune_each prune_model attempted goes_through write_object ◌>>=◌ attempt pure perform
  prune_each-Attempts [] s = (sym (append-nil (calls s.events)), refl)
  prune_each-Attempts (live ∷ l) s = elim (Bool-cases (is_expected models live.name)) [
    | inl h ↦ rw h (prune_each-Attempts l s)
    | inr h ↦ rw h (
        after_write l live (c.objects.write (custom_delete live) s.world).0 _ (calls s.events)
          (λ st. prune_each-Attempts l st)
          ((Makes-perform (object_call (custom_delete live))
              (c.objects.write (custom_delete live))).at
            s))
  ]

  prune_listed-Attempts :
      (r : Answer (List Custom)) (s : State c)
      → (calls (prune_listed c models r s).1.events
          ≡ calls s.events ++ attempted (listed r) s.world)
        × (is_ok (prune_listed c models r s).0 ≡ (can_list r && goes_through (listed r) s.world))
  unfolding prune_listed attempted goes_through can_list pure fail
  prune_listed-Attempts (ok l) s = prune_each-Attempts l s
  prune_listed-Attempts (err e) s = elim (Bool-cases (is_no_match e || is_not_found e)) [
    | inl h ↦ rw h (sym (append-nil (calls s.events)), refl)
    | inr h ↦ rw h (sym (append-nil (calls s.events)), refl)
  ]

-- The prune after a catalog is rendered deletes the listed models of this operator whose names no
-- entry accounts for, in the order of the list, and makes no other call. It makes these deletes up
-- to the first that fails for another reason than that the model is gone, and stops there. It
-- succeeds exactly where the list is answered, or has no such kind, and no delete fails so; then
-- it has made them all. An entry accounts for its own name and for its internal model's, and for
-- no other.
pub prune_models-Ends :
    (c : Cluster) (models : List CatalogModel) (ns : String) (s : State c)
    → let seen = list_managed_models c ns s in
      let done = prune_models c ns models s in
      Ends (is_ok done.0) (calls s.events) (deletions models (listed seen.0)) (calls done.1.events)
      × (calls done.1.events
          ≡ calls seen.1.events ++ attempted c models (listed seen.0) seen.1.world)
      × (is_ok done.0 ≡ (can_list seen.0 && goes_through c models (listed seen.0) seen.1.world))
      × ((name : String) → (is_expected models name ≡ true) ↔ IsRendered models name)
unfolding prune_models attempt ◌>>=◌ list_managed_models observe
prune_models-Ends c models ns s =
    let r = list_managed_models c ns s in
    let exact = prune_listed-Attempts c models r.0 r.1 in
    ((prune_listed-Traces c models r.0).at r.1, exact.0, exact.1, is_expected_iff models)
