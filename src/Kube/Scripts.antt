-- ===== src/Kube/Scripts.antt =====
-- The calls of a pass against a script: the calls that it must make, in order, with places where
-- it may make any number of calls of a kind. A step relation on the calls that are left.
use agentgateway_educates_op.Base.{
  ◌≡◌, refl, sym, ap, ◌∙◌, Bool, true, false, List, [], ◌∷◌, ◌++◌, map, ok, err, is_ok, all,
  all-append, arith,
}
use mathlib.Core.List.{append_assoc, append-nil}
use agentgateway_educates_op.Kube.{Cluster, Answer, Error}
use agentgateway_educates_op.Kube.Monad.{Action, State, Event, Call, fail, ◌>>=◌, continue, perform}
use agentgateway_educates_op.Kube.Traces.{calls, calls-append, Makes}
use agentgateway_educates_op.Kube.Keeps.{Keeps, Keeps-perform}

pub data Item : Type 0 where
  once : Call → Item
  any_of : (Call → Bool) → Item

-- A pass that is not done may halt anywhere, one that is done is at the script's end.
pub data Follows : Bool → List Item → List Call → Type 0 where
  ends : (done : Bool) → Follows done [] []
  halts : (script : List Item) → Follows false script []
  makes :
      {done : Bool} {script : List Item} {l : List Call} (call : Call)
      → Follows done script l
      → Follows done (once call ∷ script) (call ∷ l)
  passes :
      {done : Bool} {script : List Item} {l : List Call} (allowed : Call → Bool)
      → Follows done script l
      → Follows done (any_of allowed ∷ script) l
  repeats :
      {done : Bool} {script : List Item} {l : List Call} (allowed : Call → Bool) (call : Call)
      → allowed call ≡ true
      → Follows done (any_of allowed ∷ script) l
      → Follows done (any_of allowed ∷ script) (call ∷ l)

Follows-then :
    {done first_done : Bool} {first second : List Item} {l m : List Call}
    → first_done ≡ true
    → Follows first_done first l
    → Follows done second m
    → Follows done (first ++ second) (l ++ m)
Follows-then e (ends _) g = g
Follows-then e (halts script) g = cc
Follows-then e (makes call f) g = makes call (Follows-then e f g)
Follows-then e (passes allowed f) g = passes allowed (Follows-then e f g)
Follows-then e (repeats allowed call h f) g = repeats allowed call h (Follows-then e f g)

Follows-cut :
    {done : Bool} {first : List Item} {l : List Call} (second : List Item)
    → Follows done first l
    → Follows false (first ++ second) l
Follows-cut second (ends _) = halts second
Follows-cut second (halts script) = halts (script ++ second)
Follows-cut second (makes call f) = makes call (Follows-cut second f)
Follows-cut second (passes allowed f) = passes allowed (Follows-cut second f)
Follows-cut second (repeats allowed call h f) = repeats allowed call h (Follows-cut second f)

Follows-all :
    (done : Bool) (allowed : Call → Bool) (l : List Call)
    → all allowed l ≡ true
    → Follows done (any_of allowed ∷ []) l
Follows-all done allowed [] h = passes allowed (ends done)
Follows-all done allowed (call ∷ l) h =
    repeats allowed call (ground arith) (Follows-all done allowed l (ground arith))

Follows-exactly : (done : Bool) (plan : List Call) → Follows done (map once plan) plan
Follows-exactly done [] = ends done
Follows-exactly done (call ∷ plan) = makes call (Follows-exactly done plan)

-- The calls after those of `before` follow the script.
abbrev pub Continues : Bool → List Item → List Call → List Call → Type 0
Continues done script before after =
    (made : List Call) × (after ≡ before ++ made) × Follows done script made

-- The calls after those of `before` are all allowed.
abbrev pub AddsOnly : (Call → Bool) → List Call → List Event → Type 0
AddsOnly allowed before l =
    (made : List Call) × (calls l ≡ before ++ made) × (all allowed made ≡ true)

module _ (c : Cluster) where
  pub record Scripted {A : Type 0} (script : List Item) (m : Action (State c) A) : Type 0 where
    pub at :
        (s : State c) → Continues (is_ok (m s).0) script (calls s.events) (calls (m s).1.events)

module _ {c : Cluster} {A : Type 0} where
  pub Scripted-fail : (script : List Item) (e : Error) → Scripted c script (fail {A = A} e)
  unfolding fail
  Scripted-fail script e = record {
    at = λ s. ([], sym (append-nil (calls s.events)), halts script);
  }

  pub Makes-Scripted :
      (plan : List Call) (m : Action (State c) A) → Makes c plan m → Scripted c (map once plan) m
  Makes-Scripted plan m k = record { at = λ s. (plan, k.at s, Follows-exactly _ plan) }

  pub Keeps-Scripted :
      (allowed : Call → Bool) (m : Action (State c) A)
      → ((before : List Call) → Keeps c (AddsOnly allowed before) m)
      → Scripted c (any_of allowed ∷ []) m
  Keeps-Scripted allowed m k = record {
    at = λ s.
        let (made, e, h) = (k (calls s.events)).at s ([], sym (append-nil _), refl) in
        (made, e, Follows-all _ allowed made h);
  }

  pub AddsOnly-perform :
      (allowed : Call → Bool) (before : List Call) (call : Call) (f : c.World → Answer A × c.World)
      → allowed call ≡ true
      → Keeps c (AddsOnly allowed before) (perform c call f)
  unfolding calls
  AddsOnly-perform allowed before call f h = Keeps-perform call f (λ l b (made, e, k). (
    made ++ call ∷ [],
    calls-append l _ ∙ (ap (λ x. x ++ call ∷ []) e ∙ append_assoc before made (call ∷ [])),
    all-append allowed made (call ∷ []) ∙ rw (k, h) refl,
  ))

module _ {c : Cluster} {A B : Type 0} where
  Scripted-continue :
      (first second : List Item) (r : Answer A) (f : A → Action (State c) B) (before : List Call)
      (s : State c)
      → ((a : A) → Scripted c second (f a))
      → Continues (is_ok r) first before (calls s.events)
      → Continues
          (is_ok (continue r f s).0)
          (first ++ second)
          before
          (calls (continue r f s).1.events)
  Scripted-continue first second (ok a) f before s kf (made, e, g) =
      let (made', e', g') = (kf a).at s in
      (
        made ++ made',
        e' ∙ (ap (λ x. x ++ made') e ∙ append_assoc before made made'),
        Follows-then refl g g',
      )
  Scripted-continue first second (err x) f before s kf (made, e, g) =
      (made, e, Follows-cut second g)

  pub Scripted-bind :
      (first second : List Item) (m : Action (State c) A) (f : A → Action (State c) B)
      → Scripted c first m
      → ((a : A) → Scripted c second (f a))
      → Scripted c (first ++ second) (m >>= f)
  unfolding ◌>>=◌
  Scripted-bind first second m f km kf = record {
    at = λ s. Scripted-continue first second (m s).0 f (calls s.events) (m s).1 kf (km.at s);
  }
