-- ===== src/Kube/Traces.antt =====
-- The calls of a pass against a plan, whatever the cluster answers: one rule for each way to build
-- an action.
use agentgateway_educates_op.Base.{
  ◌≡◌, refl, sym, ap, ◌∙◌, Bool, true, false, List, [], ◌∷◌, ◌++◌, Text, ok, err, is_ok,
  if◌then◌else◌,
}
use mathlib.Core.List.{append_assoc, append-nil}
use agentgateway_educates_op.Kube.{Cluster, Answer, Error}
use agentgateway_educates_op.Kube.Monad.{
  Action, State, Event, Call, pure, fail, lift, attempt, wrap, ◌>>=◌, continue, observe, perform,
}

-- The calls of the record, in order.
unfoldable pub calls : List Event → List Call
calls [] = []
calls (e ∷ l) = e.call ∷ calls l

pub calls-append : (l m : List Event) → calls (l ++ m) ≡ calls l ++ calls m
unfolding calls
calls-append [] m = refl
calls-append (e ∷ l) m = rw (calls-append l m) refl

-- What has been called and what was left to call make up the plan, and nothing is left where the
-- pass is done.
abbrev pub Ends : Bool → List Call → List Call → List Call → Type 0
Ends done before plan after =
    (rest : List Call) × (after ++ rest ≡ before ++ plan) × (done ≡ true → rest ≡ [])

module _ (c : Cluster) where
  -- `m` makes the calls of `plan` whether or not it fails.
  pub record Makes {A : Type 0} (plan : List Call) (m : Action (State c) A) : Type 0 where
    pub at : (s : State c) → calls (m s).1.events ≡ calls s.events ++ plan

  -- `m` makes the calls of `plan`, and may fail before the last.
  pub record Traces {A : Type 0} (plan : List Call) (m : Action (State c) A) : Type 0 where
    pub at : (s : State c) → Ends (is_ok (m s).0) (calls s.events) plan (calls (m s).1.events)

module _ {c : Cluster} {A : Type 0} where
  pub Makes-pure : (a : A) → Makes c [] (pure a)
  unfolding pure
  Makes-pure a = record { at = λ s. sym (append-nil (calls s.events)) }

  pub Makes-fail : (e : Error) → Makes c [] (fail {A = A} e)
  unfolding fail
  Makes-fail e = record { at = λ s. sym (append-nil (calls s.events)) }

  pub Makes-lift : (r : Answer A) → Makes c [] (lift r)
  unfolding lift
  Makes-lift r = record { at = λ s. sym (append-nil (calls s.events)) }

  pub Makes-observe : (f : c.World → Answer A × c.World) → Makes c [] (observe c f)
  unfolding observe
  Makes-observe f = record { at = λ s. sym (append-nil (calls s.events)) }

  pub Makes-perform :
      (call : Call) (f : c.World → Answer A × c.World) → Makes c (call ∷ []) (perform c call f)
  unfolding perform calls
  Makes-perform call f = record { at = λ s. calls-append s.events _ }

  pub Makes-attempt :
      (plan : List Call) (m : Action (State c) A) → Makes c plan m → Makes c plan (attempt m)
  unfolding attempt
  Makes-attempt plan m k = record { at = λ s. k.at s }

  pub Makes-wrap :
      (plan : List Call) (prefix : Text) (m : Action (State c) A)
      → Makes c plan m
      → Makes c plan (wrap prefix m)
  unfolding wrap
  Makes-wrap plan prefix m k = record { at = λ s. k.at s }

  pub Makes-if :
      (plan : List Call) (b : Bool) (m n : Action (State c) A)
      → Makes c plan m
      → Makes c plan n
      → Makes c plan (if b then m else n)
  Makes-if plan true m n km kn = km
  Makes-if plan false m n km kn = kn

  pub Makes-Traces : (plan : List Call) (m : Action (State c) A) → Makes c plan m → Traces c plan m
  Makes-Traces plan m k = record { at = λ s. ([], append-nil _ ∙ k.at s, λ h. refl) }

module _ {c : Cluster} {A B : Type 0} where
  Makes-continue :
      (r : Answer A) (f : A → Action (State c) B) (s : State c)
      → ((a : A) → Makes c [] (f a))
      → calls (continue r f s).1.events ≡ calls s.events
  Makes-continue (ok a) f s kf = (kf a).at s ∙ append-nil _
  Makes-continue (err e) f s kf = refl

  -- What follows makes no call.
  pub Makes-bind :
      (plan : List Call) (m : Action (State c) A) (f : A → Action (State c) B)
      → Makes c plan m
      → ((a : A) → Makes c [] (f a))
      → Makes c plan (m >>= f)
  unfolding ◌>>=◌
  Makes-bind plan m f km kf = record { at = λ s. Makes-continue (m s).0 f (m s).1 kf ∙ km.at s }

  Traces-continue :
      (first second : List Call) (r : Answer A) (f : A → Action (State c) B) (before : List Call)
      (s : State c)
      → ((a : A) → Traces c second (f a))
      → Ends (is_ok r) before first (calls s.events)
      → Ends (is_ok (continue r f s).0) before (first ++ second) (calls (continue r f s).1.events)
  Traces-continue first second (ok a) f before s kf (rest, e, done) =
      let (rest', e', done') = (kf a).at s in
      let nothing = done refl in
      (
        rest',
        e'
            ∙ (ap (λ x. x ++ second)
                  (sym (append-nil (calls s.events))
                    ∙ (ap (λ x. calls s.events ++ x) (sym nothing) ∙ e))
                ∙ append_assoc before first second),
        done',
      )
  Traces-continue first second (err x) f before s kf (rest, e, done) = (
    rest ++ second,
    sym (append_assoc (calls s.events) rest second)
        ∙ (ap (λ x. x ++ second) e ∙ append_assoc before first second),
    λ h. cc,
  )

  pub Traces-bind :
      (first second : List Call) (m : Action (State c) A) (f : A → Action (State c) B)
      → Traces c first m
      → ((a : A) → Traces c second (f a))
      → Traces c (first ++ second) (m >>= f)
  unfolding ◌>>=◌
  Traces-bind first second m f km kf = record {
    at = λ s. Traces-continue first second (m s).0 f (calls s.events) (m s).1 kf (km.at s);
  }
