-- ===== src/Kube/Keeps.antt =====
-- Properties of the record of a pass, whatever the cluster answers: one rule for each way to build
-- an action.
use agentgateway_educates_op.Base.{
  ◌≡◌, refl, Bool, true, false, List, [], ◌∷◌, ◌++◌, Text, ok, err, is_ok, All, All-append,
  if◌then◌else◌,
}
use agentgateway_educates_op.Kube.{Cluster, Answer, Error}
use agentgateway_educates_op.Kube.Lawful.{RetriesOnly}
use agentgateway_educates_op.Kube.Monad.{
  Action, State, Event, Call, pure, fail, lift, attempt, wrap, ◌>>=◌, continue, observe, perform,
}

module _ (c : Cluster) where
  -- `m` keeps `P`, whether it returns or fails.
  pub record Keeps {A : Type 0} (P : List Event → Type 0) (m : Action (State c) A) : Type 0 where
    pub at : (s : State c) → P s.events → P (m s).1.events

module _ {c : Cluster} {A : Type 0} {P : List Event → Type 0} where
  pub Keeps-pure : (a : A) → Keeps c P (pure a)
  unfolding pure
  Keeps-pure a = record { at = λ s h. h }

  pub Keeps-fail : (e : Error) → Keeps c P (fail {A = A} e)
  unfolding fail
  Keeps-fail e = record { at = λ s h. h }

  pub Keeps-lift : (r : Answer A) → Keeps c P (lift r)
  unfolding lift
  Keeps-lift r = record { at = λ s h. h }

  pub Keeps-attempt : (m : Action (State c) A) → Keeps c P m → Keeps c P (attempt m)
  unfolding attempt
  Keeps-attempt m k = record { at = λ s h. k.at s h }

  pub Keeps-wrap :
      (prefix : Text) (m : Action (State c) A) → Keeps c P m → Keeps c P (wrap prefix m)
  unfolding wrap
  Keeps-wrap prefix m k = record { at = λ s h. k.at s h }

  pub Keeps-observe : (f : c.World → Answer A × c.World) → Keeps c P (observe c f)
  unfolding observe
  Keeps-observe f = record { at = λ s h. h }

  pub Keeps-perform :
      (call : Call) (f : c.World → Answer A × c.World)
      → ((l : List Event) (b : Bool) → P l → P (l ++ record { call = call; succeeded = b } ∷ []))
      → Keeps c P (perform c call f)
  unfolding perform
  Keeps-perform call f k = record { at = λ s h. k s.events (is_ok (f s.world).0) h }

  pub Keeps-if :
      (b : Bool) (m n : Action (State c) A)
      → Keeps c P m
      → Keeps c P n
      → Keeps c P (if b then m else n)
  Keeps-if true m n km kn = km
  Keeps-if false m n km kn = kn

module _ {c : Cluster} {A B : Type 0} {P : List Event → Type 0} where
  Keeps-continue :
      (r : Answer A) (f : A → Action (State c) B) (s : State c)
      → ((a : A) → Keeps c P (f a))
      → P s.events
      → P (continue r f s).1.events
  Keeps-continue (ok a) f s kf h = (kf a).at s h
  Keeps-continue (err e) f s kf h = h

  pub Keeps-bind :
      (m : Action (State c) A) (f : A → Action (State c) B)
      → Keeps c P m
      → ((a : A) → Keeps c P (f a))
      → Keeps c P (m >>= f)
  unfolding ◌>>=◌
  Keeps-bind m f km kf = record { at = λ s h. Keeps-continue (m s).0 f (m s).1 kf (km.at s h) }

module _ {c : Cluster} {A B : Type 0} {P : List Event → Type 0} where
  continue_seen :
      (r : Answer A) (f : A → Action (State c) B) (s : State c)
      → ((a : A) → r ≡ ok a → Keeps c P (f a))
      → P s.events
      → P (continue r f s).1.events
  continue_seen (ok a) f s kf h = (kf a refl).at s h
  continue_seen (err e) f s kf h = h

  -- What follows may use what the first action has returned, and in which state.
  pub Keeps-bind_seen :
      (m : Action (State c) A) (f : A → Action (State c) B)
      → Keeps c P m
      → ((s : State c) (a : A) → (m s).0 ≡ ok a → Keeps c P (f a))
      → Keeps c P (m >>= f)
  unfolding ◌>>=◌
  Keeps-bind_seen m f km kf = record {
    at = λ s h. continue_seen (m s).0 f (m s).1 (kf s) (km.at s h);
  }

-- Every recorded call satisfies `Q`.
pub Keeps-write :
    {c : Cluster} {A : Type 0} (Q : Event → Type 0) (call : Call) (f : c.World → Answer A × c.World)
    → ((b : Bool) → Q (record { call = call; succeeded = b }))
    → Keeps c (All Q) (perform c call f)
Keeps-write Q call f q = Keeps-perform call f (λ l b h. All-append Q l _ h (q b, tt))

pub Keeps-retry :
    {c : Cluster} {P : List Event → Type 0}
    → RetriesOnly c
    → (m : Action (State c) (Unit {0})) → Keeps c P m
    → Keeps c P (c.retry_on_conflict m)
Keeps-retry {c} {P} law m k = record {
  at = λ s h. law.retry_keeps (State c) (λ x. P x.events) m (λ x hx. k.at x hx) s h;
}

pub ruleset keeps_rules = (
  Keeps-pure, Keeps-fail, Keeps-lift, Keeps-attempt, Keeps-wrap, Keeps-observe, Keeps-if,
  Keeps-bind,
)
