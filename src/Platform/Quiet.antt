-- ===== src/Platform/Quiet.antt =====
-- Passes that do not report a platform as ready: the calls that every step is made of.
pub mod Steps
pub mod Charts
use agentgateway_educates_op.Base.{
  String, ◌≡◌, refl, ap, ◌∙◌, Bool, true, false, ◌||◌, not, List, [], ◌∷◌, ◌++◌, map, Option, none,
  some, Text, ok, err, any, arith, if◌then◌else◌, Bool-cases, inl, inr,
}
use mathlib.Core.List.{append-nil}
use agentgateway_educates_op.Api.Types.{AgentGatewayPlatform, PlatformPhase, platform_ready}
use agentgateway_educates_op.Kube.{Packages, Cluster, Answer}
use agentgateway_educates_op.Kube.Lawful.{RetriesOnly}
use agentgateway_educates_op.Kube.Keeps.{
  Keeps, keeps_rules, Keeps-perform, Keeps-retry, Keeps-bind, Keeps-observe, Keeps-pure,
}
use agentgateway_educates_op.Kube.Traces.{calls, calls-append, Ends, Makes}
use agentgateway_educates_op.Kube.Monad.{
  Action, State, Event, Call, platform_status_update, object_call, helm_call, perform, get_platform,
  update_platform_status, write_object, ◌>>=◌,
}
use agentgateway_educates_op.Sdk.Objects.{ObjectCall}
use agentgateway_educates_op.Sdk.Releases.{HelmCall, Chart}
use agentgateway_educates_op.Sdk.Json.{Fields}
use agentgateway_educates_op.Helm.{HelmClient, uninstall}
use agentgateway_educates_op.Helm.Converge.{ensure_release}
use agentgateway_educates_op.Helm.Converge.Plan.{plan}
use agentgateway_educates_op.Helm.Converge.Calls.{uninstall-Makes}
use agentgateway_educates_op.Helm.Converge.Traces.{ensure_release-Ends}
use agentgateway_educates_op.Platform.Status.{update_status_of, write_platform_status}

unfoldable pub is_ready_phase : PlatformPhase → Bool
is_ready_phase phase = elim phase [ platform_ready ↦ true | _ ↦ false ]

-- A write of a platform's status in the phase Ready.
unfoldable pub reports_ready : Call → Bool
reports_ready call = elim call [
  | platform_status_update x ↦ is_ready_phase x.status.phase
  | _ ↦ false
]

-- No call of the record reports a platform as ready.
abbrev pub NeverReady : List Event → Type 0
NeverReady l = any reports_ready (calls l) ≡ false

any-append : (f : Call → Bool) (l m : List Call) → any f (l ++ m) ≡ (any f l || any f m)
any-append f [] m = refl
any-append f (x ∷ l) m = ground (arith, any-append f l m)

any-left : (f : Call → Bool) (l m : List Call) → any f (l ++ m) ≡ false → any f l ≡ false
any-left f l m h = ground (arith, any-append f l m)

module _ (c : Cluster) where
  abbrev pub Quiet : {A : Type 0} → Action (State c) A → Type 0
  Quiet m = Keeps c NeverReady m

module _ {c : Cluster} {A : Type 0} where
  pub Quiet-perform :
      (call : Call) (f : c.World → Answer A × c.World)
      → reports_ready call ≡ false
      → Quiet c (perform c call f)
  unfolding calls
  Quiet-perform call f q = Keeps-perform call f (λ l b h.
      ap (any reports_ready) (calls-append l _)
      ∙ (any-append reports_ready (calls l) (call ∷ []) ∙ rw (h, q) refl))

  pub Makes-Quiet :
      (made : List Call) (m : Action (State c) A)
      → any reports_ready made ≡ false
      → Makes c made m
      → Quiet c m
  Makes-Quiet made m q k = record {
    at = λ s h.
        ap (any reports_ready) (k.at s)
        ∙ (any-append reports_ready (calls s.events) made ∙ rw (h, q) refl);
  }

Ends-NeverReady :
    (done : Bool) (before made after : List Call)
    → Ends done before made after
    → any reports_ready before ≡ false
    → any reports_ready made ≡ false
    → any reports_ready after ≡ false
Ends-NeverReady done before made after (rest, e, d) h q =
    any-left reports_ready after rest
      (ap (any reports_ready) e ∙ (any-append reports_ready before made ∙ rw (h, q) refl))

helm_calls-NeverReady :
    (ns : String) (l : List HelmCall) → any reports_ready (map (λ x. helm_call ns x) l) ≡ false
unfolding reports_ready
helm_calls-NeverReady ns [] = refl
helm_calls-NeverReady ns (x ∷ l) = helm_calls-NeverReady ns l

module _ (c : Cluster) where
  pub ensure_release-Quiet :
      (p : Packages) (client : HelmClient) (name : String) (chart : Option Chart)
      (values : Option Fields)
      → Quiet c (ensure_release p c client name chart values)
  ensure_release-Quiet p client name chart values = record {
    at = λ s h.
        Ends-NeverReady _ _ _ _ (ensure_release-Ends p c client name chart values s) h
          (helm_calls-NeverReady client.namespace _);
  }

  pub uninstall-Quiet : (client : HelmClient) (name : String) → Quiet c (uninstall c client name)
  unfolding reports_ready
  uninstall-Quiet client name = Makes-Quiet _ _ refl (uninstall-Makes c client name none none)

  pub write_object-Quiet : (call : ObjectCall) → Quiet c (write_object c call)
  unfolding write_object reports_ready
  write_object-Quiet call = Quiet-perform _ _ refl

  pub update_status_of-Quiet :
      (platform : AgentGatewayPlatform)
      → RetriesOnly c
      → is_ready_phase platform.status.phase ≡ false
      → Quiet c (update_status_of c platform)
  unfolding update_status_of write_platform_status get_platform update_platform_status reports_ready
  update_status_of-Quiet platform retries h =
      Keeps-retry retries _ (Keeps-bind _ _ (Keeps-observe _) (λ live. Quiet-perform _ _ h))
