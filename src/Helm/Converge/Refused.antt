-- ===== src/Helm/Converge/Refused.antt =====
-- What a converge does with a release that is not the operator's.
use agentgateway_educates_op.Base.{◌≡◌, true, Option, none, some, String, ok, err, ◌⊎◌}
use agentgateway_educates_op.Kube.{Packages, Cluster, Answer}
use agentgateway_educates_op.Sdk.Json.{Fields}
use agentgateway_educates_op.Sdk.Releases.{Chart, Release}
use agentgateway_educates_op.Kube.Monad.{State}
use agentgateway_educates_op.Helm.{HelmClient, is_owned, is_release_not_found}
use agentgateway_educates_op.Helm.Converge.{Converged, refused_not_owned, on_status}

-- What a converge may act on: no release, one without an Info, or one with the operator's label.
abbrev pub IsOpen : Answer (Option Release) → Type 0
IsOpen (err e) = is_release_not_found e ≡ true
IsOpen (ok none) = Unit {0}
IsOpen (ok (some rel)) = (rel.info ≡ none) ⊎ (is_owned (some rel) ≡ true)

-- The result of a converge that does not act.
abbrev pub turned_away : Answer (Option Release) → Answer Converged
turned_away (err e) = err e
turned_away (ok live) = ok (record { outcome = refused_not_owned; release = live })

-- No result of the pass is a refusal.
abbrev pub NotRefused : Answer Converged → Type 0
NotRefused (ok x) = x.outcome ≡ refused_not_owned → ⊥
NotRefused (err e) = Unit {0}

module _ (p : Packages) (c : Cluster) (client : HelmClient) (name : String) (chart : Option Chart)
    (values : Option Fields) where
  -- Something open is not refused, and all else is left as it is.
  abbrev Spares : Answer (Option Release) → State c → Type 0
  Spares r s =
      (IsOpen r × NotRefused (on_status p c client name chart values r s).0)
      ⊎ (on_status p c client name chart values r s ≡ (turned_away r, s))
