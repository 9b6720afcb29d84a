-- ===== src/Helm/Converge/Calls.antt =====
-- The calls of each operation on a release, and of each repair.
use agentgateway_educates_op.Base.{
  ◌≡◌, sym, Bool, true, false, List, [], ◌∷◌, map, Option, String, ok, err, Bool-cases, inl, inr,
}
use mathlib.Core.List.{append-nil}
use agentgateway_educates_op.Base.Int.{ℤ}
use agentgateway_educates_op.Kube.{Cluster, Answer}
use agentgateway_educates_op.Sdk.Json.{Fields}
use agentgateway_educates_op.Sdk.Releases.{
  Chart, Release, ReleaseStatus, Releaser, v1_release, nil_release, other_release, HelmCall,
}
use agentgateway_educates_op.Kube.Monad.{Call, helm_call, pure, ◌>>=◌, helm_act}
use agentgateway_educates_op.Kube.Traces.{
  calls, Makes, Traces, Makes-pure, Makes-fail, Makes-perform, Makes-observe, Makes-attempt,
  Makes-wrap, Makes-if, Makes-bind, Makes-Traces, Traces-bind,
}
use agentgateway_educates_op.Helm.{
  HelmClient, LastDeployed, as_release, after_get, after_uninstall, after_history, naming, install,
  upgrade, uninstall, rollback, release_status, last_deployed_revision, is_driver_not_found,
}
use agentgateway_educates_op.Helm.Converge.{
  Converged, Outcome, repair, repair_method, is_pending, repaired_upgrade, repaired_reinstall,
}
use agentgateway_educates_op.Helm.Converge.Plan.{
  plan, ReleaseView, broken, locked, installation, upgrading, rolling_back, removal,
}

module _ (c : Cluster) (client : HelmClient) (name : String) (chart : Option Chart)
    (values : Option Fields) where
  abbrev pub in_namespace : HelmCall → Call
  in_namespace call = helm_call client.namespace call

  -- The calls that are planned in the client's namespace.
  abbrev pub planned : ReleaseView → LastDeployed → List Call
  planned v last = map in_namespace (plan client name chart values v last)

  act-Makes :
      (call : HelmCall) → Makes c (in_namespace call ∷ []) (helm_act c client.namespace call)
  unfolding helm_act
  act-Makes call = Makes-perform _ _

  as_release-Makes : (r : Releaser) → Makes c [] (as_release c r)
  unfolding as_release
  as_release-Makes nil_release = Makes-pure _
  as_release-Makes (v1_release rel) = Makes-pure _
  as_release-Makes other_release = Makes-fail _

  install-Makes :
      Makes c
        (in_namespace (installation client name chart values) ∷ [])
        (install c client name chart values)
  unfolding install
  install-Makes = Makes-bind _ _ _ (Makes-wrap _ _ _ (act-Makes _)) as_release-Makes

  upgrade-Makes :
      Makes c
        (in_namespace (upgrading client name chart values) ∷ [])
        (upgrade c client name chart values)
  unfolding upgrade
  upgrade-Makes = Makes-bind _ _ _ (Makes-wrap _ _ _ (act-Makes _)) as_release-Makes

  rollback-Makes :
      (revision : ℤ)
      → Makes c
          (in_namespace (rolling_back client name chart values revision) ∷ [])
          (rollback c client name revision)
  unfolding rollback
  rollback-Makes revision = Makes-bind _ _ _ (Makes-wrap _ _ _ (act-Makes _)) (λ _. Makes-pure _)

  after_uninstall-Makes : (r : Answer Releaser) → Makes c [] (after_uninstall c name r)
  unfolding after_uninstall
  after_uninstall-Makes (ok _) = Makes-pure _
  after_uninstall-Makes (err e) =
      Makes-if _ (is_driver_not_found e) _ _ (Makes-pure _) (Makes-wrap _ _ _ (Makes-fail e))

  pub uninstall-Makes :
      Makes c (in_namespace (removal client name chart values) ∷ []) (uninstall c client name)
  unfolding uninstall
  uninstall-Makes = Makes-bind _ _ _ (Makes-attempt _ _ (act-Makes _)) after_uninstall-Makes

  after_get-Makes :
      (r : Answer Releaser) → Makes c [] (after_get c (naming "get helm release " name) r)
  unfolding after_get
  after_get-Makes (ok r) = as_release-Makes r
  after_get-Makes (err e) =
      Makes-if _ (is_driver_not_found e) _ _ (Makes-fail _) (Makes-wrap _ _ _ (Makes-fail e))

  pub release_status-Makes : Makes c [] (release_status c client name)
  unfolding release_status
  release_status-Makes = Makes-bind _ _ _ (Makes-attempt _ _ (Makes-observe _)) after_get-Makes

  after_history-Makes : (r : Answer (List Releaser)) → Makes c [] (after_history c name r)
  unfolding after_history
  after_history-Makes (ok l) = record { at = λ s. sym (append-nil (calls s.events)) }
  after_history-Makes (err e) =
      Makes-if _ (is_driver_not_found e) _ _ (Makes-pure _) (Makes-wrap _ _ _ (Makes-fail e))

  pub last_deployed_revision-Makes : Makes c [] (last_deployed_revision c client name)
  unfolding last_deployed_revision
  last_deployed_revision-Makes =
      Makes-bind _ _ _ (Makes-attempt _ _ (Makes-observe _)) after_history-Makes

  abbrev pub stuck : Bool → ReleaseView
  stuck true = locked false
  stuck false = broken false

  pub installs :
      (outcome : Outcome)
      → Traces c {A = Converged} (in_namespace (installation client name chart values) ∷ []) (do
        rel ← install c client name chart values
        pure (record { outcome = outcome; release = rel }))
  installs outcome = Makes-Traces _ _ (Makes-bind _ _ _ install-Makes (λ rel. Makes-pure _))

  pub upgrades :
      (outcome : Outcome)
      → Traces c {A = Converged} (in_namespace (upgrading client name chart values) ∷ []) (do
        rel ← upgrade c client name chart values
        pure (record { outcome = outcome; release = rel }))
  upgrades outcome = Makes-Traces _ _ (Makes-bind _ _ _ upgrade-Makes (λ rel. Makes-pure _))

  reinstalls :
      (live : Option Release) (last : LastDeployed)
      → Traces c
          (in_namespace (removal client name chart values)
            ∷ (in_namespace (installation client name chart values) ∷ []))
          (repair c client name chart values live last repaired_reinstall)
  unfolding repair
  reinstalls live last =
      Traces-bind (in_namespace (removal client name chart values) ∷ []) _ _ _
        (Makes-Traces _ _ uninstall-Makes) (λ _. installs repaired_reinstall)

  pub repair-Traces :
      (status : ReleaseStatus) (live : Option Release) (last : LastDeployed) (pending : Bool)
      → is_pending status ≡ pending
      → Traces c
          (planned (stuck pending) last)
          (repair c client name chart values live last (repair_method status last.found))
  unfolding repair repair_method plan
  repair-Traces status live last true h = elim (Bool-cases last.found) [
    | inl f ↦
        rw (h, f)
          (Makes-Traces _ _ (Makes-bind _ _ _ (rollback-Makes last.revision) (λ _. Makes-pure _)))
    | inr f ↦ rw (h, f) (reinstalls live last)
  ]
  repair-Traces status live last false h = elim (Bool-cases last.found) [
    | inl f ↦ rw (h, f) (upgrades repaired_upgrade)
    | inr f ↦ rw (h, f) (reinstalls live last)
  ]
