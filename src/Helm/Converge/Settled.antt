-- ===== src/Helm/Converge/Settled.antt =====
-- Releases that a converge leaves alone.
use agentgateway_educates_op.Base.{
  ◌≡◌, refl, ap, ◌∙◌, true, false, Option, none, some, Text, String, ok, text_eq_refl,
}
use agentgateway_educates_op.Kube.{Packages, Cluster}
use agentgateway_educates_op.Sdk.Json.{Fields}
use agentgateway_educates_op.Sdk.Releases.{
  Chart, Release, ReleaseInfo, ReleaseStatus, v1_release, deployed, failed_release, uninstalling,
  pending_install, pending_upgrade, pending_rollback, unknown, uninstalled, superseded,
}
use agentgateway_educates_op.Kube.Monad.{State, ◌>>=◌, attempt, observe, pure}
use agentgateway_educates_op.Helm.{
  HelmClient, is_owned, owner_labels, release_status, after_get, as_release,
}
use agentgateway_educates_op.Helm.Converge.{
  Outcome, unchanged, held_failed, waiting_uninstall, dec_refuse, classify, by_release, by_info,
  by_status, act_on, on_status, ensure_release, fingerprint, live_fingerprint, chart_version,
  normal_values,
}

-- What is reported of an owned release that is as desired, where nothing is to be done.
unfoldable pub settled : ReleaseStatus → Option Outcome
settled deployed = some unchanged
settled failed_release = some held_failed
settled pending_install = some held_failed
settled pending_upgrade = some held_failed
settled pending_rollback = some held_failed
settled uninstalling = some waiting_uninstall
settled _ = none

module _ (p : Packages) (c : Cluster) (client : HelmClient) (name : String) (chart : Option Chart)
    (values : Option Fields) where
  -- The pass reads the release, reports `outcome` of it, and calls nothing.
  abbrev pub LeavesAlone : Release → Outcome → State c → Type 0
  LeavesAlone rel outcome s = ensure_release p c client name chart values s ≡ (
    ok (record { outcome = outcome; release = some rel }),
    record s { world = (c.helm.get_release client.namespace name s.world).1 },
  )

  -- What the pass does with a release that it finds.
  ensure_release-found :
      (rel : Release) (s : State c)
      → (c.helm.get_release client.namespace name s.world).0 ≡ ok (v1_release rel)
      → ensure_release p c client name chart values s
        ≡ act_on c client name chart values
            (some rel)
            (classify p (some rel) false (fingerprint p (chart_version chart) values))
            (record s { world = (c.helm.get_release client.namespace name s.world).1 })
  unfolding ensure_release ◌>>=◌ attempt observe release_status after_get as_release on_status pure
  ensure_release-found rel s seen = rw seen refl

  pub classify-owned :
      (rel : Release) (info : ReleaseInfo) (desired : Text)
      → rel.info ≡ some info
      → is_owned (some rel) ≡ true
      → classify p (some rel) false desired ≡ by_status p info.status rel desired
  unfolding classify by_release by_info
  classify-owned rel info desired has owned = ap (λ i. by_info p i rel desired) has ∙ rw owned refl

  pub classify-foreign :
      (rel : Release) (info : ReleaseInfo) (desired : Text)
      → rel.info ≡ some info
      → is_owned (some rel) ≡ false
      → classify p (some rel) false desired ≡ dec_refuse
  unfolding classify by_release by_info
  classify-foreign rel info desired has owned =
      ap (λ i. by_info p i rel desired) has ∙ rw owned refl

  by_status-settled :
      (rel : Release) (status : ReleaseStatus) (outcome : Outcome) (s : State c)
      → live_fingerprint p rel ≡ fingerprint p (chart_version chart) values
      → settled status ≡ some outcome
      → act_on c client name chart values
          (some rel)
          (by_status p status rel (fingerprint p (chart_version chart) values))
          s
        ≡ (ok (record { outcome = outcome; release = some rel }), s)
  unfolding settled by_status act_on pure
  by_status-settled rel deployed outcome s same h = rw (same, text_eq_refl _) cc
  by_status-settled rel failed_release outcome s same h = rw (same, text_eq_refl _) cc
  by_status-settled rel pending_install outcome s same h = rw (same, text_eq_refl _) cc
  by_status-settled rel pending_upgrade outcome s same h = rw (same, text_eq_refl _) cc
  by_status-settled rel pending_rollback outcome s same h = rw (same, text_eq_refl _) cc
  by_status-settled rel uninstalling outcome s same h = cc
  by_status-settled rel unknown outcome s same h = cc
  by_status-settled rel uninstalled outcome s same h = cc
  by_status-settled rel superseded outcome s same h = cc

  settled-LeavesAlone :
      (rel : Release) (info : ReleaseInfo) (outcome : Outcome) (s : State c)
      → (c.helm.get_release client.namespace name s.world).0 ≡ ok (v1_release rel)
      → rel.info ≡ some info
      → is_owned (some rel) ≡ true
      → live_fingerprint p rel ≡ fingerprint p (chart_version chart) values
      → settled info.status ≡ some outcome
      → LeavesAlone rel outcome s
  settled-LeavesAlone rel info outcome s seen has owned same h =
      ensure_release-found rel s seen
      ∙ rw (classify-owned rel info (fingerprint p (chart_version chart) values) has owned) (
          by_status-settled rel info.status outcome
            (record s { world = (c.helm.get_release client.namespace name s.world).1 }) same h)

-- A converge of a release that the operator owns and whose chart version and values are the
-- desired ones calls nothing: it reports a deployed release as unchanged, a failed or a pending one
-- as held, and one that is being uninstalled as waited for.
pub ensure_release-settled :
    (p : Packages) (c : Cluster) (client : HelmClient) (name : String) (chart : Option Chart)
    (values : Option Fields) (rel : Release) (info : ReleaseInfo) (outcome : Outcome) (s : State c)
    → (c.helm.get_release client.namespace name s.world).0 ≡ ok (v1_release rel)
    → rel.info ≡ some info
    → is_owned (some rel) ≡ true
    → live_fingerprint p rel ≡ fingerprint p (chart_version chart) values
    → settled info.status ≡ some outcome
    → LeavesAlone p c client name chart values rel outcome s
ensure_release-settled = settled-LeavesAlone

-- Once a release is deployed with the operator's labels, the chart and the values of a request,
-- the same request calls nothing and reports it unchanged. Helm may give back a nil map for values
-- that were empty, and the reverse.
pub ensure_release-idempotent :
    (p : Packages) (c : Cluster) (client : HelmClient) (name : String) (chart : Option Chart)
    (values : Option Fields) (rel : Release) (info : ReleaseInfo) (s : State c)
    → (c.helm.get_release client.namespace name s.world).0 ≡ ok (v1_release rel)
    → rel.info ≡ some info
    → info.status ≡ deployed
    → rel.labels ≡ owner_labels
    → rel.chart ≡ chart
    → normal_values rel.config ≡ normal_values values
    → LeavesAlone p c client name chart values rel unchanged s
unfolding is_owned live_fingerprint fingerprint settled
ensure_release-idempotent p c client name chart values rel info s seen has status labels same
      config =
    settled-LeavesAlone p c client name chart values rel info unchanged s seen has (rw labels refl)
      (rw (same, config) refl) (rw status refl)
