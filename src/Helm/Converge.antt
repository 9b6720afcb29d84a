-- ===== src/Helm/Converge.antt =====
-- internal/helm/converge.go: a release brought to a chart and values, and never another's release.
pub mod Plan
pub mod Calls
pub mod Traces
pub mod Settled
pub mod Refused
use agentgateway_educates_op.Base.{
  String, Bool, true, false, ◌||◌, ◌&&◌, not, Option, none, some, ◌∷◌, ◌++◌, Text, codes, text_eq,
  ok, err, if◌then◌else◌,
}
use agentgateway_educates_op.Kube.{Packages, Cluster, Answer}
use agentgateway_educates_op.Sdk.Json.{Fields, no_fields}
use agentgateway_educates_op.Sdk.Releases.{
  Chart, Release, ReleaseInfo, ReleaseStatus, deployed, failed_release, pending_install,
  pending_upgrade, pending_rollback, uninstalling, unknown,
}
use agentgateway_educates_op.Kube.Monad.{Action, State, pure, fail, attempt, ◌>>=◌, ◌>>◌}
use agentgateway_educates_op.Helm.{
  HelmClient, LastDeployed, is_owned, is_release_not_found, release_status, install, upgrade,
  uninstall, rollback, last_deployed_revision,
}

-- The code's `Action`: what a converge did.
pub data Outcome : Type 0 where
  installed upgraded repaired_upgrade repaired_rollback repaired_reinstall : Outcome
  unchanged held_failed waiting_uninstall refused_not_owned : Outcome

-- The code's `Result`.
pub record Converged : Type 0 where
  pub outcome : Outcome
  pub release : Option Release

pub data Decision : Type 0 where
  dec_install dec_upgrade dec_repair dec_unchanged dec_hold dec_wait dec_refuse : Decision

chart_metadata_version : Option String → Text
chart_metadata_version none = codes ""
chart_metadata_version (some version) = codes version

unfoldable pub chart_version : Option Chart → Text
unfolding chart_metadata_version
chart_version none = codes ""
chart_version (some chart) = chart_metadata_version chart.version

-- An empty map for a nil one, so that both give one digest.
unfoldable pub normal_values : Option Fields → Option Fields
normal_values none = some no_fields
normal_values (some m) = some m

unfoldable pub is_pending : ReleaseStatus → Bool
is_pending pending_install = true
is_pending pending_upgrade = true
is_pending pending_rollback = true
is_pending _ = false

unfoldable pub repair_method : ReleaseStatus → Bool → Outcome
unfolding is_pending
repair_method status has_deployed =
    if is_pending status && has_deployed
    then repaired_rollback
    else if has_deployed
    then repaired_upgrade
    else repaired_reinstall

module _ (p : Packages) where
  unfoldable pub fingerprint : Text → Option Fields → Text
  unfolding normal_values
  fingerprint version values =
      version ++ (b':' ∷ p.sha256_hex (p.json_marshal_values (normal_values values)))

  unfoldable pub live_fingerprint : Release → Text
  live_fingerprint live = fingerprint (chart_version live.chart) live.config

  unfoldable pub by_status : ReleaseStatus → Release → Text → Decision
  by_status deployed live desired =
      if text_eq (live_fingerprint live) desired then dec_unchanged else dec_upgrade
  by_status failed_release live desired =
      if text_eq (live_fingerprint live) desired then dec_hold else dec_repair
  by_status pending_install live desired =
      if text_eq (live_fingerprint live) desired then dec_hold else dec_repair
  by_status pending_upgrade live desired =
      if text_eq (live_fingerprint live) desired then dec_hold else dec_repair
  by_status pending_rollback live desired =
      if text_eq (live_fingerprint live) desired then dec_hold else dec_repair
  by_status uninstalling live desired = dec_wait
  by_status _ live desired = dec_install

  pub by_info : Option ReleaseInfo → Release → Text → Decision
  unfolding by_status
  by_info none live desired = dec_install
  by_info (some info) live desired =
      if not (is_owned (some live)) then dec_refuse else by_status info.status live desired

  pub by_release : Option Release → Text → Decision
  unfolding by_info
  by_release none desired = dec_install
  by_release (some live) desired = by_info live.info live desired

  unfoldable pub classify : Option Release → Bool → Text → Decision
  unfolding by_release by_info
  classify live absent desired = if absent then dec_install else by_release live desired

-- `live.Info.Status`, where a repair knows that both pointers are set.
unfoldable pub status_of : Option Release → ReleaseStatus
status_of none = unknown
status_of (some rel) = elim rel.info [ none ↦ unknown | some info ↦ info.status ]

module _ (c : Cluster) where
  unfoldable pub repair :
      HelmClient
      → String
      → Option Chart
      → Option Fields
      → Option Release
      → LastDeployed
      → Outcome
      → Action (State c) Converged
  repair client name chart values live last repaired_rollback = do
    rollback c client name last.revision
    pure (record { outcome = repaired_rollback; release = live })
  repair client name chart values live last repaired_upgrade = do
    rel ← upgrade c client name chart values
    pure (record { outcome = repaired_upgrade; release = rel })
  repair client name chart values live last _ = do
    uninstall c client name
    rel ← install c client name chart values
    pure (record { outcome = repaired_reinstall; release = rel })

  unfoldable pub act_on :
      HelmClient
      → String
      → Option Chart
      → Option Fields
      → Option Release
      → Decision
      → Action (State c) Converged
  unfolding repair
  act_on client name chart values live dec_install = do
    rel ← install c client name chart values
    pure (record { outcome = installed; release = rel })
  act_on client name chart values live dec_upgrade = do
    rel ← upgrade c client name chart values
    pure (record { outcome = upgraded; release = rel })
  act_on client name chart values live dec_repair = do
    last ← last_deployed_revision c client name
    repair client name chart values live last (repair_method (status_of live) last.found)
  act_on client name chart values live dec_hold =
      pure (record { outcome = held_failed; release = live })
  act_on client name chart values live dec_wait =
      pure (record { outcome = waiting_uninstall; release = live })
  act_on client name chart values live dec_refuse =
      pure (record { outcome = refused_not_owned; release = live })
  act_on client name chart values live dec_unchanged =
      pure (record { outcome = unchanged; release = live })

module _ (p : Packages) (c : Cluster) where
  unfoldable pub on_status :
      HelmClient
      → String
      → Option Chart
      → Option Fields
      → Answer (Option Release)
      → Action (State c) Converged
  on_status client name chart values (ok live) =
      act_on c client name chart values live
        (classify p live false (fingerprint p (chart_version chart) values))
  on_status client name chart values (err e) =
      if is_release_not_found e
      then act_on c client name chart values none
          (classify p none true (fingerprint p (chart_version chart) values))
      else fail e

  unfoldable pub ensure_release :
      HelmClient → String → Option Chart → Option Fields → Action (State c) Converged
  ensure_release client name chart values = do
    answer ← attempt (release_status c client name)
    on_status client name chart values answer
