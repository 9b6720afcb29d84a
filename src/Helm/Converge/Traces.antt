-- ===== src/Helm/Converge/Traces.antt =====
-- A converge keeps to its plan.
use agentgateway_educates_op.Base.{
  ◌≡◌, refl, ap, ◌∙◌, Bool, true, false, List, [], ◌++◌, Option, none, some, Text, String, ok, err,
  is_ok, Bool-cases, inl, inr, text_eq, if◌then◌else◌,
}
use mathlib.Core.List.{append-nil}
use agentgateway_educates_op.Kube.{Packages, Cluster, Answer}
use agentgateway_educates_op.Sdk.Json.{Fields}
use agentgateway_educates_op.Sdk.Releases.{
  Chart, Release, ReleaseInfo, ReleaseStatus, unknown, deployed, uninstalled, superseded,
  failed_release, uninstalling, pending_install, pending_upgrade, pending_rollback,
}
use agentgateway_educates_op.Kube.Monad.{Action, State, Call, pure, fail, attempt, ◌>>=◌, continue}
use agentgateway_educates_op.Kube.Traces.{calls, Ends}
use agentgateway_educates_op.Helm.{
  HelmClient, LastDeployed, is_owned, release_status, last_deployed_revision, nothing_deployed,
  is_release_not_found,
}
use agentgateway_educates_op.Helm.Converge.{
  Converged, Outcome, Decision, dec_install, dec_upgrade, dec_repair, dec_unchanged, dec_hold,
  dec_wait, dec_refuse, classify, by_status, act_on, repair, repair_method, is_pending, status_of,
  ensure_release, on_status, fingerprint, chart_version, installed, upgraded, held_failed,
  waiting_uninstall, refused_not_owned, by_info, by_release, live_fingerprint,
}
use agentgateway_educates_op.Helm.Converge.Plan.{
  view, view_status, plan, view_info, ReleaseView, broken, locked, serving, absent, leaving,
  foreign, last_seen, live_seen,
}
use agentgateway_educates_op.Helm.Converge.Calls.{
  planned, release_status-Makes, last_deployed_revision-Makes, stuck, installs, upgrades,
  repair-Traces,
}

module _ (p : Packages) (c : Cluster) (client : HelmClient) (name : String) (chart : Option Chart)
    (values : Option Fields) where
  abbrev repaired : Option Release → Answer LastDeployed → Action (State c) Converged
  repaired live r s =
      continue r
        (λ last.
          repair c client name chart values live last (repair_method (status_of live) last.found))
        s

  after_history-Ends :
      (live : Option Release) (pending : Bool) (before : List Call) (r : Answer LastDeployed)
      (s : State c)
      → is_pending (status_of live) ≡ pending
      → calls s.events ≡ before
      → Ends
          (is_ok (repaired live r s).0)
          before
          (planned c client name chart values
            (stuck c client name chart values pending)
            (last_seen r))
          (calls (repaired live r s).1.events)
  after_history-Ends live pending before (ok last) s h e =
      rw⁻¹ e ((repair-Traces c client name chart values (status_of live) live last pending h).at s)
  after_history-Ends live pending before (err x) s h e =
      let all =
        planned c client name chart values (stuck c client name chart values pending)
          nothing_deployed in
      (all, ap (λ l. l ++ all) e, λ k. cc)

  -- A release of a status that needs a repair.
  repair-Ends :
      (live : Option Release) (pending : Bool) (s : State c)
      → is_pending (status_of live) ≡ pending
      → Ends
          (is_ok (act_on c client name chart values live dec_repair s).0)
          (calls s.events)
          (planned c client name chart values
            (stuck c client name chart values pending)
            (last_seen (last_deployed_revision c client name s).0))
          (calls (act_on c client name chart values live dec_repair s).1.events)
  unfolding act_on ◌>>=◌
  repair-Ends live pending s h =
      after_history-Ends live pending (calls s.events) (last_deployed_revision c client name s).0
        (last_deployed_revision c client name s).1 h
        ((last_deployed_revision-Makes c client name chart values).at s ∙ append-nil _)

  abbrev desired : Text
  desired = fingerprint p (chart_version chart) values

  abbrev last_at : State c → LastDeployed
  last_at s = last_seen (last_deployed_revision c client name s).0

  -- Acting on a release as it is classified keeps to the plan for its view.
  abbrev KeepsPlan : Option Release → ReleaseView → Decision → Type 0
  KeepsPlan live v decision =
      (s : State c)
      → Ends (is_ok (act_on c client name chart values live decision s).0) (calls s.events)
          (planned c client name chart values v (last_at s))
          (calls (act_on c client name chart values live decision s).1.events)

  idle-KeepsPlan :
      (live : Option Release) (decision : Decision) (v : ReleaseView) (outcome : Outcome)
      → act_on c client name chart values live decision
        ≡ pure (record { outcome = outcome; release = live })
      → ((last : LastDeployed) → plan client name chart values v last ≡ [])
      → KeepsPlan live v decision
  unfolding pure
  idle-KeepsPlan live decision v outcome e none_planned s =
      rw (e, none_planned (last_at s)) ([], refl, λ h. refl)

  installs-KeepsPlan : (live : Option Release) → KeepsPlan live absent dec_install
  unfolding act_on plan
  installs-KeepsPlan live s = (installs c client name chart values installed).at s

  -- A release that is not serving, by whether its fingerprint is the desired one.
  stuck-KeepsPlan :
      (live : Option Release) (pending : Bool) (v : Bool → ReleaseView) (same : Bool)
      → is_pending (status_of live) ≡ pending
      → v false ≡ stuck c client name chart values pending
      → ((last : LastDeployed) → plan client name chart values (v true) last ≡ [])
      → KeepsPlan live (v same) (if same then dec_hold else dec_repair)
  unfolding act_on
  stuck-KeepsPlan live pending v true h e idle s =
      idle-KeepsPlan live dec_hold (v true) held_failed refl idle s
  stuck-KeepsPlan live pending v false h e idle s = rw e (repair-Ends live pending s h)

  serving-KeepsPlan :
      (live : Option Release) (same : Bool)
      → KeepsPlan live (serving same) (if same then dec_unchanged else dec_upgrade)
  unfolding act_on plan pure
  serving-KeepsPlan live true s = ([], refl, λ h. refl)
  serving-KeepsPlan live false s = (upgrades c client name chart values upgraded).at s

  by_status-KeepsPlan :
      (live : Release) (status : ReleaseStatus)
      → status_of (some live) ≡ status
      → KeepsPlan
          (some live)
          (view_status status (text_eq (live_fingerprint p live) desired))
          (by_status p status live desired)
  unfolding view_status by_status is_pending plan act_on
  by_status-KeepsPlan live deployed e = serving-KeepsPlan (some live) _
  by_status-KeepsPlan live failed_release e =
      stuck-KeepsPlan (some live) false broken _ (ap is_pending e) refl (λ last. refl)
  by_status-KeepsPlan live pending_install e =
      stuck-KeepsPlan (some live) true locked _ (ap is_pending e) refl (λ last. refl)
  by_status-KeepsPlan live pending_upgrade e =
      stuck-KeepsPlan (some live) true locked _ (ap is_pending e) refl (λ last. refl)
  by_status-KeepsPlan live pending_rollback e =
      stuck-KeepsPlan (some live) true locked _ (ap is_pending e) refl (λ last. refl)
  by_status-KeepsPlan live uninstalling e =
      idle-KeepsPlan (some live) dec_wait leaving waiting_uninstall refl (λ last. refl)
  by_status-KeepsPlan live unknown e = installs-KeepsPlan (some live)
  by_status-KeepsPlan live uninstalled e = installs-KeepsPlan (some live)
  by_status-KeepsPlan live superseded e = installs-KeepsPlan (some live)

  by_info-KeepsPlan :
      (live : Release) (info : Option ReleaseInfo)
      → live.info ≡ info
      → KeepsPlan (some live) (view_info p desired info live) (by_info p info live desired)
  unfolding view_info by_info status_of plan act_on
  by_info-KeepsPlan live none e = installs-KeepsPlan (some live)
  by_info-KeepsPlan live (some info) e = elim (Bool-cases (is_owned (some live))) [
    | inl h ↦ rw h (by_status-KeepsPlan live info.status (rw e refl))
    | inr h ↦
        rw h (idle-KeepsPlan (some live) dec_refuse foreign refused_not_owned refl (λ last. refl))
  ]

  classify-KeepsPlan :
      (live : Option Release) → KeepsPlan live (view p desired live) (classify p live false desired)
  unfolding view classify by_release
  classify-KeepsPlan none = installs-KeepsPlan none
  classify-KeepsPlan (some live) = by_info-KeepsPlan live live.info refl

  on_status-Ends :
      (r : Answer (Option Release)) (s : State c)
      → Ends
          (is_ok (on_status p c client name chart values r s).0)
          (calls s.events)
          (planned c client name chart values (view p desired (live_seen r)) (last_at s))
          (calls (on_status p c client name chart values r s).1.events)
  unfolding on_status view classify fail
  on_status-Ends (ok live) s = classify-KeepsPlan live s
  on_status-Ends (err e) s = elim (Bool-cases (is_release_not_found e)) [
    | inl h ↦ rw h (installs-KeepsPlan none s)
    | inr h ↦ rw h (_, refl, λ k. cc)
  ]

-- A converge of a release makes the calls of the plan for what it has read, in the order of the
-- plan, and nothing else. It may stop early, and where it returns without an error it has made
-- them all. This holds whatever the cluster answers, and the plan depends on the view of the
-- release and on its newest usable revision only.
pub ensure_release-Ends :
    (p : Packages) (c : Cluster) (client : HelmClient) (name : String) (chart : Option Chart)
    (values : Option Fields) (s : State c)
    → let seen = release_status c client name s in
      Ends
        (is_ok (ensure_release p c client name chart values s).0)
        (calls s.events)
        (planned c client name chart values
          (view p (fingerprint p (chart_version chart) values) (live_seen seen.0))
          (last_seen (last_deployed_revision c client name seen.1).0))
        (calls (ensure_release p c client name chart values s).1.events)
unfolding ensure_release ◌>>=◌ attempt
ensure_release-Ends p c client name chart values s =
    let r = release_status c client name s in
    rw⁻¹ ((release_status-Makes c client name chart values).at s ∙ append-nil (calls s.events))
      (on_status-Ends p c client name chart values r.0 r.1)
