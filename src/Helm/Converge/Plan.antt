-- ===== src/Helm/Converge/Plan.antt =====
-- What a converge promises, over an abstract view of the release: which calls, in which order.
use agentgateway_educates_op.Base.{
  Bool, true, false, ◌∷◌, Option, none, some, List, [], Text, ok, err, String, text_eq,
  if◌then◌else◌,
}
use agentgateway_educates_op.Base.Int.{ℤ}
use agentgateway_educates_op.Kube.{Packages, Answer}
use agentgateway_educates_op.Sdk.Json.{Fields}
use agentgateway_educates_op.Sdk.Releases.{
  Chart, Release, ReleaseInfo, ReleaseStatus, HelmCall, deployed, failed_release, uninstalling,
  pending_install, pending_upgrade, pending_rollback, install_release, upgrade_release,
  rollback_release, uninstall_release,
}
use agentgateway_educates_op.Helm.{
  HelmClient, is_owned, owner_labels, hook_only_strategy, action_timeout, LastDeployed,
  nothing_deployed,
}
use agentgateway_educates_op.Helm.Converge.{live_fingerprint}

-- What a release looks like from outside. Each flag says whether the live fingerprint is the
-- desired one.
pub data ReleaseView : Type 0 where
  absent foreign leaving : ReleaseView
  serving broken locked : Bool → ReleaseView

unfoldable pub view_status : ReleaseStatus → Bool → ReleaseView
view_status deployed same = serving same
view_status failed_release same = broken same
view_status pending_install same = locked same
view_status pending_upgrade same = locked same
view_status pending_rollback same = locked same
view_status uninstalling same = leaving
view_status _ same = absent

module _ (p : Packages) (desired : Text) where
  unfoldable pub view_info : Option ReleaseInfo → Release → ReleaseView
  unfolding view_status
  view_info none live = absent
  view_info (some info) live =
      if is_owned (some live)
      then view_status info.status (text_eq (live_fingerprint p live) desired)
      else foreign

  unfoldable pub view : Option Release → ReleaseView
  unfolding view_info
  view none = absent
  view (some live) = view_info live.info live

module _ (client : HelmClient) (name : String) (chart : Option Chart) (values : Option Fields) where
  abbrev pub installation : HelmCall
  installation = install_release (record {
    release_name = name;
    labels = owner_labels;
    skip_crds = client.skip_crds;
    create_namespace = false;
    wait_strategy = hook_only_strategy;
    timeout = action_timeout;
    chart = chart;
    values = values;
  })

  abbrev pub upgrading : HelmCall
  upgrading = upgrade_release (record {
    release_name = name;
    labels = owner_labels;
    wait_strategy = hook_only_strategy;
    timeout = action_timeout;
    chart = chart;
    values = values;
  })

  abbrev pub rolling_back : ℤ → HelmCall
  rolling_back revision = rollback_release (record {
    release_name = name;
    version = revision;
    cleanup_on_fail = true;
    wait_strategy = hook_only_strategy;
    timeout = action_timeout;
  })

  abbrev pub removal : HelmCall
  removal = uninstall_release (record {
    release_name = name;
    ignore_not_found = true;
    wait_strategy = hook_only_strategy;
    timeout = action_timeout;
  })

  -- `last` is the newest usable revision, where there is one.
  unfoldable pub plan : ReleaseView → LastDeployed → List HelmCall
  plan absent last = installation ∷ []
  plan foreign last = []
  plan leaving last = []
  plan (serving true) last = []
  plan (serving false) last = upgrading ∷ []
  plan (broken true) last = []
  plan (broken false) last = elim last.found [
    | true ↦ upgrading ∷ []
    | false ↦ removal ∷ (installation ∷ [])
  ]
  plan (locked true) last = []
  plan (locked false) last = elim last.found [
    | true ↦ rolling_back last.revision ∷ []
    | false ↦ removal ∷ (installation ∷ [])
  ]

-- What the reads say. Where they fail nothing is called, and any plan is kept.
abbrev pub live_seen : Answer (Option Release) → Option Release
live_seen (ok live) = live
live_seen (err e) = none

abbrev pub last_seen : Answer LastDeployed → LastDeployed
last_seen (ok last) = last
last_seen (err e) = nothing_deployed
