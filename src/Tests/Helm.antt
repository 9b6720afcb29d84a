-- ===== src/Tests/Helm.antt =====
-- The convergence of a release at concrete inputs.
use agentgateway_educates_op.Base.{
  ◌≡◌, refl, true, false, ◌∷◌, [], some, none, Option, List, is_ok, All, ◌⊎◌,
}
use agentgateway_educates_op.Base.Int.{ℤ, pos}
use agentgateway_educates_op.Sdk.Json.{no_fields}
use agentgateway_educates_op.Sdk.Releases.{
  Release, Releaser, Chart, ReleaseStatus, v1_release, deployed, superseded, failed_release,
}
use agentgateway_educates_op.Kube.{Answer}
use agentgateway_educates_op.Kube.Monad.{State}
use agentgateway_educates_op.Kube.Traces.{Ends, calls}
use agentgateway_educates_op.Helm.{
  HelmClient, is_owned, newer, is_usable, owner_labels, LastDeployed, last_deployed,
  nothing_deployed, release_status, last_deployed_revision,
}
use agentgateway_educates_op.Helm.Revisions.{IsBelow, Occurs, last_deployed-greatest}
use agentgateway_educates_op.Helm.Converge.{
  Converged, unchanged, held_failed, live_fingerprint, normal_values, ensure_release, fingerprint,
  chart_version,
}
use agentgateway_educates_op.Helm.Converge.Plan.{view, live_seen, last_seen}
use agentgateway_educates_op.Helm.Converge.Calls.{planned}
use agentgateway_educates_op.Helm.Converge.Traces.{ensure_release-Ends}
use agentgateway_educates_op.Helm.Converge.Settled.{
  LeavesAlone, settled, ensure_release-settled, ensure_release-idempotent,
}
use agentgateway_educates_op.Tests.Memory.{packages, Memory, memory_cluster}
use agentgateway_educates_op.Tests.Fixtures.{bare, start}

abbrev client : HelmClient
client = record { namespace = "gw"; skip_crds = false }

abbrev chart : Option Chart
chart = some (record { version = some "1.5.0"; archive = [] })

-- A release of the chart, with no values.
abbrev release_at : ReleaseStatus → ℤ → Release
release_at status revision = record {
  name = "agentgateway";
  version = revision;
  info = some (record { status = status; description = [] });
  chart = chart;
  config = none;
  labels = owner_labels;
}

abbrev foreign_release : Release
foreign_release = record (release_at failed_release (pos 1)) { labels = [] }

abbrev holding : Release → Memory
holding r = record bare { releases = r ∷ [] }

abbrev old_chart : Option Chart
old_chart = some (record { version = some "1.4.0"; archive = [] })

-- A failed upgrade from an older chart.
abbrev failed_upgrade : Memory
failed_upgrade = record bare {
  releases =
      record (release_at failed_release (pos 2)) { chart = old_chart }
      ∷ (release_at superseded (pos 1) ∷ []);
}

ensure_release-Ends_example :
    Ends
      (is_ok
        (ensure_release packages memory_cluster client "agentgateway" chart
          (some no_fields)
          (start failed_upgrade)).0)
      []
      (planned memory_cluster client "agentgateway" chart
        (some no_fields)
        (view packages (fingerprint packages (chart_version chart) (some no_fields)) (
          live_seen (release_status memory_cluster client "agentgateway" (start failed_upgrade)).0))
        (last_seen
          (last_deployed_revision memory_cluster client "agentgateway"
            (release_status memory_cluster client "agentgateway" (start failed_upgrade)).1).0))
      (calls
        (ensure_release packages memory_cluster client "agentgateway" chart
          (some no_fields)
          (start failed_upgrade)).1.events)
unfolding calls
ensure_release-Ends_example =
    ensure_release-Ends packages memory_cluster client "agentgateway" chart (some no_fields)
      (start failed_upgrade)

ensure_release-settled_example :
    LeavesAlone packages memory_cluster client "agentgateway" chart
      (some no_fields)
      (release_at failed_release (pos 1))
      held_failed
      (start (holding (release_at failed_release (pos 1))))
unfolding is_owned live_fingerprint fingerprint settled
ensure_release-settled_example =
    ensure_release-settled packages memory_cluster client "agentgateway" chart (some no_fields)
      (release_at failed_release (pos 1)) _ held_failed
      (start (holding (release_at failed_release (pos 1)))) refl refl refl refl refl

abbrev seen : Answer (Option Release) × State memory_cluster
seen = release_status memory_cluster client "agentgateway" (start (holding foreign_release))

abbrev passed : Answer Converged × State memory_cluster
passed =
    ensure_release packages memory_cluster client "agentgateway" chart (some no_fields)
      (start (holding foreign_release))

ensure_release-idempotent_example :
    LeavesAlone packages memory_cluster client "agentgateway" chart
      (some no_fields)
      (release_at deployed (pos 1))
      unchanged
      (start (holding (release_at deployed (pos 1))))
unfolding normal_values
ensure_release-idempotent_example =
    ensure_release-idempotent packages memory_cluster client "agentgateway" chart (some no_fields)
      (release_at deployed (pos 1)) _ (start (holding (release_at deployed (pos 1)))) refl refl refl
      refl refl refl

abbrev history : List Releaser
history =
    v1_release (release_at failed_release (pos 3))
    ∷ (v1_release (release_at superseded (pos 1)) ∷ (v1_release (release_at deployed (pos 2)) ∷ []))

abbrev second_revision : LastDeployed
second_revision = record { revision = pos 2; found = true }

last_deployed-greatest_example :
    All (IsBelow (pos 2)) history
    × ((second_revision ≡ nothing_deployed) ⊎ (true ≡ true) × Occurs (pos 2) history)
unfolding last_deployed newer is_usable
last_deployed-greatest_example = last_deployed-greatest history second_revision refl
