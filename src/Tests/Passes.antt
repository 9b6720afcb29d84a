-- ===== src/Tests/Passes.antt =====
-- Deletion, expiry and the watches at concrete inputs, and a pass over a grant that is settled.
use agentgateway_educates_op.Base.{
  String, ◌≡◌, ◌↔◌, refl, true, false, ◌∷◌, [], ◌++◌, ok, err, All, lookup, text_eq, is_nil,
}
use agentgateway_educates_op.Base.Int.{pos, ◌≤ℤ◌, ◌+ℤ◌, ◌-ℤ◌}
use agentgateway_educates_op.Api.Types.{AgentGatewaySession}
use agentgateway_educates_op.Api.Session.{resource_name}
use agentgateway_educates_op.Kube.{Cluster, Error, other_failure, RegistrationEntry}
use agentgateway_educates_op.Kube.Traces
use agentgateway_educates_op.Kube.Monad.{
  State, ◌>>=◌, get_platform, get_namespace, session_update, config_map_delete,
}
use agentgateway_educates_op.Registration.{entry_equals, metadata_within}
use agentgateway_educates_op.Registration.Laws.{entry_equals_sound}
use agentgateway_educates_op.Session.Reconcile.{token_budget_of, cost_budget_of}
use agentgateway_educates_op.Session.Secrets.{ensure_secret, err_session_ending}
use agentgateway_educates_op.Session.Secrets.Keys.{ensure_secret-reuses, ensure_secret-ending}
use agentgateway_educates_op.Session.Register.{expiry_for, desired_config_map}
use agentgateway_educates_op.Session.Teardown.{
  reconcile_delete, gateway_namespace_for_teardown, finalizer_timeout, teardown_namespace,
}
use agentgateway_educates_op.Session.Teardown.Laws.{reconcile_delete-TearsDown, TearsDown}
use agentgateway_educates_op.Session.Teardown.Window.{reconcile_delete-window, is_removed, unheld}
use agentgateway_educates_op.Session.Expiry.{expired, sweep}
use agentgateway_educates_op.Session.Expiry.Laws.{
  expired_iff, sweep-revokes, expired-published_iff, calls, revocations, Lapsed,
}
use agentgateway_educates_op.Tests.Memory.{packages, packages-IsLawful, memory_cluster, Memory}
use agentgateway_educates_op.Tests.Fixtures.{
  grant, deleted_grant, platform, resolved, key, secret, stale, entry, bare, converged, start,
  workshop_namespace, url,
}
use agentgateway_educates_op.Tests.Session.{entry_readable}

ensure_secret-reuses_example :
    (ensure_secret packages memory_cluster grant url (start converged)).0 ≡ ok (key, false)
unfolding resource_name
ensure_secret-reuses_example =
    ensure_secret-reuses packages memory_cluster grant url (start converged) secret converged refl
      refl (λ x. refl)

-- The session's namespace is gone.
abbrev ended : Memory
ended = record bare { namespaces = workshop_namespace ∷ [] }

ensure_secret-ending_example :
    ensure_secret packages memory_cluster grant url (start ended)
    ≡ (err err_session_ending, start ended)
unfolding resource_name
ensure_secret-ending_example =
    ensure_secret-ending packages memory_cluster grant url (start ended) ended ended _ _ refl refl
      refl (refl, refl)

reconcile_delete-TearsDown_example :
    All
      (TearsDown packages memory_cluster deleted_grant)
      (reconcile_delete packages memory_cluster (pos 0) deleted_grant (start converged)).1.events
reconcile_delete-TearsDown_example =
    reconcile_delete-TearsDown packages memory_cluster deleted_grant (pos 0) (start converged)
      packages-IsLawful tt

-- A cluster in which the grant stays, and where every deletion of a registration fails.
abbrev failure : Error
failure = record { kind = other_failure; message = [] }

abbrev holding_cluster : Cluster
holding_cluster = record memory_cluster {
  get_session = λ ns name w. (ok grant, w);
  delete_config_map = λ ns name w. (err failure, w);
}

abbrev held : State holding_cluster
held = record { world = converged; events = [] }

-- At 300, a grant deleted at 200 and a window of 100.
reconcile_delete-window_example :
    let done = reconcile_delete packages holding_cluster (pos 100) deleted_grant held in
    (done.0 ≡ ok 0)
    × (Traces.calls done.1.events
        ≡ config_map_delete "gw" "s1-agentgateway" ∷ (session_update (unheld packages grant) ∷ []))
unfolding resource_name gateway_namespace_for_teardown finalizer_timeout ◌>>=◌ get_platform
    teardown_namespace get_namespace ◌-ℤ◌ Traces.calls is_removed
reconcile_delete-window_example =
    reconcile_delete-window packages holding_cluster (pos 100) deleted_grant grant (λ w. refl)
      (λ w. refl) held held "gw" refl refl

abbrev swept : Memory
swept = record bare { config_maps = stale ∷ [] }

sweep-revokes_example :
    ((sweep packages memory_cluster (start swept)).0 ≡ ok tt)
    × (calls (sweep packages memory_cluster (start swept)).1.events
        ≡ [] ++ revocations packages (pos 300) (stale ∷ []))
unfolding teardown_namespace
sweep-revokes_example =
    sweep-revokes packages memory_cluster (start swept) platform (stale ∷ []) swept swept swept
      (pos 300) refl refl refl refl

expired_iff_example :
    (expired packages stale (pos 300) ≡ true)
    ↔ ((is_nil stale.contents ≡ false) × All (Lapsed packages (pos 300)) stale.contents)
expired_iff_example = expired_iff packages stale (pos 300)

expired-published_iff_example :
    (expired packages (desired_config_map grant "gw" (packages.json_marshal entry)) (pos 300)
      ≡ true)
    ↔ (expiry_for packages grant ≤ℤ pos 300)
unfolding expiry_for ◌+ℤ◌
expired-published_iff_example =
    expired-published_iff packages grant "gw" key (expiry_for packages grant) (pos 300)
      (token_budget_of grant resolved) (cost_budget_of grant resolved) entry_readable refl

abbrev one_order : RegistrationEntry
one_order = record { key_hash = key; metadata = ("a", url) ∷ ("b", key) ∷ [] }

abbrev other_order : RegistrationEntry
other_order = record { key_hash = key; metadata = ("b", key) ∷ ("a", url) ∷ [] }

entry_equals_sound_example :
    (one_order.key_hash ≡ other_order.key_hash)
    × ((k : String) → lookup k one_order.metadata ≡ lookup k other_order.metadata)
unfolding entry_equals metadata_within text_eq
entry_equals_sound_example = entry_equals_sound one_order other_order (refl, (refl, tt)) refl

-- The memory with the grant written over.
abbrev reported_memory : AgentGatewaySession → Memory
reported_memory x = (memory_cluster.update_session_status x converged).1
