-- ===== src/Tests/Session.antt =====
-- The passes over a grant at concrete inputs.
use agentgateway_educates_op.Base.{◌≡◌, refl, true, false, ◌∷◌, [], some, ok, All, lookup}
use agentgateway_educates_op.Base.Int.{pos, ◌+ℤ◌}
use agentgateway_educates_op.Api.Types.{AgentGatewaySession}
use agentgateway_educates_op.Api.Session.{resource_name, budget_window}
use agentgateway_educates_op.Api.Budget.{effective_default_token_budget}
use agentgateway_educates_op.Registration.{metadata_key_token_budget, build_registration}
use agentgateway_educates_op.Key.{hash}
use agentgateway_educates_op.Base.{codes}
use agentgateway_educates_op.Format.{format_int, format_nat}
use agentgateway_educates_op.Api.Budget.{resolve_token_budget}
use agentgateway_educates_op.Api.Cost.{
  resolve_cost_budget, parse_dollars_to_micro_dollars, trim_space, parse_digits, to_grain,
}
use agentgateway_educates_op.Session.Reconcile.{
  reconcile, reconcile_session, ready_session, token_budget_of, cost_budget_of,
}
use agentgateway_educates_op.Session.Reconcile.Order.{guarded, reconcile_session-guarded}
use agentgateway_educates_op.Session.Reconcile.Placement.{reconcile-misplaced}
use agentgateway_educates_op.Session.Status.Writes.{OnlyStatus}
use agentgateway_educates_op.Session.Register.{desired_entry, expiry_for, ensure_registration}
use agentgateway_educates_op.Session.Register.Laws.{
  desired_entry-enforced, enforced_tokens, ensure_registration-Publishes,
  ensure_registration-current, Publishes,
}
use agentgateway_educates_op.Session.Secrets.{ensure_secret}
use agentgateway_educates_op.Session.Secrets.Laws.{ensure_secret-OverLive, OverLive}
use agentgateway_educates_op.Tests.Memory.{
  packages, packages-IsLawful, memory_cluster, memory_cluster-RetriesOnly, Memory,
}
use agentgateway_educates_op.Tests.Fixtures.{
  grant, new_grant, catalog, resolved, key, secret, registration, entry, bare, converged, start,
  session_namespace,
}

reconcile_session-guarded_example :
    guarded packages false
      (reconcile_session packages memory_cluster (pos 0) new_grant (start bare)).1.events
    ≡ true
reconcile_session-guarded_example =
    reconcile_session-guarded packages memory_cluster (pos 0) new_grant bare packages-IsLawful
      memory_cluster-RetriesOnly

-- A grant in the namespace of the session itself.
abbrev misplaced_grant : AgentGatewaySession
misplaced_grant = record grant { metadata = record grant.metadata { namespace = "s1" } }

abbrev misplaced : Memory
misplaced = record bare { sessions = misplaced_grant ∷ [] }

reconcile-misplaced_example :
    All OnlyStatus (reconcile packages memory_cluster (pos 0) "s1" "s1" (start misplaced)).1.events
reconcile-misplaced_example =
    reconcile-misplaced packages memory_cluster (pos 0) "s1" "s1" (start misplaced) misplaced_grant
      session_namespace misplaced misplaced memory_cluster-RetriesOnly refl refl refl refl tt

desired_entry-enforced_example :
    let e =
      desired_entry packages grant key
        (pos 9)
        (token_budget_of grant resolved)
        (cost_budget_of grant resolved) in
    enforced_tokens
      (effective_default_token_budget catalog)
      (lookup metadata_key_token_budget e.metadata)
    ≡ (ready_session packages memory_cluster grant resolved "s1").status.effective_token_budget
desired_entry-enforced_example =
    desired_entry-enforced packages memory_cluster grant catalog "gw" "s1" key (pos 9)
      (cost_budget_of grant resolved)

ensure_registration-Publishes_example :
    All
      (Publishes grant "gw" (packages.json_marshal entry))
      (ensure_registration packages memory_cluster grant "gw" key
        (expiry_for packages grant)
        (token_budget_of grant resolved)
        (cost_budget_of grant resolved)
        (start bare)).1.events
ensure_registration-Publishes_example =
    ensure_registration-Publishes packages memory_cluster grant "gw" key (expiry_for packages grant)
      (token_budget_of grant resolved) (cost_budget_of grant resolved) (start bare) tt

pub entry_readable : packages.json_unmarshal (packages.json_marshal entry) ≡ some entry
unfolding desired_entry build_registration hash codes format_int format_nat resolve_token_budget
    resolve_cost_budget parse_dollars_to_micro_dollars trim_space parse_digits to_grain
    budget_window expiry_for ◌+ℤ◌
entry_readable = refl

ensure_registration-current_example :
    ensure_registration packages memory_cluster grant "gw" key
      (expiry_for packages grant)
      (token_budget_of grant resolved)
      (cost_budget_of grant resolved)
      (start converged)
    ≡ (ok tt, start converged)
unfolding resource_name
ensure_registration-current_example =
    ensure_registration-current packages memory_cluster grant "gw" key (expiry_for packages grant)
      (token_budget_of grant resolved) (cost_budget_of grant resolved) (start converged) converged
      registration entry_readable refl refl

ensure_secret-OverLive_example :
    All
      (OverLive secret)
      (ensure_secret packages memory_cluster grant (b'v' ∷ []) (start converged)).1.events
unfolding resource_name
ensure_secret-OverLive_example =
    ensure_secret-OverLive packages memory_cluster grant (b'v' ∷ []) (start converged) secret refl
      tt
