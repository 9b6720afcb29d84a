-- ===== src/Session/Reconcile/Converged.antt =====
-- The stretches of a pass over a grant whose Secret and registration are as they should be.
use agentgateway_educates_op.Base.{
  String, ◌≡◌, refl, Bool, true, false, ◌||◌, some, [], ◌∷◌, Text, ok, lookup, Bool-cases, inl, inr,
}
use agentgateway_educates_op.Api.Types.{AgentGatewaySession, ready}
use agentgateway_educates_op.Api.Session.{resource_name, budget_window}
use agentgateway_educates_op.Api.Budget.{ResolvedTokenBudget}
use agentgateway_educates_op.Api.Cost.{ResolvedCostBudget}
use agentgateway_educates_op.Kube.{Packages, Cluster, Secret, ConfigMap}
use agentgateway_educates_op.Kube.Lawful.{RetriesOnly}
use agentgateway_educates_op.Kube.Monad.{session_status_update, attempt, ◌>>=◌}
use agentgateway_educates_op.Session.Secrets.{owner_namespace}
use agentgateway_educates_op.Session.Status.{
  with_condition, condition_budget_within_limits, reason_budget_clamped, reason_ready,
  clamp_message, enforced_message,
}
use agentgateway_educates_op.Session.Resolve.{ResolvedCatalog}
use agentgateway_educates_op.Session.Register.{ensure_registration, desired_entry, expiry_for}
use agentgateway_educates_op.Session.Register.Laws.{ensure_registration-current}
use agentgateway_educates_op.Session.Reconcile.{
  register_key, after_registration, publish, secret_written, budget_condition, ready_session,
  token_budget_of, cost_budget_of, published,
}
use agentgateway_educates_op.Session.Reconcile.Reads.{secret_owner-read, status_written}

-- The grant once its key and its budget are settled.
abbrev pub registered :
    Packages → Cluster → AgentGatewaySession → ResolvedCatalog → AgentGatewaySession
registered p c s catalog =
    budget_condition p c (secret_written p c s) (token_budget_of s catalog)
      (cost_budget_of s catalog)

-- What a pass that got to its end writes over the live grant.
abbrev pub reported :
    Packages
    → Cluster
    → AgentGatewaySession
    → AgentGatewaySession
    → ResolvedCatalog
    → Secret
    → AgentGatewaySession
reported p c s live catalog secret = record live {
  status = (ready_session p c s catalog (owner_namespace secret.owner_references)).status;
}

pub registered-reports :
    (p : Packages) (c : Cluster) (s live : AgentGatewaySession) (catalog : ResolvedCatalog)
    (secret : Secret)
    → let x = reported p c (registered p c s catalog) live catalog secret in
      (x.status.phase ≡ ready)
      × (x.status.expires_at ≡ some (expiry_for p s))
      × (x.status.effective_token_budget ≡ (token_budget_of s catalog).value)
unfolding budget_condition secret_written with_condition ready_session published expiry_for
registered-reports p c s live catalog secret =
    elim (Bool-cases ((token_budget_of s catalog).clamped || (cost_budget_of s catalog).clamped)) [
      | inl h ↦ rw h (refl, refl, refl)
      | inr h ↦ rw h (refl, refl, refl)
    ]

module _ (p : Packages) (c : Cluster) (s live : AgentGatewaySession) (w : c.World)
    (next : AgentGatewaySession → c.World) (retries : RetriesOnly c) (catalog : ResolvedCatalog)
    (secret : Secret) (registration : ConfigMap) (key : Text)
    (got_secret : c.get_secret s.metadata.namespace (resource_name s) w ≡ (ok secret, w))
    (got_session : c.get_session s.metadata.namespace s.metadata.name w ≡ (ok live, w))
    (got_registration : c.get_config_map catalog.gateway_namespace (resource_name s) w
      ≡ (ok registration, w))
    (accepted : (x : AgentGatewaySession) → c.update_session_status x w ≡ (ok tt, next x)) where
  publish-reports : publish p c s catalog (record { world = w; events = [] }) ≡ (
    ok 0,
    record {
      world = next (reported p c s live catalog secret);
      events =
          record {
            call = session_status_update (reported p c s live catalog secret);
            succeeded = true;
          }
          ∷ [];
    },
  )
  unfolding publish ◌>>=◌ ready_session with_condition published
  publish-reports =
      rw
        (
          secret_owner-read p c s w secret got_secret,
          status_written c (ready_session p c s catalog (owner_namespace secret.owner_references)) w
              live (next (reported p c s live catalog secret)) retries got_session
              (accepted (reported p c s live catalog secret)),
        )
        refl

  module _ (budget : ResolvedTokenBudget) (cost : ResolvedCostBudget) where
    register-reports :
        (let e = desired_entry p s key (expiry_for p s) budget cost in
          p.json_unmarshal (p.json_marshal e) ≡ some e)
        → lookup s.metadata.name registration.contents
          ≡ some (p.json_marshal (desired_entry p s key (expiry_for p s) budget cost))
        → (attempt (
                ensure_registration p c s catalog.gateway_namespace key
                  (expiry_for p s)
                  budget
                  cost)
              >>= after_registration p c s catalog)
            (record { world = w; events = [] })
          ≡ (
            ok 0,
            record {
              world = next (reported p c s live catalog secret);
              events =
                  record {
                    call = session_status_update (reported p c s live catalog secret);
                    succeeded = true;
                  }
                  ∷ [];
            },
          )
    unfolding ◌>>=◌ after_registration
    register-reports readable holds =
        rw
          (ensure_registration-current p c s catalog.gateway_namespace key (expiry_for p s) budget
            cost (record { world = w; events = [] }) w registration readable got_registration holds)
          publish-reports

module _ (p : Packages) (c : Cluster) (s live : AgentGatewaySession) (w : c.World)
    (next : AgentGatewaySession → c.World) (retries : RetriesOnly c) (catalog : ResolvedCatalog)
    (secret : Secret) (registration : ConfigMap) (key : Text)
    (got_secret : c.get_secret s.metadata.namespace (resource_name s) w ≡ (ok secret, w))
    (got_session : c.get_session s.metadata.namespace s.metadata.name w ≡ (ok live, w))
    (got_registration : c.get_config_map catalog.gateway_namespace (resource_name s) w
      ≡ (ok registration, w))
    (readable : (let e =
        desired_entry p s key
          (expiry_for p s)
          (token_budget_of s catalog)
          (cost_budget_of s catalog) in
      p.json_unmarshal (p.json_marshal e) ≡ some e))
    (holds : lookup s.metadata.name registration.contents
      ≡ some (
          p.json_marshal (
            desired_entry p s key
              (expiry_for p s)
              (token_budget_of s catalog)
              (cost_budget_of s catalog))))
    (accepted : (x : AgentGatewaySession) → c.update_session_status x w ≡ (ok tt, next x)) where
  judged-reports :
      (b : Bool) (reason : String) (message : Text)
      → let s' =
          with_condition p (secret_written p c s) condition_budget_within_limits b reason message in
        (attempt (
              ensure_registration p c s' catalog.gateway_namespace key
                (expiry_for p s')
                (token_budget_of s catalog)
                (cost_budget_of s catalog))
            >>= after_registration p c s' catalog)
          (record { world = w; events = [] })
        ≡ (
          ok 0,
          record {
            world = next (reported p c s' live catalog secret);
            events =
                record {
                  call = session_status_update (reported p c s' live catalog secret);
                  succeeded = true;
                }
                ∷ [];
          },
        )
  unfolding secret_written with_condition resource_name desired_entry expiry_for budget_window
  judged-reports b reason message =
      register-reports p c
        (with_condition p (secret_written p c s) condition_budget_within_limits b reason message)
        live w next retries catalog secret registration key got_secret got_session got_registration
        accepted (token_budget_of s catalog) (cost_budget_of s catalog) readable holds

  pub register_key-reports : register_key p c s catalog key (record { world = w; events = [] }) ≡ (
    ok 0,
    record {
      world = next (reported p c (registered p c s catalog) live catalog secret);
      events =
          record {
            call =
                session_status_update (reported p c (registered p c s catalog) live catalog secret);
            succeeded = true;
          }
          ∷ [];
    },
  )
  unfolding register_key budget_condition
  register_key-reports =
      elim (Bool-cases
        ((token_budget_of s catalog).clamped || (cost_budget_of s catalog).clamped)) [
          | inl h ↦ rw h (
              judged-reports false reason_budget_clamped
                (clamp_message (token_budget_of s catalog) (cost_budget_of s catalog)))
          | inr h ↦ rw h (
              judged-reports true reason_ready
                (enforced_message (token_budget_of s catalog) (cost_budget_of s catalog)))
        ]
