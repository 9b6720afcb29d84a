-- ===== src/Session/Reconcile/Order.antt =====
-- A grant gets its finalizer before anything that the finalizer cleans up is written.
use agentgateway_educates_op.Base.{
  ◌≡◌, refl, Bool, true, false, ◌&&◌, ◌||◌, Option, none, some, List, [], ◌∷◌, Text, ok, err, is_ok,
  arith, Bool-cases, inl, inr, All,
}
use agentgateway_educates_op.Base.Int.{ℤ}
use agentgateway_educates_op.Api.Types.{AgentGatewaySession}
use agentgateway_educates_op.Api.Session.{session_finalizer}
use agentgateway_educates_op.Kube.{Packages, Cluster, Answer}
use agentgateway_educates_op.Kube.Lawful.{IsLawful, RetriesOnly}
use agentgateway_educates_op.Kube.Keeps.{Keeps, keeps_rules}
use agentgateway_educates_op.Kube.Stable.{IsStable}
use agentgateway_educates_op.Kube.Monad.{
  Action, State, Event, Call, session_update, secret_create, secret_update, config_map_create,
  config_map_update, ◌>>=◌, continue, update_session, get_namespace,
}
use agentgateway_educates_op.Session.Secrets.{is_set}
use agentgateway_educates_op.Session.Resolve.{placement_valid, resolve_catalog}
use agentgateway_educates_op.Session.Resolve.Stable.{resolve_catalog-Keeps}
use agentgateway_educates_op.Session.Teardown.Laws.{TearsDown, reconcile_delete-TearsDown}
use agentgateway_educates_op.Session.Reconcile.{
  reconcile_session, reconcile_placed, ensure_finalizer, grant_key, observed, placement_accepted,
}
use agentgateway_educates_op.Session.Reconcile.Stable.{grant_key-Keeps}
use agentgateway_educates_op.Session.Reconcile.Placement.{reject-status}
use agentgateway_educates_op.Session.Status.{Requeue}
use agentgateway_educates_op.Session.Status.Writes.{OnlyStatus}

module _ (p : Packages) where
  -- Whether the grant has its finalizer once the call has been made.
  abbrev pub finalized_after : Bool → Event → Bool
  finalized_after finalized e = elim e.call [
    | session_update x ↦
        finalized || (e.succeeded && p.contains_finalizer x.metadata.finalizers session_finalizer)
    | _ ↦ finalized
  ]

  -- A write of a Secret or of a registration needs the finalizer.
  abbrev pub permitted : Bool → Event → Bool
  permitted finalized e = elim e.call [
    | secret_create x ↦ finalized
    | secret_update x ↦ finalized
    | config_map_create x ↦ finalized
    | config_map_update x ↦ finalized
    | _ ↦ true
  ]

  -- Each write of the record comes when the grant has its finalizer.
  unfoldable pub guarded : Bool → List Event → Bool
  guarded finalized [] = true
  guarded finalized (e ∷ l) = permitted finalized e && guarded (finalized_after finalized e) l

  finalized_by : Bool → List Event → Bool
  finalized_by finalized [] = finalized
  finalized_by finalized (e ∷ l) = finalized_by (finalized_after finalized e) l

  -- Nothing is written too early, and the finalizer is there now.
  abbrev Safe : Bool → List Event → Type 0
  Safe finalized l = (guarded finalized l ≡ true) × (finalized_by finalized l ≡ true)

  permitted-true : (e : Event) → permitted true e ≡ true
  permitted-true e = ground arith

  finalized-true : (e : Event) → finalized_after true e ≡ true
  finalized-true e = ground arith

  Safe-stable : (finalized : Bool) → IsStable (Safe finalized)
  unfolding guarded finalized_by
  Safe-stable finalized [] e (g, f) = (rw (f, permitted-true e) refl, rw f (finalized-true e))
  Safe-stable finalized (x ∷ l) e (g, f) =
      let after = Safe-stable (finalized_after finalized x) l e (ground arith, f) in
      (ground (arith, after.0), after.1)

  TearsDown-permitted :
      (c : Cluster) (s : AgentGatewaySession) (finalized ok_call : Bool) (call : Call)
      → TearsDown p c s (record { call = call; succeeded = ok_call })
      → permitted finalized (record { call = call; succeeded = ok_call }) ≡ true
  TearsDown-permitted c s finalized b call h = ground arith

  teardown-guarded :
      (c : Cluster) (s : AgentGatewaySession) (finalized : Bool) (l : List Event)
      → All (TearsDown p c s) l
      → guarded finalized l ≡ true
  unfolding guarded
  teardown-guarded c s finalized [] h = refl
  teardown-guarded c s finalized (e ∷ l) (first, rest) =
      rw (TearsDown-permitted c s finalized e.succeeded e.call first)
        (teardown-guarded c s (finalized_after finalized e) l rest)

  status-permitted :
      (finalized ok_call : Bool) (call : Call)
      → OnlyStatus (record { call = call; succeeded = ok_call })
      → permitted finalized (record { call = call; succeeded = ok_call }) ≡ true
  status-permitted finalized b call h = ground arith

  status-guarded :
      (finalized : Bool) (l : List Event) → All OnlyStatus l → guarded finalized l ≡ true
  unfolding guarded
  status-guarded finalized [] h = refl
  status-guarded finalized (e ∷ l) (first, rest) =
      rw (status-permitted finalized e.succeeded e.call first)
        (status-guarded (finalized_after finalized e) l rest)

module _ (p : Packages) (c : Cluster) (law : IsLawful p) (retries : RetriesOnly c) where
  abbrev with_finalizer : AgentGatewaySession → AgentGatewaySession
  with_finalizer s = record s {
    metadata = record s.metadata {
      finalizers = p.add_finalizer s.metadata.finalizers session_finalizer;
    };
  }

  abbrev from_catalog : AgentGatewaySession → Action (State c) Requeue
  from_catalog s = do
    catalog ← resolve_catalog p c (placement_accepted p c s)
    grant_key p c (placement_accepted p c s) catalog

  from_catalog-Safe :
      (finalized : Bool) (s : AgentGatewaySession) → Keeps c (Safe p finalized) (from_catalog s)
  from_catalog-Safe finalized s = search (
    keeps_rules,
    resolve_catalog-Keeps (Safe-stable p finalized) p,
    grant_key-Keeps (Safe-stable p finalized) retries p,
  )

  module _ (finalized : Bool) where
    after_finalizer :
        (s : AgentGatewaySession) (r : Answer AgentGatewaySession) (w : c.World)
        → p.contains_finalizer s.metadata.finalizers session_finalizer ≡ true
        → guarded p finalized
            (continue r from_catalog (record {
              world = w;
              events = record { call = session_update s; succeeded = is_ok r } ∷ [];
            })).1.events
          ≡ true
    unfolding guarded finalized_by
    after_finalizer s (ok s') w h = ((from_catalog-Safe finalized s').at _ (refl, ground arith)).0
    after_finalizer s (err e) w h = refl

  placed-guarded :
      (s : AgentGatewaySession) (placement : Option Text) (w : c.World)
      → guarded p
          (p.contains_finalizer s.metadata.finalizers session_finalizer)
          (reconcile_placed p c s placement (record { world = w; events = [] })).1.events
        ≡ true
  unfolding reconcile_placed ensure_finalizer ◌>>=◌ update_session guarded finalized_by
  placed-guarded s (some reason) w =
      status-guarded p _ _
        ((reject-status p c retries (observed s) reason).at (record { world = w; events = [] }) tt)
  placed-guarded s none w =
      elim (Bool-cases (p.contains_finalizer s.metadata.finalizers session_finalizer)) [
        | inl h ↦
            rw h
              (((from_catalog-Safe true s).at (record { world = w; events = [] }) (refl, refl)).0)
        | inr h ↦
            let s' = with_finalizer s in
            rw h (
              after_finalizer false s' (c.update_session s' w).0 (c.update_session s' w).1
                (law.contains-add s.metadata.finalizers session_finalizer))
      ]

-- In a pass over a grant, each write of a Secret or of a registration comes when the grant has its
-- finalizer: it had it when the pass began, or an update of the grant that added it has succeeded
-- earlier in the pass. This holds whatever the cluster answers.
pub reconcile_session-guarded :
    (p : Packages) (c : Cluster) (timeout : ℤ) (s : AgentGatewaySession) (w : c.World)
    → IsLawful p
    → RetriesOnly c
    → guarded p
        (p.contains_finalizer s.metadata.finalizers session_finalizer)
        (reconcile_session p c timeout s (record { world = w; events = [] })).1.events
      ≡ true
unfolding reconcile_session ◌>>=◌ placement_valid get_namespace
reconcile_session-guarded p c timeout s w law retries =
    elim (Bool-cases (is_set s.metadata.deletion_timestamp)) [
      | inl h ↦ rw h (
          teardown-guarded p c s _ _
            (reconcile_delete-TearsDown p c s timeout (record { world = w; events = [] }) law tt))
      | inr h ↦ rw h (placed-guarded p c law retries s _ _)
    ]
