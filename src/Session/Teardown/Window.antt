-- ===== src/Session/Teardown/Window.antt =====
-- The bounded window in which a failing cleanup holds a deleted grant.
use agentgateway_educates_op.Base.{
  String, Bool, ◌≡◌, refl, true, not, ◌||◌, [], ◌∷◌, ◌++◌, List, ok, err, is_ok, str_eq, Bool-cases,
  inl, inr, if◌then◌else◌, ap, ◌∙◌, sym,
}
use mathlib.Core.List.{append_assoc, append-nil}
use agentgateway_educates_op.Base.Int.{ℤ, ltb_ℤ, ◌-ℤ◌}
use agentgateway_educates_op.Api.Types.{AgentGatewaySession}
use agentgateway_educates_op.Api.Session.{resource_name, session_finalizer}
use agentgateway_educates_op.Kube.{Packages, Cluster, Answer}
use agentgateway_educates_op.Kube.Traces.{calls, Makes-perform}
use agentgateway_educates_op.Kube.Monad.{
  State, Call, session_update, config_map_delete, ◌>>=◌, attempt, observe, perform, pure, fail,
  get_session, update_session, delete_config_map, clock, is_not_found, is_no_match,
}
use agentgateway_educates_op.Session.Status.{Requeue, requeue_short}
use agentgateway_educates_op.Session.Teardown.{
  reconcile_delete, remove_from, after_removal, remove_registration, after_delete,
  release_session_finalizer, release_live, after_release, gateway_namespace_for_teardown,
  finalizer_timeout, deleted_at,
}

-- The registration is deleted, or was gone.
abbrev pub is_removed : Answer (Unit {0}) → Bool
is_removed (ok _) = true
is_removed (err e) = is_not_found e || is_no_match e

-- The grant without its finalizer, and all else as it is.
abbrev pub unheld : Packages → AgentGatewaySession → AgentGatewaySession
unheld p live = record live {
  metadata = record live.metadata {
    finalizers = p.remove_finalizer live.metadata.finalizers session_finalizer;
  };
}

module _ (p : Packages) (c : Cluster) (timeout : ℤ) (s live : AgentGatewaySession)
    (there : (w : c.World) → (c.get_session s.metadata.namespace s.metadata.name w).0 ≡ ok live)
    (accepted : (w : c.World) → is_ok (c.update_session (unheld p live) w).0 ≡ true) where
  -- The timeout is reached at the world's clock.
  abbrev pub is_late : c.World → Bool
  is_late w = not (ltb_ℤ ((c.now w).0 -ℤ deleted_at p c s) (finalizer_timeout timeout))

  -- What a pass ends with, by whether the grant may go.
  abbrev pub requeue_for : Bool → Requeue
  requeue_for goes = if goes then 0 else requeue_short

  abbrev pub release_for : Bool → List Call
  release_for goes = if goes then session_update (unheld p live) ∷ [] else []

  after_release-ok :
      (r : Answer AgentGatewaySession) (st : State c)
      → is_ok r ≡ true
      → after_release p c r st ≡ (ok 0, st)
  unfolding after_release pure
  after_release-ok (ok x) st h = refl
  after_release-ok (err e) st h = cc

  releases :
      (st : State c)
      → ((release_session_finalizer p c s st).0 ≡ ok 0)
        × (calls (release_session_finalizer p c s st).1.events
            ≡ calls st.events ++ release_for true)
  unfolding release_session_finalizer get_session release_live update_session ◌>>=◌ attempt observe
      perform
  releases st = rw (there st.world) (
      rw (after_release-ok _ _ (accepted _)) (
        refl,
        (Makes-perform {c = c} (session_update (unheld p live))
              (c.update_session (unheld p live))).at
            _,
      ))

  removes :
      (r : Answer (Unit {0})) (st : State c)
      → let done = after_removal p c timeout s (after_delete c r st).0 (after_delete c r st).1 in
        let goes = is_removed r || is_late st.world in
        (done.0 ≡ ok (requeue_for goes))
        × (calls done.1.events ≡ calls st.events ++ release_for goes)
  unfolding after_removal after_delete pure fail clock observe ◌>>=◌
  removes (ok _) st = releases st
  removes (err e) st = elim (Bool-cases (is_not_found e || is_no_match e)) [
    | inl gone ↦ rw gone (releases st)
    | inr failed ↦
        elim (Bool-cases
          (ltb_ℤ ((c.now st.world).0 -ℤ deleted_at p c s) (finalizer_timeout timeout))) [
            | inl early ↦ rw (failed, early) (refl, sym (append-nil _))
            | inr late ↦ rw (failed, late) (releases _)
          ]
  ]

  -- A pass over a deleted grant that has its finalizer, where the lookup of the registrations'
  -- namespace succeeds and the cluster has the grant and accepts its update. It deletes the
  -- registration, unless there is no namespace left. It takes the finalizer off, and nothing else,
  -- exactly where there is none, the registration is deleted or gone, or the timeout is reached
  -- whatever the deletion has answered. Otherwise it asks for a retry, and the grant is held.
  pub reconcile_delete-window :
      (st st' : State c) (ns : String)
      → p.contains_finalizer s.metadata.finalizers session_finalizer ≡ true
      → gateway_namespace_for_teardown c st ≡ (ok ns, st')
      → let (removal, after) = c.delete_config_map ns (resource_name s) st'.world in
        let goes = str_eq ns "" || (is_removed removal || is_late after) in
        let done = reconcile_delete p c timeout s st in
        (done.0 ≡ ok (requeue_for goes))
        × (calls done.1.events
            ≡ calls st'.events
              ++ ((if str_eq ns "" then [] else config_map_delete ns (resource_name s) ∷ [])
                  ++ release_for goes))
  unfolding reconcile_delete ◌>>=◌ remove_from remove_registration delete_config_map attempt perform
  reconcile_delete-window st st' ns held found = elim (Bool-cases (str_eq ns "")) [
    | inl gone ↦ rw (held, found, gone) (releases st')
    | inr named ↦
        let removal = c.delete_config_map ns (resource_name s) st'.world in
        let deleted : State c = (delete_config_map c ns (resource_name s) st').1 in
        let (result, made) = removes removal.0 deleted in
        rw (held, found, named)
          (
            result,
            made
                ∙ (ap (λ l. l ++ release_for (is_removed removal.0 || is_late removal.1))
                      ((Makes-perform {c = c} (config_map_delete ns (resource_name s))
                          (c.delete_config_map ns (resource_name s))).at
                        st')
                    ∙ append_assoc (calls st'.events) _ _),
          )
  ]
