-- ===== src/Session/Teardown/Laws.antt =====
-- What tearing down a grant writes.
use agentgateway_educates_op.Base.{
  String, Bool, ◌≡◌, refl, true, false, ◌||◌, ok, err, str_eq, if◌then◌else◌, Bool-cases, inl, inr,
  All, arith, eq_iff,
}
use agentgateway_educates_op.Base.Int.{ℤ}
use agentgateway_educates_op.Api.Types.{AgentGatewaySession, AgentGatewayPlatform}
use agentgateway_educates_op.Api.Session.{resource_name, session_finalizer, singleton_name}
use agentgateway_educates_op.Kube.{Packages, Cluster, Answer, Namespace}
use agentgateway_educates_op.Kube.Keeps.{
  Keeps, keeps_rules, Keeps-pure, Keeps-write, Keeps-bind, Keeps-bind_seen, Keeps-attempt,
  Keeps-observe, Keeps-if,
}
use agentgateway_educates_op.Kube.Lawful.{IsLawful}
use agentgateway_educates_op.Kube.Monad.{
  Action, State, Event, session_update, config_map_delete, get_session, get_platform, get_namespace,
  update_session, delete_config_map, clock, ◌>>=◌, attempt, pure, fail, is_not_found, is_no_match,
}
use agentgateway_educates_op.Session.Secrets.{is_set}
use agentgateway_educates_op.Session.Teardown.{
  reconcile_delete, remove_from, after_removal, remove_registration, after_delete,
  release_session_finalizer, release_live, after_release, released, gateway_namespace_for_teardown,
  with_teardown_platform, with_gateway_namespace, teardown_namespace,
}

-- The namespace of the registrations, as a platform of the cluster says it.
abbrev pub IsGatewayNamespace : Cluster → String → Type 0
IsGatewayNamespace c ns =
    (platform : AgentGatewayPlatform) × (w : c.World) × ((c.get_platform singleton_name w).0
      ≡ ok platform)
    × (ns ≡ teardown_namespace platform)

-- The grant as the cluster has it, but for its finalizers, of which one is taken off.
abbrev pub IsReleased : Packages → Cluster → AgentGatewaySession → AgentGatewaySession → Type 0
IsReleased p c s x =
    (live : AgentGatewaySession) × (w : c.World) × ((c.get_session s.metadata.namespace
        s.metadata.name w).0
      ≡ ok live)
    × (x ≡ record live {
      metadata = record live.metadata {
        finalizers = p.remove_finalizer live.metadata.finalizers session_finalizer;
      };
    })

-- The deletion of the grant's own registration, or the update that takes its finalizer off.
abbrev pub TearsDown : Packages → Cluster → AgentGatewaySession → Event → Type 0
TearsDown p c s e = elim e.call [
  | config_map_delete ns name ↦ IsGatewayNamespace c ns × (name ≡ resource_name s)
  | session_update x ↦
      IsReleased p c s x × (p.contains_finalizer x.metadata.finalizers session_finalizer ≡ false)
  | _ ↦ ⊥
]

module _ (c : Cluster) where
  -- A name that is not empty comes from the other branch.
  otherwise :
      (b : Bool) (m : Action (State c) String) (ns : String) (st : State c)
      → ((if b then pure "" else m) st).0 ≡ ok ns
      → str_eq ns "" ≡ false
      → (m st).0 ≡ ok ns
  unfolding pure
  otherwise true m ns st e h = let same : "" ≡ ns = cc in ground (arith, eq_iff ns "")
  otherwise false m ns st e h = e

  namespace_seen :
      (r : Answer Namespace) (named ns : String) (st : State c)
      → (with_gateway_namespace c named r st).0 ≡ ok ns
      → str_eq ns "" ≡ false
      → ns ≡ named
  unfolding with_gateway_namespace pure fail
  namespace_seen (ok live) named ns st e h =
      let named_so = otherwise (is_set live.deletion_timestamp) (pure named) ns st e h in cc
  namespace_seen (err x) named ns st e h =
      let failed = otherwise (is_not_found x) (fail x) ns st e h in cc

  platform_seen :
      (r : Answer AgentGatewayPlatform) (ns : String) (st : State c)
      → (with_teardown_platform c r st).0 ≡ ok ns
      → str_eq ns "" ≡ false
      → (platform : AgentGatewayPlatform) × (r ≡ ok platform) × (ns ≡ teardown_namespace platform)
  unfolding with_teardown_platform fail ◌>>=◌ get_namespace attempt
  platform_seen (ok platform) ns st e h =
      let named = otherwise (str_eq (teardown_namespace platform) "") _ ns st e h in
      (platform, refl, namespace_seen _ (teardown_namespace platform) ns _ named h)
  platform_seen (err x) ns st e h =
      let failed = otherwise (is_not_found x || is_no_match x) (fail x) ns st e h in cc

  pub lookup_seen :
      (ns : String) (st : State c)
      → (gateway_namespace_for_teardown c st).0 ≡ ok ns
      → str_eq ns "" ≡ false
      → IsGatewayNamespace c ns
  unfolding gateway_namespace_for_teardown ◌>>=◌ get_platform attempt
  lookup_seen ns st e h =
      let (platform, got, named) = platform_seen _ ns _ e h in (platform, st.world, got, named)

module _ (p : Packages) (c : Cluster) (s : AgentGatewaySession) (law : IsLawful p) where
  abbrev Tears : {A : Type 0} → Action (State c) A → Type 0
  Tears m = Keeps c (All (TearsDown p c s)) m

  delete-TearsDown :
      (ns : String) → IsGatewayNamespace c ns → Tears (delete_config_map c ns (resource_name s))
  unfolding delete_config_map
  delete-TearsDown ns h = Keeps-write (TearsDown p c s) _ _ (λ b. (h, refl))

  update-TearsDown :
      (live : AgentGatewaySession) (w : c.World)
      → (c.get_session s.metadata.namespace s.metadata.name w).0 ≡ ok live
      → Tears (update_session c (released p c live))
  unfolding update_session
  update-TearsDown live w got =
      Keeps-write (TearsDown p c s) _ _ (λ b.
        ((live, w, got, refl), law.contains-remove live.metadata.finalizers session_finalizer))

  after_release-TearsDown : (r : Answer AgentGatewaySession) → Tears (after_release p c r)
  unfolding after_release
  after_release-TearsDown (ok x) = search keeps_rules
  after_release-TearsDown (err e) = search keeps_rules

  release_live-TearsDown :
      (r : Answer AgentGatewaySession) (w : c.World)
      → (c.get_session s.metadata.namespace s.metadata.name w).0 ≡ r
      → Tears (release_live p c r)
  unfolding release_live
  release_live-TearsDown (ok live) w got =
      Keeps-bind _ _ (Keeps-attempt _ (update-TearsDown live w got)) after_release-TearsDown
  release_live-TearsDown (err e) w got = search keeps_rules

  live_seen :
      (st : State c) (r : Answer AgentGatewaySession)
      → (attempt (get_session c s.metadata.namespace s.metadata.name) st).0 ≡ ok r
      → (c.get_session s.metadata.namespace s.metadata.name st.world).0 ≡ r
  unfolding get_session attempt
  live_seen st r e = cc

  release-TearsDown : Tears (release_session_finalizer p c s)
  unfolding release_session_finalizer get_session attempt
  release-TearsDown =
      Keeps-bind_seen _ _
        (Keeps-attempt _ (Keeps-observe (c.get_session s.metadata.namespace s.metadata.name)))
        (λ st r e. release_live-TearsDown r st.world (live_seen st r e))

  after_delete-TearsDown : (r : Answer (Unit {0})) → Tears (after_delete c r)
  unfolding after_delete
  after_delete-TearsDown (ok x) = search keeps_rules
  after_delete-TearsDown (err e) = search keeps_rules

  remove-TearsDown : (ns : String) → IsGatewayNamespace c ns → Tears (remove_registration c s ns)
  unfolding remove_registration
  remove-TearsDown ns h =
      Keeps-bind _ _ (Keeps-attempt _ (delete-TearsDown ns h)) after_delete-TearsDown

  after_removal-TearsDown :
      (timeout : ℤ) (r : Answer (Unit {0})) → Tears (after_removal p c timeout s r)
  unfolding after_removal clock
  after_removal-TearsDown timeout (ok x) = release-TearsDown
  after_removal-TearsDown timeout (err e) = search (keeps_rules, release-TearsDown)

  remove_from-TearsDown :
      (timeout : ℤ) (ns : String)
      → (str_eq ns "" ≡ false → IsGatewayNamespace c ns)
      → Tears (remove_from p c timeout s ns)
  unfolding remove_from
  remove_from-TearsDown timeout ns h = elim (Bool-cases (str_eq ns "")) [
    | inl none_left ↦ rw none_left release-TearsDown
    | inr named ↦ rw named (
        Keeps-bind _ _ (Keeps-attempt _ (remove-TearsDown ns (h named)))
          (after_removal-TearsDown timeout))
  ]

  with_namespace-TearsDown :
      (ns : String) (r : Answer Namespace) → Tears (with_gateway_namespace c ns r)
  unfolding with_gateway_namespace
  with_namespace-TearsDown ns (ok x) = search keeps_rules
  with_namespace-TearsDown ns (err e) = search keeps_rules

  with_platform-TearsDown : (r : Answer AgentGatewayPlatform) → Tears (with_teardown_platform c r)
  unfolding with_teardown_platform get_namespace
  with_platform-TearsDown (ok x) = search (keeps_rules, with_namespace-TearsDown)
  with_platform-TearsDown (err e) = search keeps_rules

  lookup-TearsDown : Tears (gateway_namespace_for_teardown c)
  unfolding gateway_namespace_for_teardown get_platform
  lookup-TearsDown = search (keeps_rules, with_platform-TearsDown)

  pub reconcile_delete-Keeps : (timeout : ℤ) → Tears (reconcile_delete p c timeout s)
  unfolding reconcile_delete
  reconcile_delete-Keeps timeout = Keeps-if _ _ _ (Keeps-pure 0) (
      Keeps-bind_seen _ _ lookup-TearsDown
        (λ st ns e. remove_from-TearsDown timeout ns (lookup_seen c ns st e)))

-- Whatever the cluster answers, the teardown of a grant deletes registrations of the grant's own
-- name only, in the namespace that a platform of the cluster names for them. It updates the grant
-- only as the cluster has it, with its finalizer taken off and all else as it is. It creates
-- nothing, and touches no Secret and no status.
pub reconcile_delete-TearsDown :
    (p : Packages) (c : Cluster) (s : AgentGatewaySession) (timeout : ℤ) (st : State c)
    → IsLawful p
    → All (TearsDown p c s) st.events
    → All (TearsDown p c s) (reconcile_delete p c timeout s st).1.events
reconcile_delete-TearsDown p c s timeout st law h =
    (reconcile_delete-Keeps p c s law timeout).at st h
