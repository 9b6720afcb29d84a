-- ===== src/Platform/Teardown/Passes.antt =====
-- A pass over a deleted platform keeps to the order.
use agentgateway_educates_op.Base.{
  String, ◌≡◌, refl, sym, Bool, true, false, not, none, List, [], ◌∷◌, ◌++◌, Text, ok, err, is_ok,
}
use mathlib.Core.List.{append-nil}
use agentgateway_educates_op.Api.Types.{AgentGatewayPlatform, external, bundled, Provider}
use agentgateway_educates_op.Api.Session.{gateway_namespace}
use agentgateway_educates_op.Kube.{Packages, Cluster, Answer}
use agentgateway_educates_op.Kube.Lawful.{IsLawful, RetriesOnly, ListsLabelled}
use agentgateway_educates_op.Kube.Keeps.{
  Keeps, Keeps-retry, Keeps-pure, Keeps-bind, Keeps-attempt, Keeps-observe,
}
use agentgateway_educates_op.Kube.Traces.{calls, Makes-perform, Makes-wrap}
use agentgateway_educates_op.Kube.Scripts.{
  Item, once, any_of, halts, Continues, Scripted, AddsOnly, AddsOnly-perform, Scripted-bind,
  Makes-Scripted, Keeps-Scripted,
}
use agentgateway_educates_op.Kube.Monad.{
  State, Call, platform_update, platform_status_update, lift, attempt, wrap, ◌>>=◌, get_platform,
  update_platform, update_platform_status, delete_namespace,
}
use agentgateway_educates_op.Names.{
  rate_limit_release_name, agentgateway_release_name, agentgateway_crds_release_name,
}
use agentgateway_educates_op.Helm.{HelmClient, uninstall}
use agentgateway_educates_op.Helm.Converge.Calls.{uninstall-Makes}
use agentgateway_educates_op.Platform.Status.{
  update_status_of, write_platform_status, platform_finalizer,
}
use agentgateway_educates_op.Platform.Teardown.{
  HelmClientFor, helm_client, uninstall_release_of, drain_all, release_finalizer, release_found,
  drain_by, uninstalling_status, reconcile_platform_delete,
}
use agentgateway_educates_op.Platform.Teardown.Order.{
  uninstalls, configuration_script, bundled_script, delete_if_present-Makes,
  drain_configuration-Scripted,
}

-- A client of a namespace acts in that namespace.
pub record IsScoped (helm_client_for : HelmClientFor) : Type 0 where
  pub scoped :
      (ns : String) (client : HelmClient) → helm_client_for ns ≡ ok client → client.namespace ≡ ns

unfoldable pub writes_status : Call → Bool
writes_status call = elim call [ platform_status_update _ ↦ true | _ ↦ false ]

-- An update of the platform without its finalizer.
unfoldable pub releases : Packages → Call → Bool
releases p call = elim call [
  | platform_update x ↦ not (p.contains_finalizer x.metadata.finalizers platform_finalizer)
  | _ ↦ false
]

-- What is removed for a provider.
unfoldable pub drain_script : Provider → String → List Item
drain_script external ns = configuration_script ns
drain_script bundled ns = configuration_script ns ++ bundled_script ns

unfoldable pub teardown_script : Packages → Provider → String → List Item
teardown_script p provider ns =
    any_of writes_status ∷ (drain_script provider ns ++ any_of (releases p) ∷ [])

module _ (helm_client_for : HelmClientFor) (c : Cluster) where
  with_client-Scripted :
      (ns name : String) (prefix wrapping : Text) (r : Answer HelmClient)
      → ((client : HelmClient) → r ≡ ok client → client.namespace ≡ ns)
      → Scripted c
          (once (uninstalls ns name) ∷ [])
          (wrap prefix (lift r) >>= λ client. wrap wrapping (uninstall c client name))
  unfolding wrap lift ◌>>=◌
  with_client-Scripted ns name prefix wrapping (ok client) h =
      rw⁻¹ (h client refl)
        (Makes-Scripted _ _ (Makes-wrap _ _ _ (uninstall-Makes c client name none none)))
  with_client-Scripted ns name prefix wrapping (err e) h = record {
    at = λ s. ([], sym (append-nil (calls s.events)), halts _);
  }

  uninstall_release_of-Scripted :
      (ns name : String)
      → IsScoped helm_client_for
      → Scripted c (once (uninstalls ns name) ∷ []) (uninstall_release_of helm_client_for c ns name)
  unfolding uninstall_release_of helm_client
  uninstall_release_of-Scripted ns name law =
      with_client-Scripted ns name _ _ (helm_client_for ns) (law.scoped ns)

  drain_all-Scripted :
      (ns : String)
      → IsScoped helm_client_for
      → ListsLabelled c
      → Scripted c (configuration_script ns ++ bundled_script ns) (drain_all helm_client_for c ns)
  unfolding drain_all delete_namespace
  drain_all-Scripted ns scoped lists =
      Scripted-bind _ _ _ _ (drain_configuration-Scripted c ns lists) (λ _.
        Scripted-bind (_ ∷ []) _ _ _
          (uninstall_release_of-Scripted ns rate_limit_release_name scoped)
          (λ _.
            Scripted-bind (_ ∷ []) _ _ _
              (uninstall_release_of-Scripted ns agentgateway_release_name scoped)
              (λ _.
                Scripted-bind (_ ∷ []) _ _ _
                  (uninstall_release_of-Scripted ns agentgateway_crds_release_name scoped)
                  (λ _. Makes-Scripted _ _ (delete_if_present-Makes c _ _ (Makes-perform _ _))))))

  drain_by-Scripted :
      (p : Packages) (provider : Provider) (ns : String)
      → IsScoped helm_client_for
      → ListsLabelled c
      → Scripted c (drain_script provider ns) (drain_by p helm_client_for c provider ns)
  unfolding drain_by drain_script
  drain_by-Scripted p external ns scoped lists = drain_configuration-Scripted c ns lists
  drain_by-Scripted p bundled ns scoped lists = drain_all-Scripted ns scoped lists

module _ (p : Packages) (c : Cluster) where
  update_status_of-Scripted :
      (platform : AgentGatewayPlatform)
      → RetriesOnly c
      → Scripted c (any_of writes_status ∷ []) (attempt (update_status_of c platform))
  unfolding update_status_of write_platform_status get_platform update_platform_status writes_status
  update_status_of-Scripted platform retries = Keeps-Scripted writes_status _ (λ before.
      Keeps-attempt _ (
        Keeps-retry retries _ (
          Keeps-bind _ _ (Keeps-observe _)
            (λ live. AddsOnly-perform writes_status before _ _ refl))))

  release_found-Keeps :
      (before : List Call) (r : Answer AgentGatewayPlatform)
      → IsLawful p
      → Keeps c (AddsOnly (releases p) before) (release_found p c r)
  unfolding release_found update_platform releases
  release_found-Keeps before (err e) law = Keeps-pure 0
  release_found-Keeps before (ok live) law =
      Keeps-bind _ _
        (AddsOnly-perform (releases p) before _ _
          (rw (law.contains-remove live.metadata.finalizers platform_finalizer) refl))
        (λ _. Keeps-pure 0)

  release_finalizer-Scripted :
      (platform : AgentGatewayPlatform)
      → IsLawful p
      → Scripted c (any_of (releases p) ∷ []) (release_finalizer p c platform)
  unfolding release_finalizer get_platform
  release_finalizer-Scripted platform law = Keeps-Scripted (releases p) _ (λ before.
      Keeps-bind _ _ (Keeps-attempt _ (Keeps-observe _)) (λ r. release_found-Keeps before r law))

-- A pass over a platform that has its finalizer follows the script of its teardown, whatever the
-- cluster answers: after some writes of the status it deletes the policy, the Gateway and the
-- parameters, and among them only objects that carry the operator's label; for a bundled provider
-- it then uninstalls the rate-limit, the control-plane and the CRD releases and deletes the
-- namespace. Only after all of these calls does it update the platform, without its finalizer. A
-- pass that fails may stop anywhere. The Helm clients act in the namespace they are asked for, and
-- a list with a label selector answers with objects that carry the label.
pub reconcile_platform_delete-Follows :
    (p : Packages) (helm_client_for : HelmClientFor) (c : Cluster) (platform : AgentGatewayPlatform)
    (s : State c)
    → IsLawful p
    → RetriesOnly c
    → IsScoped helm_client_for
    → ListsLabelled c
    → p.contains_finalizer platform.metadata.finalizers platform_finalizer ≡ true
    → Continues
        (is_ok (reconcile_platform_delete p helm_client_for c platform s).0)
        (teardown_script p platform.provider (gateway_namespace platform))
        (calls s.events)
        (calls (reconcile_platform_delete p helm_client_for c platform s).1.events)
unfolding reconcile_platform_delete teardown_script
reconcile_platform_delete-Follows p helm_client_for c platform s law retries scoped lists h = rw h (
    (Scripted-bind (_ ∷ []) _ _ _
        (update_status_of-Scripted p c (uninstalling_status p helm_client_for c platform) retries)
        (λ _.
          Scripted-bind _ _ _ _
            (drain_by-Scripted helm_client_for c p platform.provider (gateway_namespace platform)
              scoped lists)
            (λ _.
              release_finalizer-Scripted p c (uninstalling_status p helm_client_for c platform)
                law))).at
      s)
