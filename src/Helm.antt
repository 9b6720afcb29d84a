-- ===== src/Helm.antt =====
-- internal/helm/client.go: the operations on one namespace's releases.
pub mod Converge
pub mod Revisions
use agentgateway_educates_op.Base.{
  String, Bool, true, false, ◌||◌, ◌&&◌, Option, none, some, List, [], ◌∷◌, Text, codes, is_nil,
  not, ok, err, Dict, lookup, ◌++◌, str_eq, if◌then◌else◌,
}
use agentgateway_educates_op.Base.Int.{ℤ, pos, ltb_ℤ}
use agentgateway_educates_op.Format.{format_int}
use agentgateway_educates_op.Kube.{Cluster, Answer, Error, other_failure}
use agentgateway_educates_op.Sdk.Errors.{driver_release_not_found, release_not_found}
use agentgateway_educates_op.Sdk.Json.{Fields}
use agentgateway_educates_op.Sdk.Releases.{
  Chart, Release, ReleaseInfo, ReleaseStatus, Releaser, nil_release, other_release, v1_release,
  deployed, superseded, InstallRequest, UpgradeRequest, RollbackRequest, UninstallRequest,
  install_release, upgrade_release, rollback_release, uninstall_release,
}
use agentgateway_educates_op.Kube.Monad.{
  Action, State, pure, fail, attempt, wrap, ◌>>=◌, ◌>>◌, observe, helm_act,
}

-- Five minutes, in nanoseconds.
abbrev pub action_timeout : ℤ
action_timeout = pos 300000000000

abbrev pub owner_label : String
owner_label = "agentgateway.operators.educates.dev/owner"

abbrev pub owner_value : String
owner_value = "agentgateway-educates-operator"

-- kube.HookOnlyStrategy
abbrev pub hook_only_strategy : String
hook_only_strategy = "hookOnly"

-- The configuration stands for its namespace.
pub record HelmClient : Type 0 where
  pub namespace : String
  pub skip_crds : Bool

initialised : String → Answer (Unit {0}) → Answer HelmClient
initialised ns (ok _) = ok (record { namespace = ns; skip_crds = false })
initialised ns (err e) = err (record e { message = codes "init helm action config: " ++ e.message })

-- `NewClient`, over `Init` of the action configuration.
unfoldable pub new_client : (String → Answer (Unit {0})) → String → Answer HelmClient
unfolding initialised
new_client init ns = initialised ns (init ns)

abbrev pub owner_labels : Dict String
owner_labels = (owner_label, owner_value) ∷ []

-- A release without the label, or nil, is not ours.
unfoldable pub is_owned : Option Release → Bool
is_owned none = false
is_owned (some rel) = elim (lookup owner_label rel.labels) [
  | none ↦ false
  | some v ↦ str_eq v owner_value
]

described : Text → Option ReleaseInfo → Text
described fallback none = fallback
described fallback (some info) = if is_nil info.description then fallback else info.description

unfoldable pub failure_message : Option Release → Text → Text
unfolding described
failure_message none fallback = fallback
failure_message (some rel) fallback = described fallback rel.info

abbrev pub is_driver_not_found : Error → Bool
is_driver_not_found e = elim e.kind [ driver_release_not_found ↦ true | _ ↦ false ]

abbrev pub is_release_not_found : Error → Bool
is_release_not_found e = elim e.kind [ release_not_found ↦ true | _ ↦ false ]

-- The prefix that fmt.Errorf puts before a wrapped error.
unfoldable pub naming : String → String → Text
naming prefix name = codes prefix ++ (codes name ++ codes ": ")

-- The versions that a repair may go back to.
unfoldable pub is_usable : Option ReleaseInfo → Bool
is_usable none = false
is_usable (some info) = elim info.status [ deployed ↦ true | superseded ↦ true | _ ↦ false ]

-- The revision found so far, and whether one is.
pub record LastDeployed : Type 0 where
  pub revision : ℤ
  pub found : Bool

unfoldable pub newer : LastDeployed → Release → LastDeployed
unfolding is_usable
newer last rel =
    if is_usable rel.info && ltb_ℤ last.revision rel.version
    then record { revision = rel.version; found = true }
    else last

-- The message names the type.
abbrev unexpected_type : Error
unexpected_type = record { kind = other_failure; message = codes "unexpected helm release type" }

-- The loop of `LastDeployedRevision`, which stops at a release of another type.
unfoldable pub last_deployed : LastDeployed → List Releaser → Answer LastDeployed
unfolding newer
last_deployed last [] = ok last
last_deployed last (nil_release ∷ l) = last_deployed last l
last_deployed last (other_release ∷ l) = err unexpected_type
last_deployed last (v1_release rel ∷ l) = last_deployed (newer last rel) l

abbrev pub nothing_deployed : LastDeployed
nothing_deployed = record { revision = pos 0; found = false }

module _ (c : Cluster) where
  unfoldable pub as_release : Releaser → Action (State c) (Option Release)
  as_release nil_release = pure none
  as_release (v1_release rel) = pure (some rel)
  as_release other_release = fail unexpected_type

  pub after_get : Text → Answer Releaser → Action (State c) (Option Release)
  after_get prefix (ok r) = as_release r
  after_get prefix (err e) =
      if is_driver_not_found e
      then fail (record { kind = release_not_found; message = codes "helm release not found" })
      else wrap prefix (fail e)

  unfoldable pub release_status : HelmClient → String → Action (State c) (Option Release)
  unfolding after_get observe
  release_status client name = do
    answer ← attempt (observe c (c.helm.get_release client.namespace name))
    after_get (naming "get helm release " name) answer

  unfoldable pub install :
      HelmClient → String → Option Chart → Option Fields → Action (State c) (Option Release)
  install client name chart values = do
    rel ← wrap (naming "install helm release " name) (
        helm_act c client.namespace (
          install_release (record {
            release_name = name;
            labels = owner_labels;
            skip_crds = client.skip_crds;
            create_namespace = false;
            wait_strategy = hook_only_strategy;
            timeout = action_timeout;
            chart = chart;
            values = values;
          })))
    as_release rel

  unfoldable pub upgrade :
      HelmClient → String → Option Chart → Option Fields → Action (State c) (Option Release)
  upgrade client name chart values = do
    rel ← wrap (naming "upgrade helm release " name) (
        helm_act c client.namespace (
          upgrade_release (record {
            release_name = name;
            labels = owner_labels;
            wait_strategy = hook_only_strategy;
            timeout = action_timeout;
            chart = chart;
            values = values;
          })))
    as_release rel

  pub after_uninstall : String → Answer Releaser → Action (State c) (Unit {0})
  after_uninstall name (ok _) = pure tt
  after_uninstall name (err e) =
      if is_driver_not_found e
      then pure tt
      else wrap (naming "uninstall helm release " name) (fail e)

  unfoldable pub uninstall : HelmClient → String → Action (State c) (Unit {0})
  unfolding after_uninstall
  uninstall client name = do
    answer ← attempt (
        helm_act c client.namespace (
          uninstall_release (record {
            release_name = name;
            ignore_not_found = true;
            wait_strategy = hook_only_strategy;
            timeout = action_timeout;
          })))
    after_uninstall name answer

  unfoldable pub rollback : HelmClient → String → ℤ → Action (State c) (Unit {0})
  rollback client name revision =
      wrap
        (codes "rollback helm release "
          ++ (codes name ++ (codes " to revision " ++ (format_int revision ++ codes ": "))))
        (helm_act c client.namespace (
          rollback_release (record {
            release_name = name;
            version = revision;
            cleanup_on_fail = true;
            wait_strategy = hook_only_strategy;
            timeout = action_timeout;
          })))
      >> pure tt

  pub after_history : String → Answer (List Releaser) → Action (State c) LastDeployed
  after_history name (ok l) = λ s. (last_deployed nothing_deployed l, s)
  after_history name (err e) =
      if is_driver_not_found e
      then pure nothing_deployed
      else wrap (naming "history for helm release " name) (fail e)

  unfoldable pub last_deployed_revision : HelmClient → String → Action (State c) LastDeployed
  unfolding after_history observe
  last_deployed_revision client name = do
    answer ← attempt (observe c (c.helm.history client.namespace name))
    after_history name answer
