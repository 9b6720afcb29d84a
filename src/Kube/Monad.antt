-- ===== src/Kube/Monad.antt =====
-- The shape of a Go function that calls the API server and may return an error. The calls that
-- write are recorded, with their success, beside the world: what a pass did to the cluster.
use agentgateway_educates_op.Base.{
  ℕ, String, Bool, true, false, List, [], ◌∷◌, ◌++◌, Text, ok, err, is_ok,
}
use agentgateway_educates_op.Base.Int.{ℤ}
use agentgateway_educates_op.Api.Types.{
  AgentGatewaySession, AgentGatewayCatalog, AgentGatewayPlatform,
}
use agentgateway_educates_op.Kube.{
  Cluster, Answer, Error, not_found, already_exists, conflict, no_match, session_ending, Namespace,
  Secret, ConfigMap,
}
use agentgateway_educates_op.Sdk.Releases.{HelmCall, Releaser}
use agentgateway_educates_op.Sdk.Objects.{ObjectCall}

-- A call that writes.
pub data Call : Type 0 where
  session_update : AgentGatewaySession → Call
  session_status_update : AgentGatewaySession → Call
  secret_create : Secret → Call
  secret_update : Secret → Call
  config_map_create : ConfigMap → Call
  config_map_update : ConfigMap → Call
  config_map_delete : String → String → Call
  platform_update platform_status_update : AgentGatewayPlatform → Call
  catalog_status_update : AgentGatewayCatalog → Call
  namespace_create : Namespace → Call
  namespace_delete : String → Call
  helm_call : String → HelmCall → Call
  object_call : ObjectCall → Call

pub record Event : Type 0 where
  pub call : Call
  pub succeeded : Bool

abbrev pub is_not_found : Error → Bool
is_not_found e = elim e.kind [ not_found ↦ true | _ ↦ false ]

abbrev pub is_no_match : Error → Bool
is_no_match e = elim e.kind [ no_match ↦ true | _ ↦ false ]

abbrev pub is_already_exists : Error → Bool
is_already_exists e = elim e.kind [ already_exists ↦ true | _ ↦ false ]

abbrev pub is_conflict : Error → Bool
is_conflict e = elim e.kind [ conflict ↦ true | _ ↦ false ]

abbrev pub is_session_ending : Error → Bool
is_session_ending e = elim e.kind [ session_ending ↦ true | _ ↦ false ]

module _ (c : Cluster) where
  pub record State : Type 0 where
    pub world : c.World
    pub events : List Event

-- An action over any state.
abbrev pub Action {ℓ} : Type ℓ → Type 0 → Type ℓ
Action S A = S → Answer A × S

abbrev wrapped : {A : Type 0} → Text → Answer A → Answer A
wrapped prefix (ok a) = ok a
wrapped prefix (err e) = err (record e { message = prefix ++ e.message })

module _ {S A : Type 0} where
  unfoldable pub pure : A → Action S A
  pure a s = (ok a, s)

  unfoldable pub fail : Error → Action S A
  fail e s = (err e, s)

  -- A function of another package that may fail.
  unfoldable pub lift : Answer A → Action S A
  lift r s = (r, s)

  -- The answer as a value: Go code that looks at `err` and goes on.
  unfoldable pub attempt : Action S A → Action S (Answer A)
  attempt m s = let (r, s') = m s in (ok r, s')

  -- fmt.Errorf("...: %w", err): the kind stays.
  unfoldable pub wrap : Text → Action S A → Action S A
  wrap prefix m s = let (r, s') = m s in (wrapped prefix r, s')

module _ {S A B : Type 0} where
  abbrev pub continue : Answer A → (A → Action S B) → Action S B
  continue (ok a) f s = f a s
  continue (err e) f s = (err e, s)

  infixl 10 ◌>>=◌ ◌>>◌
  unfoldable pub ◌>>=◌ : Action S A → (A → Action S B) → Action S B
  unfolding pure fail attempt wrap
  ◌>>=◌ m f s = let (r, s') = m s in continue r f s'

  abbrev pub ◌>>◌ : Action S A → Action S B → Action S B
  m >> n = m >>= λ _. n

module _ (c : Cluster) where
  -- A read: its answer, and whatever others did meanwhile.
  unfoldable pub observe : {A : Type 0} → (c.World → Answer A × c.World) → Action (State c) A
  observe f s = let (r, w) = f s.world in (r, record s { world = w })

  -- A call that writes, with its entry in the record of the pass.
  unfoldable pub perform : {A : Type 0} → Call → (c.World → Answer A × c.World) → Action (State c) A
  perform call f s =
      let (r, w) = f s.world in
      (
        r,
        record { world = w; events = s.events ++ record { call = call; succeeded = is_ok r } ∷ [] },
      )

  unfoldable pub get_session : String → String → Action (State c) AgentGatewaySession
  unfolding observe
  get_session ns name = observe (c.get_session ns name)

  unfoldable pub get_catalog : String → Action (State c) AgentGatewayCatalog
  unfolding observe
  get_catalog name = observe (c.get_catalog name)

  unfoldable pub get_platform : String → Action (State c) AgentGatewayPlatform
  unfolding observe
  get_platform name = observe (c.get_platform name)

  unfoldable pub get_namespace : String → Action (State c) Namespace
  unfolding observe
  get_namespace name = observe (c.get_namespace name)

  unfoldable pub get_secret : String → String → Action (State c) Secret
  unfolding observe
  get_secret ns name = observe (c.get_secret ns name)

  unfoldable pub get_config_map : String → String → Action (State c) ConfigMap
  unfolding observe
  get_config_map ns name = observe (c.get_config_map ns name)

  unfoldable pub list_sessions : Action (State c) (List AgentGatewaySession)
  unfolding observe
  list_sessions = observe c.list_sessions

  unfoldable pub list_config_maps : String → String → String → Action (State c) (List ConfigMap)
  unfolding observe
  list_config_maps ns label value = observe (c.list_config_maps ns label value)

  unfoldable pub random_bytes : ℕ → Action (State c) (List ℕ)
  unfolding observe
  random_bytes n = observe (c.random_bytes n)

  unfoldable pub clock : Action (State c) ℤ
  unfolding observe
  clock = observe (λ w. let (t, w') = c.now w in (ok t, w'))

  unfoldable pub update_session : AgentGatewaySession → Action (State c) AgentGatewaySession
  unfolding perform
  update_session s = perform (session_update s) (c.update_session s)

  unfoldable pub update_status : AgentGatewaySession → Action (State c) (Unit {0})
  unfolding perform
  update_status s = perform (session_status_update s) (c.update_session_status s)

  unfoldable pub create_secret : Secret → Action (State c) (Unit {0})
  unfolding perform
  create_secret x = perform (secret_create x) (c.create_secret x)

  unfoldable pub update_secret : Secret → Action (State c) (Unit {0})
  unfolding perform
  update_secret x = perform (secret_update x) (c.update_secret x)

  unfoldable pub create_config_map : ConfigMap → Action (State c) (Unit {0})
  unfolding perform
  create_config_map x = perform (config_map_create x) (c.create_config_map x)

  unfoldable pub update_config_map : ConfigMap → Action (State c) (Unit {0})
  unfolding perform
  update_config_map x = perform (config_map_update x) (c.update_config_map x)

  unfoldable pub delete_config_map : String → String → Action (State c) (Unit {0})
  unfolding perform
  delete_config_map ns name = perform (config_map_delete ns name) (c.delete_config_map ns name)

  unfoldable pub update_platform : AgentGatewayPlatform → Action (State c) AgentGatewayPlatform
  unfolding perform
  update_platform x = perform (platform_update x) (c.update_platform x)

  unfoldable pub update_platform_status : AgentGatewayPlatform → Action (State c) (Unit {0})
  unfolding perform
  update_platform_status x = perform (platform_status_update x) (c.update_platform_status x)

  unfoldable pub update_catalog_status : AgentGatewayCatalog → Action (State c) (Unit {0})
  unfolding perform
  update_catalog_status x = perform (catalog_status_update x) (c.update_catalog_status x)

  unfoldable pub create_namespace : Namespace → Action (State c) (Unit {0})
  unfolding perform
  create_namespace x = perform (namespace_create x) (c.create_namespace x)

  unfoldable pub delete_namespace : String → Action (State c) (Unit {0})
  unfolding perform
  delete_namespace name = perform (namespace_delete name) (c.delete_namespace name)

  -- A Helm action in a namespace.
  unfoldable pub helm_act : String → HelmCall → Action (State c) Releaser
  unfolding perform
  helm_act ns call = perform (helm_call ns call) (c.helm.act ns call)

  -- A write of a custom or of an owned object.
  unfoldable pub write_object : ObjectCall → Action (State c) (Unit {0})
  unfolding perform
  write_object call = perform (object_call call) (c.objects.write call)
