-- ===== src/Lib.antt =====
-- The educates agentgateway operator: the gateway that it installs for an Educates cluster, the models
-- that the gateway offers, and the grants by which workshops use them.
--
-- A platform (AgentGatewayPlatform) names a provider. For a bundled one the operator converges the
-- Helm releases of the gateway's CRDs, its control plane and its rate-limit service, renders the
-- gateway's configuration and waits until the gateway reports itself programmed; for an external one
-- it configures a gateway that is there. A catalog (AgentGatewayCatalog) lists the models that the
-- operator writes for the gateway, once the platform is ready. An author puts an AgentGatewaySession
-- (a grant) into a workshop's namespace. The operator mints a key for the attendee into a Secret,
-- publishes the key's hash with a budget and an expiry as a registration in the gateway's namespace,
-- reports in the grant's status, sweeps registrations whose time is up, and cleans up when the grant
-- is deleted. The gateway enforces what the registration says, and the catalog's policy where it says
-- nothing.
--
-- Which file models which part of the repository, where a name without a folder is in
-- internal/controller:
--   Api/Types, Api/Session   api/agentgateway/v1alpha1/*_types.go: the resources as records, a nil
--                            pointer as `none`, an omitted string as empty; the accessors
--   Api/Budget               budget.go of the same folder: ResolveTokenBudget, the catalog's accessors
--   Api/Cost                 cost.go: ParseDollarsToMicroDollars, parseDigits, ResolveCostBudget
--   Key                      internal/participantkey/key.go
--   Names                    names.go: the constants of the controllers
--   Registration             registration.go
--   Format                   formatMicroDollars of agentgatewaysession_controller.go, with the %d
--                            and %06d of Go that it calls
--   Untyped                  gateway_objects.go: untyped objects and their removal
--   Helm                     internal/helm/client.go: the operations on a namespace's releases
--   Helm/Converge            internal/helm/converge.go: classify, repair, EnsureRelease
--   Session/Status           conditions.go, and the messages and status write of the controller
--   Session/Resolve          placementValid and resolveCatalog
--   Session/Secrets          ensureSecret and its helpers
--   Session/Register         ensureRegistration and expiryFor
--   Session/Reconcile        Reconcile: each function is a stretch of it up to the next call whose
--                            error the code looks at
--   Session/Teardown         agentgatewaysession_teardown.go
--   Session/Expiry           agentgatewaysession_expiry.go: one sweep
--   Session/Watches          mapCatalogToSessions and mapSecretToSession
--   Platform/Status          the conditions and the status write of agentgatewayplatform_controller.go
--   Platform/Gate            handleReleaseResult, and the other steps that may stop a pass
--   Platform/ClusterConfig   clusterconfig.go
--   Platform/Policy          policy.go
--   Platform/RateLimit       ratelimit.go
--   Platform/Parameters      ensureParameters and the ports of gateway_objects.go
--   Platform/Gateway         the GatewayClass, the Gateway and its listeners, gateway_objects.go
--   Platform/Steps           the steps of agentgatewayplatform_controller.go, each with its gate
--   Platform/Charts          values.go, and the two steps that converge a chart
--   Platform/Reconcile       Reconcile, reconcileBundled and reconcileExternal
--   Platform/Teardown        agentgatewayplatform_teardown.go
--   Catalog/Render           the models, and the prune, of agentgatewaycatalog_controller.go
--   Catalog/Reconcile        its Reconcile and its status
-- The modules below each of these hold what is proved of it. Sdk has what the code exchanges with
-- Helm and with the API machinery, Base the shared helpers, Tests a cluster in memory and each
-- theorem at a concrete input.
--
-- The state of a pass is a world, which is the cluster as the API server has it, and a record of the
-- calls that wrote, each with its success. Kube has the cluster and the packages as parameters:
-- every call may change the world, since others act on it too, and may fail with any class of error.
-- Kube/Monad runs Go's sequences of calls over that state, an error as a value. Three modules reason
-- about such a sequence by one rule for each way to build it, so that what they show holds whatever
-- the cluster answers: Kube/Keeps keeps a property of the record, Kube/Traces compares the calls with
-- a plan, the exact calls in their order, and Kube/Scripts with a script, a plan with places where
-- calls of a kind may stand. What the proofs assume of the packages is in Kube/Lawful (finalizers,
-- base64, retries that only run their function, lists that honour their label selector) or a
-- hypothesis of the theorem (that the JSON text of an entry reads back, that a time is one that RFC
-- 3339 text preserves, that a Helm client acts in its own namespace, that no Gateway is programmed).
--
-- Amounts are int64 in the code: the parser checks before it multiplies, so its results are below
-- 2^63, and the model keeps that test. A time is in nanoseconds. Texts that the code walks are lists
-- of code points. An untyped object is a tree of JSON values. Nothing runs on fuel: the loops are
-- structural, and the digits of a number are by well-founded recursion.
--
-- Not modelled: the wiring of the manager (cmd/main.go, setup.go, each SetupWithManager with its
-- predicates, and the mappings that answer the one platform's or catalog's name); the reading of
-- embedded chart archives and the REST getter of internal/helm, which are glue to the Helm library,
-- whose actions are parameters; the generated copies of the API types; logs; the ticker around the
-- sweep. Escapes of fmt's %q and the transition times of conditions are left out, since no name that
-- Kubernetes admits needs the former and only the API machinery reads the latter.
pub mod Base
pub mod Api
pub mod Format
pub mod Sdk
pub mod Kube
pub mod Key
pub mod Registration
pub mod Names
pub mod Untyped
pub mod Helm
pub mod Session
pub mod Platform
pub mod Catalog
pub mod Tests
