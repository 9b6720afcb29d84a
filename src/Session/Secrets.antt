-- ===== src/Session/Secrets.antt =====
-- The participant key Secret (agentgatewaysession_controller.go: `ensureSecret` and its helpers).
pub mod Stable
pub mod Reads
pub mod Laws
pub mod Keys
use agentgateway_educates_op.Base.{
  String, Bool, true, false, not, Option, none, some, List, [], ◌∷◌, ◌++◌, Text, codes, ok, err,
  str_eq, text_eq, is_nil, lookup, insert, Dict, if◌then◌else◌,
}
use agentgateway_educates_op.Base.Int.{ℤ}
use agentgateway_educates_op.Api.Types.{AgentGatewaySession}
use agentgateway_educates_op.Api.Session.{
  resource_name, secret_key_api_key, secret_key_base_url, session_label, session_ns_label,
}
use agentgateway_educates_op.Kube.{
  Packages, Cluster, Answer, Error, session_ending, Namespace, Secret, OwnerReference,
}
use agentgateway_educates_op.Kube.Monad.{
  Action, State, pure, fail, attempt, wrap, ◌>>=◌, ◌>>◌, is_not_found, is_already_exists,
  get_namespace, get_secret, create_secret, update_secret,
}
use agentgateway_educates_op.Key.{generate}
use agentgateway_educates_op.Names.{managed_by_label, managed_by_value}

-- `string(live.Data[key])`: empty where the key is missing.
abbrev pub or_empty : Option Text → Text
or_empty none = []
or_empty (some v) = v

abbrev pub data_at : String → Secret → Text
data_at key secret = or_empty (lookup key secret.contents)

unfoldable pub err_session_ending : Error
err_session_ending = record {
  kind = session_ending;
  message = codes "the session namespace is terminating, so no key is minted";
}

abbrev pub session_namespace_name : AgentGatewaySession → String
session_namespace_name s = s.metadata.name

abbrev pub is_set : Option ℤ → Bool
is_set none = false
is_set (some t) = true

-- The Secret as it is minted, before its owner is known.
unfoldable pub minted_secret : AgentGatewaySession → Text → Text → Secret
minted_secret s key gateway_url = record {
  name = resource_name s;
  namespace = s.metadata.namespace;
  labels =
      (managed_by_label, managed_by_value)
      ∷ (session_label, s.metadata.name)
      ∷ (session_ns_label, s.metadata.namespace)
      ∷ [];
  owner_references = [];
  contents = (secret_key_api_key, key) ∷ (secret_key_base_url, gateway_url) ∷ [];
}

abbrev pub namespace_owner : Namespace → OwnerReference
namespace_owner ns = record { api_version = "v1"; kind = "Namespace"; name = ns.name; uid = ns.uid }

-- The name of the first owner that is a namespace.
pub owner_namespace : List OwnerReference → String
owner_namespace [] = ""
owner_namespace (owner ∷ rest) =
    if str_eq owner.kind "Namespace" then owner.name else owner_namespace rest

module _ (p : Packages) (c : Cluster) where
  pub judge_ending : AgentGatewaySession → Answer Namespace → Action (State c) Bool
  judge_ending s (err e) =
      if is_not_found e then pure (not (str_eq s.status.session_namespace "")) else fail e
  judge_ending s (ok ns) = pure (is_set ns.deletion_timestamp)

  unfoldable pub session_namespace_ending : AgentGatewaySession → Action (State c) Bool
  unfolding judge_ending
  session_namespace_ending s = do
    answer ← attempt (get_namespace c (session_namespace_name s))
    judge_ending s answer

  pub read_owner : Answer Secret → Action (State c) String
  read_owner (err e) = if is_not_found e then pure "" else fail e
  read_owner (ok secret) = pure (owner_namespace secret.owner_references)

  unfoldable pub secret_owner_namespace : AgentGatewaySession → Action (State c) String
  unfolding read_owner owner_namespace
  secret_owner_namespace s = do
    answer ← attempt (get_secret c s.metadata.namespace (resource_name s))
    read_owner answer

  pub owned_by : Secret → Answer Namespace → Action (State c) Secret
  owned_by secret (err e) = if is_not_found e then pure secret else fail e
  owned_by secret (ok ns) = pure (record secret { owner_references = namespace_owner ns ∷ [] })

  -- Returns the object with its owner set.
  unfoldable pub set_session_namespace_owner :
      AgentGatewaySession → Secret → Action (State c) Secret
  unfolding owned_by
  set_session_namespace_owner s secret = do
    answer ← attempt (get_namespace c (session_namespace_name s))
    owned_by secret answer

  -- The key that is there, with the gateway's address kept current.
  pub reuse_key : Secret → Text → Text → Action (State c) (Text × Bool)
  reuse_key live existing gateway_url =
      if not (text_eq (data_at secret_key_base_url live) gateway_url)
      then (do
        wrap (codes "update gateway URL in Secret: ") (
            update_secret c
              (record live { contents = insert secret_key_base_url gateway_url live.contents }))
        pure (existing, false))
      else pure (existing, false)

  abbrev create_failed : Error → Error
  create_failed e = record e { message = codes "create participant key Secret: " ++ e.message }

  -- The re-read after a lost race.
  pub reread_key : Error → Answer Secret → Action (State c) (Text × Bool)
  reread_key e (err _) = fail (create_failed e)
  reread_key e (ok live) =
      if is_nil (data_at secret_key_api_key live)
      then fail (create_failed e)
      else pure (data_at secret_key_api_key live, false)

  pub after_create : AgentGatewaySession → Text → Answer (Unit {0}) → Action (State c) (Text × Bool)
  after_create s key (ok _) = pure (key, true)
  after_create s key (err e) =
      if is_already_exists e
      then (do
        answer ← attempt (get_secret c s.metadata.namespace (resource_name s))
        reread_key e answer)
      else fail (create_failed e)

  -- Into the empty Secret that is there, or a new one.
  pub store_key :
      AgentGatewaySession → Text → Secret → Option Secret → Action (State c) (Text × Bool)
  store_key s key secret (some live) = do
    wrap (codes "repair participant key Secret: ")
        (update_secret c (record live { contents = secret.contents; labels = secret.labels }))
    pure (key, true)
  store_key s key secret none = do
    answer ← attempt (create_secret c secret)
    after_create s key answer

  pub mint_unless :
      AgentGatewaySession → Text → Option Secret → Bool → Action (State c) (Text × Bool)
  mint_unless s gateway_url live true = fail err_session_ending
  mint_unless s gateway_url live false = do
    key ← generate p c
    secret ← set_session_namespace_owner s (minted_secret s key gateway_url)
    store_key s key secret live

  pub mint : AgentGatewaySession → Text → Option Secret → Action (State c) (Text × Bool)
  unfolding mint_unless
  mint s gateway_url live = do
    ending ← session_namespace_ending s
    mint_unless s gateway_url live ending

  pub with_secret : AgentGatewaySession → Text → Answer Secret → Action (State c) (Text × Bool)
  with_secret s gateway_url (ok live) =
      if is_nil (data_at secret_key_api_key live)
      then mint s gateway_url (some live)
      else reuse_key live (data_at secret_key_api_key live) gateway_url
  with_secret s gateway_url (err e) = if is_not_found e then mint s gateway_url none else fail e

  -- The key, and whether it was generated.
  unfoldable pub ensure_secret : AgentGatewaySession → Text → Action (State c) (Text × Bool)
  unfolding with_secret mint store_key after_create reread_key reuse_key
  ensure_secret s gateway_url = do
    answer ← attempt (get_secret c s.metadata.namespace (resource_name s))
    with_secret s gateway_url answer
