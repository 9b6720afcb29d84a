-- ===== src/Session/Secrets/Laws.antt =====
-- What `ensureSecret` does to the key of an attendee.
use agentgateway_educates_op.Base.{
  ◌≡◌, refl, ap, Bool, true, false, some, Text, ok, is_nil, insert, lookup-insert, Bool-cases, inl,
  inr, All,
}
use agentgateway_educates_op.Api.Types.{AgentGatewaySession}
use agentgateway_educates_op.Api.Session.{resource_name, secret_key_api_key, secret_key_base_url}
use agentgateway_educates_op.Kube.{Packages, Cluster, Secret}
use agentgateway_educates_op.Kube.Monad.{
  State, Event, secret_update, ◌>>=◌, get_secret, update_secret,
}
use agentgateway_educates_op.Kube.Keeps.{
  Keeps, keeps_rules, Keeps-write, Keeps-bind, Keeps-wrap, Keeps-pure,
}
use agentgateway_educates_op.Session.Secrets.Reads.{generate-Keeps, set_owner-Keeps, ending-Keeps}
use agentgateway_educates_op.Session.Secrets.{
  set_session_namespace_owner, data_at, or_empty, store_key, ensure_secret, with_secret, reuse_key,
  mint, mint_unless,
}

-- A write of the gateway's address leaves the key alone.
data_at-base_url :
    (live : Secret) (url : Text)
    → data_at secret_key_api_key
        (record live { contents = insert secret_key_base_url url live.contents })
      ≡ data_at secret_key_api_key live
data_at-base_url live url =
    ap or_empty (lookup-insert secret_key_base_url secret_key_api_key url live.contents)

-- An update of the Secret that was read: its owners stay, and so does a key that it holds.
abbrev pub OverLive : Secret → Event → Type 0
OverLive live e = elim e.call [
  | secret_update x ↦
      (x.owner_references ≡ live.owner_references)
      × (is_nil (data_at secret_key_api_key live) ≡ false
          → data_at secret_key_api_key x ≡ data_at secret_key_api_key live)
  | _ ↦ ⊥
]

module _ (p : Packages) (c : Cluster) (s : AgentGatewaySession) (url : Text) (live : Secret) where
  update_secret-OverLive :
      (x : Secret)
      → x.owner_references ≡ live.owner_references
      → (is_nil (data_at secret_key_api_key live) ≡ false
          → data_at secret_key_api_key x ≡ data_at secret_key_api_key live)
      → Keeps c (All (OverLive live)) (update_secret c x)
  unfolding update_secret
  update_secret-OverLive x owners key = Keeps-write (OverLive live) _ _ (λ b. (owners, key))

  update_url-OverLive :
      Keeps c
        (All (OverLive live))
        (update_secret c (record live { contents = insert secret_key_base_url url live.contents }))
  update_url-OverLive = update_secret-OverLive _ refl (λ _. data_at-base_url live url)

  reuse_key-OverLive :
      Keeps c (All (OverLive live)) (reuse_key p c live (data_at secret_key_api_key live) url)
  unfolding reuse_key
  reuse_key-OverLive = search (keeps_rules, update_url-OverLive)

  set_owner-OverLive :
      (secret : Secret) → Keeps c (All (OverLive live)) (set_session_namespace_owner p c s secret)
  set_owner-OverLive secret = set_owner-Keeps p s secret

  module _ (empty : is_nil (data_at secret_key_api_key live) ≡ true) where
    repair-OverLive :
        (secret : Secret)
        → Keeps c
            (All (OverLive live))
            (update_secret c (record live { contents = secret.contents; labels = secret.labels }))
    repair-OverLive secret = update_secret-OverLive _ refl (λ full. cc)

    store_key-OverLive :
        (key : Text) (secret : Secret)
        → Keeps c (All (OverLive live)) (store_key p c s key secret (some live))
    unfolding store_key
    store_key-OverLive key secret =
        Keeps-bind _ _ (Keeps-wrap _ _ (repair-OverLive secret)) (λ _. Keeps-pure _)

    mint_unless-OverLive :
        (b : Bool) → Keeps c (All (OverLive live)) (mint_unless p c s url (some live) b)
    unfolding mint_unless
    mint_unless-OverLive true = search keeps_rules
    mint_unless-OverLive false =
        search (keeps_rules, generate-Keeps, set_owner-OverLive, store_key-OverLive)

    mint-OverLive : Keeps c (All (OverLive live)) (mint p c s url (some live))
    unfolding mint
    mint-OverLive = search (keeps_rules, ending-Keeps, mint_unless-OverLive)

  with_secret-OverLive : Keeps c (All (OverLive live)) (with_secret p c s url (ok live))
  unfolding with_secret
  with_secret-OverLive = elim (Bool-cases (is_nil (data_at secret_key_api_key live))) [
    | inl empty ↦ rw empty (mint-OverLive empty)
    | inr full ↦ rw full reuse_key-OverLive
  ]

-- The Secret that a pass finds is only ever updated: its owners stay as they are, and so does a
-- key that it holds. Nothing else is written on the way to the key, whatever the cluster answers.
pub ensure_secret-OverLive :
    (p : Packages) (c : Cluster) (s : AgentGatewaySession) (url : Text) (st : State c)
    (live : Secret)
    → (c.get_secret s.metadata.namespace (resource_name s) st.world).0 ≡ ok live
    → All (OverLive live) st.events
    → All (OverLive live) (ensure_secret p c s url st).1.events
unfolding ensure_secret ◌>>=◌ get_secret
ensure_secret-OverLive p c s url st live got h =
    rw got ((with_secret-OverLive p c s url live).at _ h)
