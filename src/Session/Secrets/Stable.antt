-- ===== src/Session/Secrets/Stable.antt =====
-- The steps to the key keep what no further call can break.
use agentgateway_educates_op.Base.{Bool, true, false, Option, none, some, List, Text, ok, err}
use agentgateway_educates_op.Api.Types.{AgentGatewaySession}
use agentgateway_educates_op.Kube.{Packages, Cluster, Answer, Secret, Error}
use agentgateway_educates_op.Kube.Monad.{Event}
use agentgateway_educates_op.Kube.Keeps.{Keeps, keeps_rules}
use agentgateway_educates_op.Kube.Stable.{IsStable}
use agentgateway_educates_op.Kube.Stable.{create_secret-Keeps, update_secret-Keeps}
use agentgateway_educates_op.Session.Secrets.{
  ensure_secret, with_secret, reuse_key, mint, mint_unless, store_key, after_create, reread_key,
}
use agentgateway_educates_op.Session.Secrets.Reads.{
  generate-Keeps, set_owner-Keeps, ending-Keeps, get_secret-Keeps,
}

module _ {c : Cluster} {P : List Event → Type 0} (stable : IsStable P) where
  module _ (p : Packages) where
    reread_key-Keeps : (e : Error) (r : Answer Secret) → Keeps c P (reread_key p c e r)
    unfolding reread_key
    reread_key-Keeps e (ok x) = search keeps_rules
    reread_key-Keeps e (err _) = search keeps_rules

    after_create-Keeps :
        (s : AgentGatewaySession) (key : Text) (r : Answer (Unit {0}))
        → Keeps c P (after_create p c s key r)
    unfolding after_create
    after_create-Keeps s key (ok x) = search keeps_rules
    after_create-Keeps s key (err e) = search (keeps_rules, get_secret-Keeps, reread_key-Keeps)

    store_key-Keeps :
        (s : AgentGatewaySession) (key : Text) (secret : Secret) (live : Option Secret)
        → Keeps c P (store_key p c s key secret live)
    unfolding store_key
    store_key-Keeps s key secret (some live) = search (keeps_rules, update_secret-Keeps stable)
    store_key-Keeps s key secret none =
        search (keeps_rules, create_secret-Keeps stable, after_create-Keeps)

    mint_unless-Keeps :
        (s : AgentGatewaySession) (url : Text) (live : Option Secret) (b : Bool)
        → Keeps c P (mint_unless p c s url live b)
    unfolding mint_unless
    mint_unless-Keeps s url live true = search keeps_rules
    mint_unless-Keeps s url live false =
        search (keeps_rules, generate-Keeps p, set_owner-Keeps p, store_key-Keeps)

    mint-Keeps :
        (s : AgentGatewaySession) (url : Text) (live : Option Secret)
        → Keeps c P (mint p c s url live)
    unfolding mint
    mint-Keeps s url live = search (keeps_rules, ending-Keeps p, mint_unless-Keeps)

    reuse_key-Keeps : (live : Secret) (key url : Text) → Keeps c P (reuse_key p c live key url)
    unfolding reuse_key
    reuse_key-Keeps live key url = search (keeps_rules, update_secret-Keeps stable)

    with_secret-Keeps :
        (s : AgentGatewaySession) (url : Text) (r : Answer Secret)
        → Keeps c P (with_secret p c s url r)
    unfolding with_secret
    with_secret-Keeps s url (ok live) = search (keeps_rules, mint-Keeps, reuse_key-Keeps)
    with_secret-Keeps s url (err e) = search (keeps_rules, mint-Keeps)

    pub ensure_secret-Keeps :
        (s : AgentGatewaySession) (url : Text) → Keeps c P (ensure_secret p c s url)
    unfolding ensure_secret
    ensure_secret-Keeps s url = search (keeps_rules, get_secret-Keeps, with_secret-Keeps)
