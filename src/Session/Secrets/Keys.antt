-- ===== src/Session/Secrets/Keys.antt =====
-- Which key an attendee gets, and when none is minted.
use agentgateway_educates_op.Base.{
  ◌≡◌, refl, ap, ◌∙◌, true, false, Option, none, some, Text, ok, err, str_eq, is_nil, Bool-cases,
  inl, inr, text_eq,
}
use agentgateway_educates_op.Api.Types.{AgentGatewaySession}
use agentgateway_educates_op.Api.Session.{resource_name, secret_key_api_key, secret_key_base_url}
use agentgateway_educates_op.Kube.{Packages, Cluster, Answer, Secret, Namespace}
use agentgateway_educates_op.Kube.Monad.{
  State, ◌>>=◌, is_not_found, get_secret, get_namespace, update_secret,
}
use agentgateway_educates_op.Session.Secrets.{
  data_at, ensure_secret, session_namespace_ending, mint, judge_ending, with_secret,
  err_session_ending, is_set,
}

module _ (p : Packages) (c : Cluster) (s : AgentGatewaySession) (url : Text) (st : State c) where
  -- Where the Secret is there and holds a key, and the cluster accepts an update of it, the pass
  -- gets that key, and nothing is generated: a live attendee's key is not rotated.
  pub ensure_secret-reuses :
      (live : Secret) (w : c.World)
      → c.get_secret s.metadata.namespace (resource_name s) st.world ≡ (ok live, w)
      → is_nil (data_at secret_key_api_key live) ≡ false
      → ((x : Secret) → (c.update_secret x w).0 ≡ ok tt)
      → (ensure_secret p c s url st).0 ≡ ok (data_at secret_key_api_key live, false)
  unfolding ensure_secret ◌>>=◌ get_secret update_secret
  ensure_secret-reuses live w got full accepted =
      elim (Bool-cases (text_eq (data_at secret_key_base_url live) url)) [
        | inl h ↦ rw (got, full, h) refl
        | inr h ↦ rw (got, full, h, accepted _) refl
      ]

  -- The session's own namespace is going, or has gone after it owned the Secret.
  abbrev pub IsEnding : Answer Namespace → Type 0
  IsEnding (ok ns) = is_set ns.deletion_timestamp ≡ true
  IsEnding (err e) = (is_not_found e ≡ true) × (str_eq s.status.session_namespace "" ≡ false)

  abbrev pub HoldsNoKey : Answer Secret → Type 0
  HoldsNoKey (ok live) = is_nil (data_at secret_key_api_key live) ≡ true
  HoldsNoKey (err e) = is_not_found e ≡ true

  judge_ending-true :
      (r : Answer Namespace) (st' : State c)
      → IsEnding r
      → judge_ending p c s r st' ≡ (ok true, st')
  unfolding judge_ending ◌>>=◌
  judge_ending-true (ok ns) st' h = rw h
  judge_ending-true (err e) st' (gone, owned) = rw (gone, owned)

  mint-ending :
      (live : Option Secret) (w : c.World)
      → IsEnding (c.get_namespace s.metadata.name w).0
      → mint p c s url live (record st { world = w })
        ≡ (err err_session_ending, record st { world = (c.get_namespace s.metadata.name w).1 })
  unfolding mint session_namespace_ending ◌>>=◌ get_namespace
  mint-ending live w h = rw (
      judge_ending-true (c.get_namespace s.metadata.name w).0
        (record st { world = (c.get_namespace s.metadata.name w).1 }) h)

  with_secret-ending :
      (r : Answer Secret) (w : c.World)
      → HoldsNoKey r
      → IsEnding (c.get_namespace s.metadata.name w).0
      → with_secret p c s url r (record st { world = w })
        ≡ (err err_session_ending, record st { world = (c.get_namespace s.metadata.name w).1 })
  unfolding with_secret
  with_secret-ending (ok live) w no_key h = rw no_key (mint-ending (some live) w h)
  with_secret-ending (err e) w no_key h = rw no_key (mint-ending none w h)

  -- Where the grant's Secret is missing or holds no key, and the session namespace is terminating,
  -- or is gone after it owned the Secret, no key is minted: the pass fails with the sentinel and has
  -- written nothing.
  pub ensure_secret-ending :
      (w w' : c.World) (r : Answer Secret) (n : Answer Namespace)
      → c.get_secret s.metadata.namespace (resource_name s) st.world ≡ (r, w)
      → c.get_namespace s.metadata.name w ≡ (n, w')
      → HoldsNoKey r
      → IsEnding n
      → ensure_secret p c s url st ≡ (err err_session_ending, record st { world = w' })
  unfolding ensure_secret ◌>>=◌ get_secret
  ensure_secret-ending w w' r n got ns no_key h = rw got (
      with_secret-ending r w no_key (rw ns h)
      ∙ ap (λ (x : Answer Namespace × c.World). (err err_session_ending, record st { world = x.1 }))
          ns)
