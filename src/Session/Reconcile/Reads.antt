-- ===== src/Session/Reconcile/Reads.antt =====
-- The reads of a pass, and its status write, over a world that they leave as it is.
use agentgateway_educates_op.Base.{
  ◌≡◌, refl, ap, ◌∙◌, true, false, some, [], ◌∷◌, Text, ok, str_eq, text_eq, is_nil,
}
use agentgateway_educates_op.Api.Types.{
  AgentGatewaySession, AgentGatewayCatalog, AgentGatewayPlatform,
}
use agentgateway_educates_op.Api.Session.{
  catalog_name, singleton_name, resource_name, secret_key_api_key, secret_key_base_url,
}
use agentgateway_educates_op.Kube.{Packages, Cluster, Secret}
use agentgateway_educates_op.Kube.Lawful.{RetriesOnly}
use agentgateway_educates_op.Kube.Monad.{
  State, session_status_update, ◌>>=◌, get_session, get_catalog, get_platform, get_secret,
  update_status,
}
use agentgateway_educates_op.Session.Secrets.{
  data_at, ensure_secret, owner_namespace, secret_owner_namespace,
}
use agentgateway_educates_op.Session.Status.{
  update_session_status, write_status, condition_true, condition_ready,
}
use agentgateway_educates_op.Session.Resolve.{resolve_catalog, read_catalog}

module _ (p : Packages) (c : Cluster) (s : AgentGatewaySession) (w : c.World)
    (catalog : AgentGatewayCatalog) (platform : AgentGatewayPlatform) where
  pub resolve_catalog-ready :
      c.get_catalog (catalog_name s) w ≡ (ok catalog, w)
      → condition_true p catalog.status.conditions condition_ready ≡ true
      → c.get_platform singleton_name w ≡ (ok platform, w)
      → str_eq platform.status.gateway_namespace "" ≡ false
      → resolve_catalog p c s (record { world = w; events = [] }) ≡ (
        ok (some (read_catalog catalog platform.status.gateway_namespace)),
        record { world = w; events = [] },
      )
  unfolding resolve_catalog ◌>>=◌ get_catalog get_platform
  resolve_catalog-ready got is_ready platform_got named =
      rw (got, is_ready, platform_got, named) refl

module _ (p : Packages) (c : Cluster) (s : AgentGatewaySession) (w : c.World)
    (secret : Secret) where
  pub ensure_secret-current :
      (url : Text)
      → c.get_secret s.metadata.namespace (resource_name s) w ≡ (ok secret, w)
      → is_nil (data_at secret_key_api_key secret) ≡ false
      → text_eq (data_at secret_key_base_url secret) url ≡ true
      → ensure_secret p c s url (record { world = w; events = [] })
        ≡ (ok (data_at secret_key_api_key secret, false), record { world = w; events = [] })
  unfolding ensure_secret ◌>>=◌ get_secret
  ensure_secret-current url got full url_same = rw (got, full, url_same) refl

  pub secret_owner-read :
      c.get_secret s.metadata.namespace (resource_name s) w ≡ (ok secret, w)
      → secret_owner_namespace p c s (record { world = w; events = [] })
        ≡ (ok (owner_namespace secret.owner_references), record { world = w; events = [] })
  unfolding secret_owner_namespace ◌>>=◌ get_secret
  secret_owner-read got = rw got refl

module _ (c : Cluster) (s : AgentGatewaySession) (w : c.World) where
  write_status-once :
      (live : AgentGatewaySession) (w' : c.World)
      → c.get_session s.metadata.namespace s.metadata.name w ≡ (ok live, w)
      → c.update_session_status (record live { status = s.status }) w ≡ (ok tt, w')
      → write_status c s (record { world = w; events = [] }) ≡ (
        ok tt,
        record {
          world = w';
          events =
              record {
                call = session_status_update (record live { status = s.status });
                succeeded = true;
              }
              ∷ [];
        },
      )
  unfolding write_status ◌>>=◌ get_session update_status
  write_status-once live w' got accepted = rw (got, accepted) refl

  pub status_written :
      (live : AgentGatewaySession) (w' : c.World)
      → RetriesOnly c
      → c.get_session s.metadata.namespace s.metadata.name w ≡ (ok live, w)
      → c.update_session_status (record live { status = s.status }) w ≡ (ok tt, w')
      → update_session_status c s (record { world = w; events = [] }) ≡ (
        ok tt,
        record {
          world = w';
          events =
              record {
                call = session_status_update (record live { status = s.status });
                succeeded = true;
              }
              ∷ [];
        },
      )
  unfolding update_session_status
  status_written live w' retries got accepted =
      let once : write_status c s (record { world = w; events = [] }) ≡ (
        ok tt,
        record {
          world = w';
          events =
              record {
                call = session_status_update (record live { status = s.status });
                succeeded = true;
              }
              ∷ [];
        },
      ) =
        write_status-once live w' got accepted in
      retries.retry_ok (State c) (write_status c s) (record { world = w; events = [] })
        (ap (λ x. x.0) once)
      ∙ once
