-- ===== src/Session/Expiry.antt =====
-- agentgatewaysession_expiry.go: the sweep that revokes keys past their time.
pub mod Laws
use agentgateway_educates_op.Base.{
  ℕ, String, Bool, true, false, not, ◌&&◌, ◌||◌, ◌∷◌, [], Option, none, some, List, Text, ok, err,
  str_eq, is_nil, lookup, if◌then◌else◌, Dict,
}
use agentgateway_educates_op.Base.Int.{ℤ, pos, ltb_ℤ}
use agentgateway_educates_op.Api.Types.{AgentGatewayPlatform}
use agentgateway_educates_op.Api.Session.{registration_label, singleton_name, gateway_namespace}
use agentgateway_educates_op.Kube.{Packages, Cluster, Answer, ConfigMap, RegistrationEntry}
use agentgateway_educates_op.Kube.Monad.{
  Action, State, pure, fail, attempt, ◌>>=◌, ◌>>◌, is_not_found, is_no_match, get_platform,
  list_config_maps, delete_config_map, clock,
}
use agentgateway_educates_op.Registration.{parse_registration, metadata_key_expires_at}
use agentgateway_educates_op.Session.Teardown.{teardown_namespace}

-- time.Minute
abbrev pub expiry_sweep_interval : ℤ
expiry_sweep_interval = pos 60000000000

-- `s.interval()`, over the sweeper's field.
unfoldable pub sweep_interval : ℤ → ℤ
sweep_interval field = if ltb_ℤ (pos 0) field then field else expiry_sweep_interval

module _ (p : Packages) where
  abbrev passed : ℤ → Option ℤ → Bool
  passed now none = false
  passed now (some at) = not (ltb_ℤ now at)

  abbrev stamp_passed : ℤ → Option Text → Bool
  stamp_passed now none = false
  stamp_passed now (some expiry) = passed now (p.parse_rfc3339 expiry)

  -- One round of the loop: this entry does not keep the registration alive.
  pub entry_expired : ℤ → Answer RegistrationEntry → Bool
  entry_expired now (err e) = false
  entry_expired now (ok entry) = stamp_passed now (lookup metadata_key_expires_at entry.metadata)

  pub all_expired : ℤ → Dict Text → Bool
  all_expired now [] = true
  all_expired now ((key, raw) ∷ rest) =
      entry_expired now (parse_registration p raw) && all_expired now rest

  unfoldable pub expired : ConfigMap → ℤ → Bool
  unfolding all_expired entry_expired
  expired cm now = not (is_nil cm.contents) && all_expired now cm.contents

module _ (p : Packages) (c : Cluster) where
  -- A failed deletion is logged, and does not stop the others.
  pub sweep_each : ℤ → List ConfigMap → Action (State c) (Unit {0})
  sweep_each now [] = pure tt
  sweep_each now (cm ∷ rest) =
      let others = sweep_each now rest in
      if expired p cm now
      then attempt (delete_config_map c cm.namespace cm.name) >> others
      else others

  pub sweep_listed : Answer (List ConfigMap) → Action (State c) (Unit {0})
  sweep_listed (err e) = if is_no_match e || is_not_found e then pure tt else fail e
  sweep_listed (ok registrations) = do now ← clock c; sweep_each now registrations

  pub with_platform : Answer AgentGatewayPlatform → Action (State c) String
  with_platform (err e) = if is_not_found e || is_no_match e then pure "" else fail e
  with_platform (ok platform) = pure (teardown_namespace platform)

  -- `gatewayNamespaceFromPlatform`
  unfoldable pub gateway_namespace_from_platform : Action (State c) String
  unfolding with_platform
  gateway_namespace_from_platform = do
    answer ← attempt (get_platform c singleton_name)
    with_platform answer

  pub sweep_in : String → Action (State c) (Unit {0})
  sweep_in ns = if str_eq ns "" then pure tt else (do
    answer ← attempt (list_config_maps c ns registration_label "true")
    sweep_listed answer)

  unfoldable pub sweep : Action (State c) (Unit {0})
  unfolding sweep_in sweep_listed sweep_each
  sweep = do ns ← gateway_namespace_from_platform; sweep_in ns
