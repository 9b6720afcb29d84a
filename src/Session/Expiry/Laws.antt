-- ===== src/Session/Expiry/Laws.antt =====
-- Which registrations the sweep revokes, and that it gets through all of them.
use agentgateway_educates_op.Base.{
  String, ◌≡◌, ◌↔◌, refl, ap, sym, ◌∙◌, true, false, not, some, List, [], ◌∷◌, ◌++◌, Text, ok,
  arith, lookup, is_nil, Dict, str_eq, if◌then◌else◌, Option-cases, Bool-cases, inl, inr, All,
}
use agentgateway_educates_op.Base.Int.{ℤ, ltb_ℤ, ◌≤ℤ◌}
use agentgateway_educates_op.Kube.{Packages, Cluster, ConfigMap, RegistrationEntry}
use agentgateway_educates_op.Kube.Monad.{
  State, Event, Call, config_map_delete, ◌>>=◌, attempt, pure, delete_config_map, perform,
  list_config_maps, clock, get_platform,
}
use agentgateway_educates_op.Registration.{parse_registration, metadata_key_expires_at}
use agentgateway_educates_op.Session.Expiry.{
  entry_expired, all_expired, expired, sweep_each, sweep, sweep_in, sweep_listed,
  gateway_namespace_from_platform, with_platform,
}
use agentgateway_educates_op.Api.Types.{AgentGatewayPlatform, AgentGatewaySession}
use agentgateway_educates_op.Api.Budget.{ResolvedTokenBudget}
use agentgateway_educates_op.Api.Cost.{ResolvedCostBudget}
use agentgateway_educates_op.Session.Register.{desired_entry, desired_config_map}
use agentgateway_educates_op.Session.Register.Laws.{parse_registration-marshal, inputs}
use agentgateway_educates_op.Registration.Laws.{build_registration-fields}
use agentgateway_educates_op.Api.Session.{singleton_name, registration_label}
use agentgateway_educates_op.Session.Teardown.{teardown_namespace}

-- The stored text is a registration whose time of expiry has been reached.
abbrev pub Lapsed : Packages → ℤ → String × Text → Type 0
Lapsed p now (name, raw) =
    (entry : RegistrationEntry) × (stamp : Text) × (at : ℤ) × (p.json_unmarshal raw ≡ some entry)
    × (lookup metadata_key_expires_at entry.metadata ≡ some stamp)
    × (p.parse_rfc3339 stamp ≡ some at)
    × (at ≤ℤ now)

entry_expired-Lapsed :
    (p : Packages) (now : ℤ) (name : String) (raw : Text)
    → entry_expired p now (parse_registration p raw) ≡ true
    → Lapsed p now (name, raw)
unfolding entry_expired parse_registration
entry_expired-Lapsed p now name raw h = elim (Option-cases (p.json_unmarshal raw)) [
  | inl missing ↦ let bad : ⊥ = ground arith in elim bad [ ]
  | inr (entry, e) ↦ elim (Option-cases (lookup metadata_key_expires_at entry.metadata)) [
    | inl missing ↦ let bad : ⊥ = ground arith in elim bad [ ]
    | inr (stamp, e') ↦ elim (Option-cases (p.parse_rfc3339 stamp)) [
      | inl missing ↦ let bad : ⊥ = ground arith in elim bad [ ]
      | inr (at, e'') ↦ (entry, stamp, at, e, e', e'', ground arith)
    ]
  ]
]

Lapsed-entry_expired :
    (p : Packages) (now : ℤ) (name : String) (raw : Text)
    → Lapsed p now (name, raw)
    → entry_expired p now (parse_registration p raw) ≡ true
unfolding entry_expired parse_registration
Lapsed-entry_expired p now name raw (entry, stamp, at, e, e', e'', h) =
    rw (e, parse_registration, e', e'') (ground arith)

all_expired-All :
    (p : Packages) (now : ℤ) (m : Dict Text) → all_expired p now m ≡ true → All (Lapsed p now) m
unfolding all_expired
all_expired-All p now [] h = tt
all_expired-All p now ((name, raw) ∷ m) h =
    (entry_expired-Lapsed p now name raw (ground arith), all_expired-All p now m (ground arith))

All-all_expired :
    (p : Packages) (now : ℤ) (m : Dict Text) → All (Lapsed p now) m → all_expired p now m ≡ true
unfolding all_expired
All-all_expired p now [] h = refl
All-all_expired p now ((name, raw) ∷ m) (first, rest) =
    rw (Lapsed-entry_expired p now name raw first) (All-all_expired p now m rest)

-- A registration is expired exactly when it holds entries and each of them reads as an entry whose
-- time of expiry is not after the time given: an unreadable or an undated entry keeps it.
pub expired_iff :
    (p : Packages) (cm : ConfigMap) (now : ℤ)
    → (expired p cm now ≡ true) ↔ ((is_nil cm.contents ≡ false) × All (Lapsed p now) cm.contents)
unfolding expired
expired_iff p cm now = (
  λ h. (ground arith, all_expired-All p now cm.contents (ground arith)),
  λ h. rw (h.0) (All-all_expired p now cm.contents h.1),
)

-- The calls of a record, without their success.
abbrev pub calls : List Event → List Call
calls [] = []
calls (e ∷ l) = e.call ∷ calls l

calls-append : (l m : List Event) → calls (l ++ m) ≡ calls l ++ calls m
calls-append [] m = refl
calls-append (e ∷ l) m = rw (calls-append l m) refl

++-nil : (a : List Call) → a ++ [] ≡ a
++-nil [] = refl
++-nil (x ∷ a) = rw (++-nil a) refl

++-assoc : (a b d : List Call) → (a ++ b) ++ d ≡ a ++ (b ++ d)
++-assoc [] b d = refl
++-assoc (x ∷ a) b d = rw (++-assoc a b d) refl

-- One deletion for each expired registration, in their order.
abbrev pub revocations : Packages → ℤ → List ConfigMap → List Call
revocations p now [] = []
revocations p now (cm ∷ rest) =
    if expired p cm now
    then config_map_delete cm.namespace cm.name ∷ revocations p now rest
    else revocations p now rest

module _ (p : Packages) (c : Cluster) (now : ℤ) where
  sweep_each-revocations :
      (l : List ConfigMap) (st : State c)
      → ((sweep_each p c now l st).0 ≡ ok tt)
        × (calls (sweep_each p c now l st).1.events ≡ calls st.events ++ revocations p now l)
  unfolding sweep_each ◌>>=◌ attempt pure delete_config_map perform
  sweep_each-revocations [] st = (refl, sym (++-nil (calls st.events)))
  sweep_each-revocations (cm ∷ l) st = elim (Bool-cases (expired p cm now)) [
    | inl h ↦
        let after : State c = (attempt (delete_config_map c cm.namespace cm.name) st).1 in
        let rest = sweep_each-revocations l after in
        rw h (
          rest.0,
          rest.1
              ∙ ap (λ x. x ++ revocations p now l) (calls-append st.events _)
              ∙ ++-assoc (calls st.events) _ (revocations p now l),
        )
    | inr h ↦ rw h (sweep_each-revocations l st)
  ]

-- Where the platform is read and names a gateway namespace, and the list of its registrations is
-- answered, a sweep deletes each listed registration that is expired at the clock's time, once and
-- in the list's order, and no other. It goes on past deletions that fail, and succeeds.
pub sweep-revokes :
    (p : Packages) (c : Cluster) (st : State c) (platform : AgentGatewayPlatform)
    (l : List ConfigMap) (w w' w'' : c.World) (now : ℤ)
    → c.get_platform singleton_name st.world ≡ (ok platform, w)
    → str_eq (teardown_namespace platform) "" ≡ false
    → c.list_config_maps (teardown_namespace platform) registration_label "true" w ≡ (ok l, w')
    → c.now w' ≡ (now, w'')
    → ((sweep p c st).0 ≡ ok tt)
      × (calls (sweep p c st).1.events ≡ calls st.events ++ revocations p now l)
unfolding sweep ◌>>=◌ gateway_namespace_from_platform get_platform with_platform sweep_in
    sweep_listed list_config_maps clock
sweep-revokes p c st platform l w w' w'' now got named listed time =
    rw (got, named, listed, time) (sweep_each-revocations p c now l (record st { world = w'' }))

module _ (p : Packages) (s : AgentGatewaySession) (ns : String) (key : Text) (expires_at now : ℤ)
    (budget : ResolvedTokenBudget) (cost : ResolvedCostBudget) where
  expired-published :
      (let e = desired_entry p s key expires_at budget cost in
        p.json_unmarshal (p.json_marshal e) ≡ some e)
      → p.parse_rfc3339 (p.format_rfc3339 expires_at) ≡ some expires_at
      → expired p
          (desired_config_map s ns (p.json_marshal (desired_entry p s key expires_at budget cost)))
          now
        ≡ not (ltb_ℤ now expires_at)
  unfolding expired all_expired desired_config_map entry_expired desired_entry
  expired-published readable round_trip =
      rw
        (
          parse_registration-marshal p (desired_entry p s key expires_at budget cost) readable,
          (build_registration-fields p (inputs p s key expires_at budget cost)).1,
          round_trip,
        )
        (ground arith)

  -- The registration that is published for a grant is one that the sweep revokes exactly from the
  -- grant's time of expiry on, where the time is one that RFC 3339 text preserves.
  pub expired-published_iff :
      (let e = desired_entry p s key expires_at budget cost in
        p.json_unmarshal (p.json_marshal e) ≡ some e)
      → p.parse_rfc3339 (p.format_rfc3339 expires_at) ≡ some expires_at
      → (expired p
            (desired_config_map s ns
              (p.json_marshal (desired_entry p s key expires_at budget cost)))
            now
          ≡ true)
        ↔ (expires_at ≤ℤ now)
  expired-published_iff readable round_trip =
      rw (expired-published readable round_trip) (ground arith)
