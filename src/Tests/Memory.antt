-- ===== src/Tests/Memory.antt =====
-- A cluster that holds its objects in lists, with packages as plain functions.
use agentgateway_educates_op.Base.{
  ℕ, String, ◌≡◌, refl, Bool, true, false, ◌&&◌, Option, none, some, List, [], ◌∷◌, ◌++◌, map, Text,
  ok, err, str_eq, eq_iff, Bool-cases, inl, inr, length, if◌then◌else◌, arith, replicate, Dict,
  lookup, All, suc, zero, ◌*◌,
}
use agentgateway_educates_op.Base.Int.{ℤ, pos, negsuc}
use agentgateway_educates_op.Api.Types.{
  Condition, AgentGatewaySession, AgentGatewayCatalog, AgentGatewayPlatform,
}
use agentgateway_educates_op.Kube.{
  Packages, Cluster, Answer, Error, not_found, other_failure, Namespace, Secret, ConfigMap,
  RegistrationEntry,
}
use agentgateway_educates_op.Kube.Lawful.{IsLawful, RetriesOnly, ListsLabelled}
use agentgateway_educates_op.Sdk.Errors.{driver_release_not_found}
use agentgateway_educates_op.Sdk.Json.{Fields, object}
use agentgateway_educates_op.Sdk.Releases.{
  HelmSdk, HelmCall, Release, Releaser, Chart, v1_release, nil_release, deployed, install_release,
  upgrade_release, rollback_release, uninstall_release,
}
use agentgateway_educates_op.Sdk.Objects.{
  ObjectStore, ObjectCall, Custom, OwnedObject, OwnedKind, config_map_kind, deployment_kind,
  service_kind, custom_create, custom_update, custom_delete, owned_create, owned_update,
}
use agentgateway_educates_op.Session.Watches.{label_at}
use agentgateway_educates_op.Tests.Untyped.{
  at_path, as_list, as_fields, as_number, put, take_out, json_eq, write_fields_of,
}

abbrev set_condition : List Condition → Condition → List Condition
set_condition [] x = x ∷ []
set_condition (y ∷ l) x = if str_eq y.type_name x.type_name then x ∷ l else y ∷ set_condition l x

abbrev find_condition : List Condition → String → Option Condition
find_condition [] t = none
find_condition (x ∷ l) t = if str_eq x.type_name t then some x else find_condition l t

abbrev contains : List String → String → Bool
contains [] f = false
contains (x ∷ l) f = if str_eq x f then true else contains l f

abbrev add : List String → String → List String
add l f = if contains l f then l else f ∷ l

abbrev remove : List String → String → List String
remove [] f = []
remove (x ∷ l) f = if str_eq x f then remove l f else x ∷ remove l f

contains-add : (l : List String) (f : String) → contains (add l f) f ≡ true
contains-add l f = ground (arith, eq_iff f f)

contains-remove : (l : List String) (f : String) → contains (remove l f) f ≡ false
contains-remove [] f = refl
contains-remove (x ∷ l) f = ground (arith, contains-remove l f)

abbrev take_codes : ℕ → Text → Text
take_codes zero t = []
take_codes (suc n) [] = []
take_codes (suc n) (x ∷ t) = x ∷ take_codes n t

abbrev drop_codes : ℕ → Text → Text
drop_codes zero t = t
drop_codes (suc n) [] = []
drop_codes (suc n) (x ∷ t) = drop_codes n t

abbrev field_names : List String
field_names = "costBudget" ∷ "tokenBudget" ∷ "session" ∷ "expiresAt" ∷ "budgetWindow" ∷ []

abbrev position : String → List String → ℕ
position k [] = 0
position k (x ∷ l) = if str_eq x k then 0 else suc (position k l)

abbrev name_at : ℕ → List String → String
name_at n [] = ""
name_at zero (x ∷ l) = x
name_at (suc n) (x ∷ l) = name_at n l

abbrev write_fields : Dict Text → Text
write_fields [] = []
write_fields ((k, v) ∷ m) = position k field_names ∷ (length v ∷ (v ++ write_fields m))

abbrev read_fields : ℕ → Text → Dict Text
read_fields zero t = []
read_fields (suc fuel) (k ∷ (n ∷ t)) =
    (name_at k field_names, take_codes n t) ∷ read_fields fuel (drop_codes n t)
read_fields (suc fuel) _ = []

abbrev read_entry : Text → Option RegistrationEntry
read_entry [] = none
read_entry (n ∷ t) =
    some (record { key_hash = take_codes n t; metadata = read_fields 5 (drop_codes n t) })

abbrev write_time : ℤ → Text
write_time (pos n) = n ∷ []
write_time (negsuc n) = n ∷ (0 ∷ [])

abbrev read_time : Text → Option ℤ
read_time (n ∷ []) = some (pos n)
read_time (n ∷ (m ∷ [])) = some (negsuc n)
read_time _ = none

-- A nil map is the text of an absent number.
abbrev marshal_values : Option Fields → Text
marshal_values none = 0 ∷ []
marshal_values (some m) = write_fields_of m

abbrev pub packages : Packages
packages = record {
  set_status_condition = set_condition;
  find_status_condition = find_condition;
  contains_finalizer = contains;
  add_finalizer = add;
  remove_finalizer = remove;
  sha256_hex = λ t. t;
  base64_encode = λ t. t;
  base64_decode = λ t. some t;
  json_marshal = λ e. length e.key_hash ∷ (e.key_hash ++ write_fields e.metadata);
  json_unmarshal = read_entry;
  parse_duration = λ t. some (pos (length t * 1000));
  format_rfc3339 = write_time;
  parse_rfc3339 = read_time;
  json_marshal_values = marshal_values;
  load_agentgateway_chart = ok (record { version = some "1.5.0"; archive = [] });
  load_agentgateway_crds_chart = ok (record { version = some "1.5.0"; archive = [] });
  platform_reference = λ x. ok (record {
    api_version = "agentgateway.operators.educates.dev/v1alpha1";
    kind = "AgentGatewayPlatform";
    name = x.metadata.name;
    uid = "p";
  });
  nested_slice = λ m path. ok (as_list (at_path path (object m)));
  nested_map = λ m path. ok (as_fields (at_path path (object m)));
  nested_int64 = λ m path. ok (as_number (at_path path (object m)));
  set_nested_field = λ m v path. ok (put path v m);
  remove_nested_field = λ m path. take_out path m;
  deep_equal = json_eq;
}

pub packages-IsLawful : IsLawful packages
packages-IsLawful = record {
  contains-add = contains-add;
  contains-remove = contains-remove;
  decode-encode = λ bytes. refl;
}

pub record Memory : Type 0 where
  pub sessions : List AgentGatewaySession
  pub secrets : List Secret
  pub config_maps : List ConfigMap
  pub namespaces : List Namespace
  pub catalogs : List AgentGatewayCatalog
  pub platforms : List AgentGatewayPlatform
  pub time : ℤ
  pub broken_deletes : Bool
  pub releases : List Release
  pub customs : List Custom
  pub owned : List OwnedObject
  pub deployments : List String

abbrev missing : Error
missing = record { kind = not_found; message = [] }

module _ {A : Type 0} (matches : A → Bool) where
  abbrev find : List A → Answer A
  find [] = err missing
  find (x ∷ l) = if matches x then ok x else find l

  abbrev replace : A → List A → List A
  replace y [] = []
  replace y (x ∷ l) = (if matches x then y else x) ∷ replace y l

  abbrev discard : List A → List A
  discard [] = []
  discard (x ∷ l) = if matches x then discard l else x ∷ discard l

  abbrev keep : List A → List A
  keep [] = []
  keep (x ∷ l) = if matches x then x ∷ keep l else keep l

abbrev named : String → List Release → List Release
named name l = keep (λ r. str_eq r.name name) l

-- The releases are newest first.
abbrev newest : String → List Release → Option Release
newest name [] = none
newest name (r ∷ l) = if str_eq r.name name then some r else newest name l

abbrev releaser : Option Release → Answer Releaser
releaser none = err (record { kind = driver_release_not_found; message = [] })
releaser (some r) = ok (v1_release r)

abbrev released : ℕ → String → Option Chart → Option Fields → Dict String → Release
released revision name chart values labels = record {
  name = name;
  version = pos revision;
  info = some (record { status = deployed; description = [] });
  chart = chart;
  config = values;
  labels = labels;
}

abbrev push_release : Release → Memory → Answer Releaser × Memory
push_release r w = (ok (v1_release r), record w { releases = r ∷ w.releases })

abbrev apply_helm : HelmCall → Memory → Answer Releaser × Memory
apply_helm (install_release x) w =
    push_release (released 1 x.release_name x.chart x.values x.labels) w
apply_helm (upgrade_release x) w =
    push_release
      (released (suc (length (named x.release_name w.releases))) x.release_name x.chart x.values
        x.labels)
      w
apply_helm (rollback_release x) w = (ok nil_release, w)
apply_helm (uninstall_release x) w =
    (ok nil_release, record w { releases = discard (λ r. str_eq r.name x.release_name) w.releases })

abbrev is_custom : String → String → String → Custom → Bool
is_custom kind ns name x = str_eq x.kind kind && (str_eq x.namespace ns && str_eq x.name name)

abbrev has_value : String → Option String → Bool
has_value value none = false
has_value value (some v) = str_eq v value

abbrev has_label : String → String → Custom → Bool
has_label label value x = has_value value (lookup label x.labels)

abbrev is_owned_kind : OwnedKind → OwnedKind → Bool
is_owned_kind config_map_kind config_map_kind = true
is_owned_kind deployment_kind deployment_kind = true
is_owned_kind service_kind service_kind = true
is_owned_kind _ _ = false

abbrev apply_object : ObjectCall → Memory → Memory
apply_object (custom_create x) w = record w { customs = x ∷ w.customs }
apply_object (custom_update x) w = record w {
  customs = replace (is_custom x.kind x.namespace x.name) x w.customs;
}
apply_object (custom_delete x) w = record w {
  customs = discard (is_custom x.kind x.namespace x.name) w.customs;
}
apply_object (owned_create x) w = record w { owned = x ∷ w.owned }
apply_object (owned_update x) w = record w {
  owned = replace (λ y. is_owned_kind y.kind x.kind && str_eq y.name x.name) x w.owned;
}

abbrev is_session : String → String → AgentGatewaySession → Bool
is_session ns name s = str_eq s.metadata.namespace ns && str_eq s.metadata.name name

abbrev is_secret : String → String → Secret → Bool
is_secret ns name s = str_eq s.namespace ns && str_eq s.name name

abbrev is_config_map : String → String → ConfigMap → Bool
is_config_map ns name m = str_eq m.namespace ns && str_eq m.name name

abbrev labelled : String → String → String → List ConfigMap → List ConfigMap
labelled ns label value [] = []
labelled ns label value (m ∷ l) =
    if str_eq m.namespace ns && str_eq (label_at label m.labels) value
    then m ∷ labelled ns label value l
    else labelled ns label value l

abbrev pub memory_helm : HelmSdk Memory
memory_helm = record {
  get_release = λ ns name w. (releaser (newest name w.releases), w);
  history = λ ns name w. (ok (map v1_release (named name w.releases)), w);
  act = λ ns call w. apply_helm call w;
}

abbrev pub memory_objects : ObjectStore Memory
memory_objects = record {
  get_custom = λ group kind ns name w. (find (is_custom kind ns name) w.customs, w);
  list_custom = λ group kind ns label value w.
      (ok (keep (λ x. str_eq x.kind kind && has_label label value x) w.customs), w);
  get_owned =
      λ kind ns name w. (find (λ x. is_owned_kind kind x.kind && str_eq x.name name) w.owned, w);
  write = λ call w. (ok tt, apply_object call w);
  deployment_conditions = λ ns name w. (
    if contains w.deployments name
        then ok (("Available", true) ∷ [])
        else err (record { kind = not_found; message = [] }),
    w,
  );
  rest_mapping = λ group kind version w. (ok tt, w);
  mapper_resettable = λ w. true;
  reset_mapper = λ w. w;
  server_resources = λ group w. (ok ("AgentgatewayModel" ∷ []), w);
}

abbrev pub memory_cluster : Cluster
memory_cluster = record {
  World = Memory;
  get_session = λ ns name w. (find (is_session ns name) w.sessions, w);
  update_session = λ s w. (
    ok s,
    record w { sessions = replace (is_session s.metadata.namespace s.metadata.name) s w.sessions },
  );
  update_session_status = λ s w. (
    ok tt,
    record w { sessions = replace (is_session s.metadata.namespace s.metadata.name) s w.sessions },
  );
  list_sessions = λ w. (ok w.sessions, w);
  get_catalog = λ name w. (find (λ x. str_eq x.name name) w.catalogs, w);
  get_platform = λ name w. (find (λ x. true) w.platforms, w);
  update_platform = λ x w. (ok x, record w { platforms = x ∷ [] });
  update_platform_status = λ x w. (ok tt, record w { platforms = x ∷ [] });
  update_catalog_status =
      λ x w. (ok tt, record w { catalogs = replace (λ y. str_eq y.name x.name) x w.catalogs });
  create_namespace = λ x w. (ok tt, record w { namespaces = x ∷ w.namespaces });
  delete_namespace =
      λ name w. (ok tt, record w { namespaces = discard (λ x. str_eq x.name name) w.namespaces });
  helm = memory_helm;
  objects = memory_objects;
  get_namespace = λ name w. (find (λ x. str_eq x.name name) w.namespaces, w);
  get_secret = λ ns name w. (find (is_secret ns name) w.secrets, w);
  create_secret = λ s w. (ok tt, record w { secrets = s ∷ w.secrets });
  update_secret =
      λ s w. (ok tt, record w { secrets = replace (is_secret s.namespace s.name) s w.secrets });
  get_config_map = λ ns name w. (find (is_config_map ns name) w.config_maps, w);
  create_config_map = λ m w. (ok tt, record w { config_maps = m ∷ w.config_maps });
  update_config_map = λ m w. (
    ok tt,
    record w { config_maps = replace (is_config_map m.namespace m.name) m w.config_maps },
  );
  delete_config_map = λ ns name w.
      if w.broken_deletes
      then (err (record { kind = other_failure; message = [] }), w)
      else (ok tt, record w { config_maps = discard (is_config_map ns name) w.config_maps });
  list_config_maps = λ ns label value w. (ok (labelled ns label value w.config_maps), w);
  now = λ w. (w.time, w);
  random_bytes = λ n w. (ok (replicate n 7), w);
  retry_on_conflict = λ f s. f s;
}

pub memory_cluster-RetriesOnly : RetriesOnly memory_cluster
memory_cluster-RetriesOnly = record {
  retry_keeps = λ S P f k s h. k s h;
  retry_ok = λ S f s h. refl;
}

value-has : (value : String) (o : Option String) → has_value value o ≡ true → o ≡ some value
value-has value none h = cc
value-has value (some v) h = rw ((eq_iff v value).0 h) refl

kept_labelled :
    (kind label value : String) (l : List Custom)
    → All
        (λ u. lookup label u.labels ≡ some value)
        (keep (λ x. str_eq x.kind kind && has_label label value x) l)
kept_labelled kind label value [] = tt
kept_labelled kind label value (x ∷ l) =
    elim (Bool-cases (str_eq x.kind kind && has_label label value x)) [
      | inl h ↦ rw h (
        value-has value (lookup label x.labels) (ground (arith, h)),
        kept_labelled kind label value l,
      )
      | inr h ↦ rw h (kept_labelled kind label value l)
    ]

same_list : (r : Answer (List Custom)) (l m : List Custom) → r ≡ ok l → r ≡ ok m → l ≡ m
same_list r l m d e = cc

pub memory_cluster-ListsLabelled : ListsLabelled memory_cluster
memory_cluster-ListsLabelled = record {
  lists = λ group kind ns label value w l e.
      let kept = keep (λ x. str_eq x.kind kind && has_label label value x) w.customs in
      rw⁻¹ (same_list (ok kept) kept l refl e) (kept_labelled kind label value w.customs);
}
