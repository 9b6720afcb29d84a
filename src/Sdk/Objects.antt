-- ===== src/Sdk/Objects.antt =====
-- The objects that the platform and the catalog controllers write beside the custom resources of
-- this operator, and the API server's calls for them, as a parameter.
use agentgateway_educates_op.Base.{String, Bool, Option, List, Text, Dict}
use agentgateway_educates_op.Base.Int.{ℤ}
use agentgateway_educates_op.Sdk.Errors.{Answer}
use agentgateway_educates_op.Sdk.Json.{Fields}

-- An unstructured.Unstructured: `contents` is its Object without the type and the metadata.
pub record Custom : Type 0 where
  pub group : String
  pub version : String
  pub kind : String
  pub namespace : String
  pub name : String
  pub labels : Dict String
  pub contents : Fields

pub record ServicePort : Type 0 where
  pub name : String
  pub port : ℤ
  pub target_port : ℤ

-- The fields of an appsv1.DeploymentSpec that ratelimit.go sets, for one container.
pub record Container : Type 0 where
  pub name : String
  pub image : String
  pub command : List String
  pub args : List String
  pub env : List (String × Text)
  pub ports : List (String × ℤ)
  pub config_mounts : List (String × String)
  pub allow_privilege_escalation : Bool
  pub dropped_capabilities : List String

pub record DeploymentSpec : Type 0 where
  pub replicas : ℤ
  pub selector : Dict String
  pub pod_labels : Dict String
  pub run_as_non_root : Bool
  pub run_as_user : Option ℤ
  pub run_as_group : Option ℤ
  pub fs_group : Option ℤ
  pub container : Container
  -- a volume's name with the config map that fills it
  pub config_volumes : List (String × String)

-- The part of an object that `applyOwned` writes onto the live one.
pub data Body : Type 0 where
  config_data : Dict Text → Body
  deployment_spec : DeploymentSpec → Body
  service_spec : Dict String → List ServicePort → Body

pub data OwnedKind : Type 0 where
  config_map_kind deployment_kind service_kind : OwnedKind

-- A corev1.ConfigMap, an appsv1.Deployment or a corev1.Service; `controller` is the name of the
-- platform that its controller reference points at.
pub record OwnedObject : Type 0 where
  pub kind : OwnedKind
  pub namespace : String
  pub name : String
  pub labels : Dict String
  pub controller : Option String
  pub body : Body

-- A write of one of them.
pub data ObjectCall : Type 0 where
  custom_create custom_update : Custom → ObjectCall
  custom_delete : Custom → ObjectCall
  owned_create owned_update : OwnedObject → ObjectCall

pub record ObjectStore (World : Type 0) : Type 0 where
  -- by group, kind, namespace and name
  pub get_custom : String → String → String → String → World → Answer Custom × World
  -- by group, kind and namespace, with a label and its value
  pub list_custom :
      String → String → String → String → String → World → Answer (List Custom) × World
  pub get_owned : OwnedKind → String → String → World → Answer OwnedObject × World
  pub write : ObjectCall → World → Answer (Unit {0}) × World
  -- status.conditions of a Deployment: the type, and whether the status is True
  pub deployment_conditions : String → String → World → Answer (List (String × Bool)) × World
  -- RESTMapper().RESTMapping at a group, a kind and a version, the mapper's Reset where it has
  -- one, and the kinds that Discovery.ServerResourcesForGroupVersion lists
  pub rest_mapping : String → String → String → World → Answer (Unit {0}) × World
  pub mapper_resettable : World → Bool
  pub reset_mapper : World → World
  pub server_resources : String → World → Answer (List String) × World
