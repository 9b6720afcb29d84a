-- ===== src/Sdk/Releases.antt =====
-- Helm's releases and charts, as far as the code reads them, and the Helm SDK as a parameter
-- (action.Get, Install, Upgrade, Rollback, Uninstall and History of helm.sh/helm/v4).
use agentgateway_educates_op.Base.{String, Bool, Option, List, Text, Dict}
use agentgateway_educates_op.Base.Int.{ℤ}
use agentgateway_educates_op.Sdk.Errors.{Answer}
use agentgateway_educates_op.Sdk.Json.{Fields}

-- The statuses of helm.sh/helm/v4/pkg/release/common.
pub data ReleaseStatus : Type 0 where
  unknown deployed uninstalled superseded failed_release uninstalling : ReleaseStatus
  pending_install pending_upgrade pending_rollback : ReleaseStatus

pub record ReleaseInfo : Type 0 where
  pub status : ReleaseStatus
  pub description : Text

-- `version` is that of the chart's metadata, `none` where the metadata is a nil pointer, and
-- `archive` what else it holds.
pub record Chart : Type 0 where
  pub version : Option String
  pub archive : Text

-- `config` is `none` where the map is nil.
pub record Release : Type 0 where
  pub name : String
  pub version : ℤ
  pub info : Option ReleaseInfo
  pub chart : Option Chart
  pub config : Option Fields
  pub labels : Dict String

-- Helm's interface release.Releaser: nil, a *v1.Release, or another type.
pub data Releaser : Type 0 where
  nil_release other_release : Releaser
  v1_release : Release → Releaser

-- The fields of action.Install that the code sets, with the name's arguments.
pub record InstallRequest : Type 0 where
  pub release_name : String
  pub labels : Dict String
  pub skip_crds : Bool
  pub create_namespace : Bool
  pub wait_strategy : String
  pub timeout : ℤ
  pub chart : Option Chart
  pub values : Option Fields

pub record UpgradeRequest : Type 0 where
  pub release_name : String
  pub labels : Dict String
  pub wait_strategy : String
  pub timeout : ℤ
  pub chart : Option Chart
  pub values : Option Fields

pub record RollbackRequest : Type 0 where
  pub release_name : String
  pub version : ℤ
  pub cleanup_on_fail : Bool
  pub wait_strategy : String
  pub timeout : ℤ

pub record UninstallRequest : Type 0 where
  pub release_name : String
  pub ignore_not_found : Bool
  pub wait_strategy : String
  pub timeout : ℤ

-- A Helm action that writes.
pub data HelmCall : Type 0 where
  install_release : InstallRequest → HelmCall
  upgrade_release : UpgradeRequest → HelmCall
  rollback_release : RollbackRequest → HelmCall
  uninstall_release : UninstallRequest → HelmCall

-- Helm's actions in a namespace. An action that writes answers with a release, which the code
-- ignores where it rolls back or uninstalls.
pub record HelmSdk (World : Type 0) : Type 0 where
  pub get_release : String → String → World → Answer Releaser × World
  pub history : String → String → World → Answer (List Releaser) × World
  pub act : String → HelmCall → World → Answer Releaser × World
