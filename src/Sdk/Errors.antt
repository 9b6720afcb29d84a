-- ===== src/Sdk/Errors.antt =====
-- The errors of client-go, of Helm and of the operator, by the class that the code tells apart.
use agentgateway_educates_op.Base.{Text, Result}

-- apierrors.IsNotFound and so on, driver.ErrReleaseNotFound, and the sentinels errSessionEnding of
-- registration.go and ErrReleaseNotFound of internal/helm/client.go.
pub data ErrorKind : Type 0 where
  not_found already_exists conflict no_match method_not_supported : ErrorKind
  driver_release_not_found release_not_found session_ending other_failure : ErrorKind

pub record Error : Type 0 where
  pub kind : ErrorKind
  pub message : Text

-- A call's answer.
abbrev pub Answer : Type 0 → Type 0
Answer A = Result Error A
