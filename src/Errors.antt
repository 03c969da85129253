-- ===== src/Errors.antt =====
-- internal/pkg/rpaas/errors.go: the errors that the manager returns, and Go's `(value, error)`.
-- A message is the constant format of the source's text: the arguments put into it are left out.
use rpaas_operator.Prelude.{String, Bool, true, false}

-- The reasons that the Kubernetes API gives for an error, as far as the code tells them apart.
pub data ApiReason : Type 0 where
  is_missing already_exists has_conflict bad_request other_reason : ApiReason

pub data Error : Type 0 where
  not_modified validation conflict not_found : String → Error
  api : ApiReason → Error
  plain : String → Error

unfoldable pub is_not_modified_error : Error → Bool
is_not_modified_error (not_modified _) = true
is_not_modified_error _ = false

unfoldable pub is_validation_error : Error → Bool
is_validation_error (validation _) = true
is_validation_error (api bad_request) = true
is_validation_error _ = false

unfoldable pub is_conflict_error : Error → Bool
is_conflict_error (conflict _) = true
is_conflict_error (api has_conflict) = true
is_conflict_error _ = false

unfoldable pub is_not_found_error : Error → Bool
is_not_found_error (not_found _) = true
is_not_found_error (api is_missing) = true
is_not_found_error _ = false
