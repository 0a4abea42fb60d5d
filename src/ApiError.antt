-- ===== src/ApiError.antt =====
-- src/api_error.rs: the error that a request ends with, as status, code, message and details.
use executorch_bencher.Prelude.{ℕ, String, Option, none, some}
use executorch_bencher.ArtifactStore.{ArtifactStoreError}
use executorch_bencher.Domain.{InvalidValue}
use executorch_bencher.HostRules.{Message, FieldError}
use executorch_bencher.ModelRegistry.{ModelRegistryError}
use executorch_bencher.Runs.Cursor.{InvalidCursor}

-- A message text of the handlers, as the format string's constructor with its arguments.
pub data ApiMessage : Type 0 where
  plain : String → ApiMessage
  -- "{field}: {message}"
  of_field : String → Message → ApiMessage
  -- "{field}: no registered model asset {id}" and "{field}: no artifact {id}", with the ID's text
  no_model_asset no_artifact : String → String → ApiMessage
  -- "run {id} already exists"
  run_exists : String → ApiMessage
  -- the text of an extractor or a parser, behind the handler's own words
  rejected : String → String → ApiMessage
  -- "invalid artifact kind: {kind:?}"
  invalid_artifact_kind : String → ApiMessage
  -- the text of `ArtifactStoreError::Other`
  of_store : ArtifactStoreError → ApiMessage
  -- "path: {raw} {problem}"
  of_path : String → String → ApiMessage
  -- the text of `ModelRegistryError::Other`, and that of a value that was not accepted
  of_registry : ModelRegistryError → ApiMessage
  of_value : InvalidValue → ApiMessage
  -- the text of a cursor's token that was not accepted
  of_cursor : InvalidCursor → ApiMessage

pub record ApiError : Type 0 where
  pub status : ℕ
  pub code : String
  pub message : ApiMessage
  -- `details.field`
  pub details : Option String

unfoldable pub new_error : ℕ → String → ApiMessage → ApiError
new_error status code message = record {
  status = status;
  code = code;
  message = message;
  details = none;
}

unfoldable pub with_details : ApiError → String → ApiError
with_details e field = record e { details = some field }

unfoldable pub invalid_request : ApiMessage → ApiError
unfolding new_error
invalid_request = new_error 400 "invalid_request"

unfoldable pub not_found : ApiMessage → ApiError
unfolding new_error
not_found = new_error 404 "not_found"

unfoldable pub artifact_file_missing : ApiMessage → ApiError
unfolding new_error
artifact_file_missing = new_error 410 "artifact_file_missing"

unfoldable pub payload_too_large : ApiMessage → ApiError
unfolding new_error
payload_too_large = new_error 413 "payload_too_large"

unfoldable pub conflict : ApiMessage → ApiError
unfolding new_error
conflict = new_error 409 "conflict"

unfoldable pub invalid_field : String → ApiMessage → ApiError
unfolding invalid_request with_details
invalid_field field message = with_details (invalid_request message) field

unfoldable pub not_implemented : ApiMessage → ApiError
unfolding new_error
not_implemented = new_error 501 "not_implemented"

unfoldable pub internal_error : ApiMessage → ApiError
unfolding new_error
internal_error = new_error 500 "internal_error"

-- `impl From<FieldError> for ApiError` (src/runs_write_api.rs)
unfoldable pub from_field_error : FieldError → ApiError
unfolding invalid_field
from_field_error e = invalid_field e.field (of_field e.field e.message)
