-- ===== src/Web/Errors.antt =====
-- pkg/errors/errors.go, and the errors of Go that the word service returns for those of the model.
-- The messages of the database are the argument `detail`.
use censorhub.Prelude.{ℕ, Option, none, some, ◌++◌}
use censorhub.Text.{Text, runes}
use censorhub.Domain.Word.{WordError, empty_text, text_too_long, bad_category, bad_level}
use censorhub.Words.Manage.{
  ServiceError, word_already_exists, word_not_found, invalid_category, invalid_risk_level,
  invalid_request, import_failed, database_error,
}

pub record BizError : Type 0 where
  pub code : ℕ
  pub message : Text
  pub http_status : ℕ

unfoldable pub new_biz_error : ℕ → Text → ℕ → BizError
new_biz_error code message http_status = record {
  code = code;
  message = message;
  http_status = http_status;
}

unfoldable pub err_word_already_exists : BizError
unfolding new_biz_error
err_word_already_exists = new_biz_error 10001 (runes "word already exists") 409

unfoldable pub err_word_not_found : BizError
unfolding new_biz_error
err_word_not_found = new_biz_error 10002 (runes "word not found") 404

unfoldable pub err_invalid_category : BizError
unfolding new_biz_error
err_invalid_category = new_biz_error 10003 (runes "invalid category") 400

unfoldable pub err_invalid_risk_level : BizError
unfolding new_biz_error
err_invalid_risk_level = new_biz_error 10004 (runes "invalid risk level") 400

unfoldable pub err_import_failed : BizError
unfolding new_biz_error
err_import_failed = new_biz_error 10006 (runes "import failed") 500

unfoldable pub err_invalid_request : BizError
unfolding new_biz_error
err_invalid_request = new_biz_error 10009 (runes "invalid request") 400

unfoldable pub err_internal : BizError
unfolding new_biz_error
err_internal = new_biz_error 10010 (runes "internal server error") 500

-- An error that is a `*BizError`, or another one, by its message.
pub data GoError : Type 0 where
  biz : BizError → GoError
  other : Text → GoError

unfoldable pub is_biz_error : GoError → Option BizError
is_biz_error (biz e) = some e
is_biz_error (other message) = none

unfoldable pub wrap : BizError → Text → BizError
wrap err detail = record {
  code = err.code;
  message = err.message ++ runes ": " ++ detail;
  http_status = err.http_status;
}

-- The messages of `Validate`.
unfoldable pub word_error_text : WordError → Text
word_error_text empty_text = runes "word text cannot be empty"
word_error_text text_too_long = runes "word text exceeds maximum length"
word_error_text bad_category = runes "invalid category"
word_error_text bad_level = runes "invalid risk level"

unfoldable pub service_error : Text → ServiceError → GoError
unfolding err_word_already_exists err_word_not_found err_invalid_category err_invalid_risk_level
    err_import_failed err_invalid_request wrap word_error_text
service_error detail word_already_exists = biz err_word_already_exists
service_error detail word_not_found = biz err_word_not_found
service_error detail invalid_category = biz err_invalid_category
service_error detail invalid_risk_level = biz err_invalid_risk_level
service_error detail (invalid_request e) = biz (wrap err_invalid_request (word_error_text e))
service_error detail import_failed = biz (wrap err_import_failed detail)
service_error detail database_error = other detail
