-- ===== src/Errors.antt =====
-- Go's `error` values: those of `controllers/utils/errors.go`, those that `fmt.Errorf` makes, and
-- those that the libraries return. A nil error is a result `ok`.
use postgres_config_operator.Base.{String, ◌<>◌, Bool, false, ◌==◌}

pub data Err : Type 0 where
  -- `errors.New(text)`, `fmt.Errorf` without `%w`, and any other error of a library
  plain : String → Err
  -- `fmt.Errorf(prefix + ": %w", err)`
  wrapped : String → Err → Err
  -- `fmt.Errorf(prefix + "%w", err)`
  prefixed : String → Err → Err
  -- `*pgconn.PgError`: its SQLSTATE code, and what its `Error()` gives
  pg_error : String → String → Err
  -- an API error for which `apierrors.IsNotFound` holds
  not_found : String → Err
  -- a panic of the Go runtime
  panic : String → Err
  err_get_secret : Err → Err
  err_failed_connect_postgres : Err → Err

pub data Result {ℓ} (A : Type ℓ) : Type ℓ where
  ok : A → Result A
  err : Err → Result A

-- `err.Error()`
unfoldable pub error_text : Err → String
error_text (plain text) = text
error_text (wrapped prefix e) = prefix <> ": " <> error_text e
error_text (prefixed prefix e) = prefix <> error_text e
error_text (pg_error code text) = text
error_text (not_found text) = text
error_text (panic text) = text
error_text (err_get_secret e) = "failed to get Secret: " <> error_text e
error_text (err_failed_connect_postgres e) = "failed to connect to PostgreSQL: " <> error_text e

-- `pgErr, ok := err.(*pgconn.PgError); ok && pgErr.Code == code`. The assertion does not look
-- through wrapped errors.
unfoldable pub has_code : Err → String → Bool
has_code (pg_error code _) wanted = code == wanted
has_code _ wanted = false
