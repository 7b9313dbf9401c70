-- ===== src/Db/Error.antt =====
-- db/sqlc/error.go, and the values of Go's `error` that the code tells apart.
use go2bank.Prelude.{ℕ, String, Bool, true, false}

-- `invalid_request` is what gin's binding returns for a request that it refuses.
-- `currency_mismatch` holds what its text shows: the account's id and the two currencies.
-- `pg_error` is a *pgconn.PgError with its SQLSTATE. `tx_error` is what `execTx` returns where the
-- rollback fails too: it prints both errors and wraps neither.
pub data Error : Type 0 where
  no_rows insufficient_balance invalid_request : Error
  pg_error message : String → Error
  tx_error : Error → Error → Error
  currency_mismatch : ℕ → String → String → Error

abbrev pub foreign_key_violation : String
foreign_key_violation = "23503"

abbrev pub unique_violation : String
unique_violation = "23505"

-- `ErrorCode`
unfoldable pub error_code : Error → String
error_code (pg_error code) = code
error_code _ = ""

-- `errors.Is(err, ErrRecordNotFound)`
abbrev pub is_record_not_found : Error → Bool
is_record_not_found no_rows = true
is_record_not_found _ = false

-- `errors.Is(err, ErrInsufficientBalance)`
abbrev pub is_insufficient_balance : Error → Bool
is_insufficient_balance insufficient_balance = true
is_insufficient_balance _ = false
