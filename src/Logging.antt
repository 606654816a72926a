-- ===== src/Logging.antt =====
-- `WithRequestLogger` and `RequestLogger` of `controllers/utils/utils.go`.
mod Found
mod Tests
use postgres_config_operator.Base.{String, Option, none, some, List, [], ◌∷◌}
use postgres_config_operator.Base.GoMap.{GoMap, lookup}
use postgres_config_operator.Errors.{Result, ok, err}
use postgres_config_operator.Api.{NamespacedName}

-- `contextKeyRequestLogger`. A `contextKey` is a text of a type of its own.
abbrev pub request_logger_key : String
request_logger_key = "request-logger"

-- What a context carries: a logger, or a value of another type. `L` is `logr.Logger`.
pub data Value (L : Type 0) : Type 0 where
  logger : L → Value L
  other_value : Value L

-- A context, as the values under keys of the type `contextKey`, the last one first
abbrev pub Context : Type 0 → Type 0
Context L = GoMap (Value L)

module _ {L : Type 0} where
  abbrev pub logger_or : L → Option (Value L) → L
  logger_or base none = base
  logger_or base (some (logger l)) = l
  logger_or base (some other_value) = base

  -- `RequestLogger`
  unfoldable pub request_logger : Context L → L → L
  unfolding lookup
  request_logger ctx base = logger_or base (lookup request_logger_key ctx)

  -- `with_values` is `WithValues` of the library, with one key.
  module _ (with_values : L → String → NamespacedName → Result L) where
    abbrev pub with_logger : Context L → Result L → Result (Context L)
    with_logger ctx (ok l) = ok ((request_logger_key, logger l) ∷ ctx)
    with_logger ctx (err e) = err e

    -- `WithRequestLogger`
    unfoldable pub with_request_logger :
        Context L → NamespacedName → String → L → Result (Context L)
    with_request_logger ctx req kind base = with_logger ctx (with_values base kind req)
