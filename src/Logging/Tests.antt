-- ===== src/Logging/Tests.antt =====
-- Loggers that are lists of what was added to them
use postgres_config_operator.Base.{String, none, List, [], ◌∷◌, ◌++◌, ◌≡◌, refl}
use postgres_config_operator.Base.GoMap.{lookup}
use postgres_config_operator.Errors.{Result, ok}
use postgres_config_operator.Api.{NamespacedName}
use postgres_config_operator.Logging.{
  Context, logger, other_value, request_logger, request_logger_key, with_request_logger,
}
use postgres_config_operator.Logging.Found.{request_logger-with_request_logger}
use postgres_config_operator.Samples.{at}

abbrev noting : List String → String → NamespacedName → Result (List String)
noting l kind req = ok (kind ∷ req.name ∷ l)

-- A context of another request, and a value that is added behind the logger
abbrev outer : Context (List String)
outer = (request_logger_key, logger ("old" ∷ [])) ∷ []

abbrev added : Context (List String)
added = ("deadline", other_value) ∷ []

added-free : lookup request_logger_key added ≡ none
unfolding lookup
added-free = refl

request_logger-with_request_logger_example :
    (c : Context (List String)) × (with_request_logger noting outer (at "x") "postgrestable" []
      ≡ ok c)
    × (request_logger (added ++ c) ("base" ∷ []) ≡ "postgrestable" ∷ "x" ∷ [])
request_logger-with_request_logger_example =
    request_logger-with_request_logger noting outer added (at "x") "postgrestable" [] ("base" ∷ [])
      ("postgrestable" ∷ "x" ∷ []) refl added-free
