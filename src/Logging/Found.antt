-- ===== src/Logging/Found.antt =====
-- The logger of a request is found again.
use postgres_config_operator.Base.{
  String, none, some, [], ◌∷◌, ◌++◌, ◌≡◌, refl, ap, ◌∙◌, ◌==◌, eq_refl, Bool-cases, inl, inr,
}
use postgres_config_operator.Base.GoMap.{lookup}
use postgres_config_operator.Errors.{Result, ok}
use postgres_config_operator.Api.{NamespacedName}
use postgres_config_operator.Logging.{
  with_logger, logger_or, Value, Context, logger, request_logger, request_logger_key,
  with_request_logger,
}

module _ {L : Type 0} where
  lookup-append :
      (k : String) (added ctx : Context L)
      → lookup k added ≡ none
      → lookup k (added ++ ctx) ≡ lookup k ctx
  unfolding lookup
  lookup-append k [] ctx free = refl
  lookup-append k ((j, v) ∷ added) ctx free = elim (Bool-cases (j == k)) [
    | inl same ↦ absurd (cc (rw same at free))
    | inr other ↦ rw other (lookup-append k added ctx (rw other at free))
  ]

  lookup-first : (k : String) (v : Value L) (ctx : Context L) → lookup k ((k, v) ∷ ctx) ≡ some v
  unfolding lookup
  lookup-first k v ctx = rw (eq_refl k)

  -- If the base logger takes the values of a request, a context with the request's logger is made;
  -- and whatever values of other keys are added to it, the logger that is found in it is that of
  -- the request, not the base logger and not one of a context around it.
  pub request_logger-with_request_logger :
      (with_values : L → String → NamespacedName → Result L) (ctx added : Context L)
      (req : NamespacedName) (kind : String) (base other_base l : L)
      → with_values base kind req ≡ ok l
      → lookup request_logger_key added ≡ none
      → (c : Context L) × (with_request_logger with_values ctx req kind base ≡ ok c)
        × (request_logger (added ++ c) other_base ≡ l)
  unfolding with_request_logger request_logger
  request_logger-with_request_logger with_values ctx added req kind base other_base l derived free =
      (
        (request_logger_key, logger l) ∷ ctx,
        ap (with_logger with_values ctx) derived,
        ap (logger_or other_base) (
            lookup-append request_logger_key added ((request_logger_key, logger l) ∷ ctx) free
            ∙ lookup-first request_logger_key (logger l) ctx),
      )
