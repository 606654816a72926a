-- ===== src/TestUtils/Tests.antt =====
-- An endpoint on the local host, and texts that are no endpoints.
use mathlib.Core.Option
use postgres_config_operator.Base.{
  ◌∷◌, decimal, none, some, [], ◌≡◌, refl, arith, bytes, parse_digits,
}
use postgres_config_operator.Connection.{connection_url, password_key, username_key}
use postgres_config_operator.Connection.Escape.{decode, escape, unhex}
use postgres_config_operator.Connection.UrlText.{url_text}
use postgres_config_operator.TestUtils.{
  connection_text, postgres_container_ref, postgres_password, postgres_user, test_ref,
}
use postgres_config_operator.TestUtils.Endpoint.{connection_url-postgres_container_ref, endpoint_of}

connection_url-postgres_container_ref_example :
    Option.map
      (λ ref. (connection_url ref []).host)
      (postgres_container_ref (endpoint_of "localhost" 49153))
    ≡ some (endpoint_of "localhost" 49153)
unfolding bytes
connection_url-postgres_container_ref_example =
    connection_url-postgres_container_ref "localhost" 49153 [] (ground arith) (omega arith)

wrapped_port : postgres_container_ref "localhost:65537" ≡ some (test_ref "localhost" 1)
unfolding postgres_container_ref bytes parse_digits
wrapped_port = refl

no_port : postgres_container_ref "localhost" ≡ none
unfolding postgres_container_ref
no_port = refl

-- The tests and the controllers connect to one URL.
one_url :
    bytes (connection_text "localhost:49153")
    ≡ url_text (
        connection_url (test_ref "localhost" 49153) (
          (username_key (test_ref "localhost" 49153), postgres_user)
          ∷ (password_key (test_ref "localhost" 49153), postgres_password)
          ∷ []))
unfolding connection_text url_text connection_url bytes decimal escape decode unhex
one_url = refl
