-- ===== src/Connection/Tests.antt =====
-- A connection with the default key for the user and a key of its own for the password.
use postgres_config_operator.Base.{String, List, [], ◌∷◌, ◌≡◌, refl, arith, bytes, decimal, some}
use postgres_config_operator.Effects.{Url, connect, done, get_secret}
use postgres_config_operator.Connection.{
  connection_url, password_key, secret_value, setup_postgres_connection, username_key,
}
use postgres_config_operator.Connection.Escape.{decode, escape, unhex}
use postgres_config_operator.Connection.UrlText.{read_url, url_text}
use postgres_config_operator.Connection.Reading.{IsBytes, host_text}
use postgres_config_operator.Connection.RoundTrip.{read_url-url_text}
use postgres_config_operator.Samples.{app_ref, at, calm, named}

abbrev app_url : Url
app_url = record {
  scheme = "postgres";
  username = "ann";
  password = "pw";
  host = "db:5432";
  path = "/app";
  raw_path = "app";
}

connects :
    setup_postgres_connection calm app_ref (named "x") []
    ≡ done tt (connect app_url ∷ get_secret (at "creds") ∷ [])
unfolding setup_postgres_connection decimal
connects = refl

-- A name and a password with bytes that the text of a URL escapes
abbrev awkward_secret : List (String × String)
awkward_secret = ("POSTGRES_USER", "a:b") ∷ ("pass", "p@%") ∷ []

app-IsBytes : IsBytes app_ref.host × IsBytes app_ref.database
unfolding bytes
app-IsBytes = ground arith

awkward-IsBytes :
    IsBytes (secret_value (username_key app_ref) awkward_secret)
    × IsBytes (secret_value (password_key app_ref) awkward_secret)
unfolding bytes secret_value username_key password_key
awkward-IsBytes = ground arith

read_url-url_text_example :
    read_url (url_text (connection_url app_ref awkward_secret))
    ≡ some (record {
      user = bytes (secret_value (username_key app_ref) awkward_secret);
      password = bytes (secret_value (password_key app_ref) awkward_secret);
      host = host_text app_ref.host app_ref.port;
      path = b'/' ∷ bytes app_ref.database;
    })
read_url-url_text_example =
    read_url-url_text app_ref awkward_secret app-IsBytes.0 app-IsBytes.1 awkward-IsBytes.0
      awkward-IsBytes.1

writes :
    url_text (connection_url app_ref awkward_secret) ≡ bytes "postgres://a%3Ab:p%40%25@db:5432/app"
unfolding url_text connection_url bytes decimal escape decode unhex
writes = refl
