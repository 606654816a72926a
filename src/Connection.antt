-- ===== src/Connection.antt =====
-- `SetupPostgresConnection` of `controllers/utils/utils.go`.
pub mod Escape
pub mod UrlText
pub mod Cutting
pub mod Reading
mod RoundTrip
pub mod Tests
use postgres_config_operator.Base.{String, ◌<>◌, List, [], ◌∷◌, ◌==◌, if◌then◌else◌, decimal}
use postgres_config_operator.Errors.{err_get_secret, err_failed_connect_postgres}
use postgres_config_operator.Api.{PostgresRef, ObjectMeta, NamespacedName}
use postgres_config_operator.Effects.{Url, M, perform, attempt, fail, get_secret, connect, return}
use postgres_config_operator.Effects.World.{World}

-- `string(m[key])` for a map of byte texts: the empty text where the key is missing.
unfoldable pub secret_value : String → List (String × String) → String
secret_value key [] = ""
secret_value key ((k, v) ∷ m) = if k == key then v else secret_value key m

-- `if len(given) > 0 { key = given }`
abbrev key_or : String → String → String
key_or given key = if given == "" then key else given

unfoldable pub username_key : PostgresRef → String
username_key ref = key_or ref.secret_ref.username_key "POSTGRES_USER"

unfoldable pub password_key : PostgresRef → String
password_key ref = key_or ref.secret_ref.password_key "POSTGRES_PASSWORD"

unfoldable pub connection_url : PostgresRef → List (String × String) → Url
unfolding secret_value username_key password_key
connection_url ref m = record {
  scheme = "postgres";
  username = secret_value (username_key ref) m;
  password = secret_value (password_key ref) m;
  host = ref.host <> ":" <> decimal ref.port;
  path = "/" <> ref.database;
  raw_path = ref.database;
}

abbrev pub secret_name : PostgresRef → ObjectMeta → NamespacedName
secret_name ref obj = record { name = ref.secret_ref.secret_name; namespace = obj.namespace }

unfoldable pub setup_postgres_connection : World → PostgresRef → ObjectMeta → M (Unit {0})
unfolding connection_url
setup_postgres_connection w ref obj =
    let name = secret_name ref obj in
    attempt (perform (get_secret name) (λ h. w.secret_at h name)) (λ e. fail (err_get_secret e))
      (λ secret.
        let url = connection_url ref secret in
        attempt (perform (connect url) (λ h. w.connected h url))
          (λ e. fail (err_failed_connect_postgres e)) return)
