-- ===== src/Connection/RoundTrip.antt =====
-- The URL that `SetupPostgresConnection` connects to, read back from its text.
use mathlib.Core.List.{append_assoc}
use postgres_config_operator.Base.{
  ℕ, String, ◌<>◌, ◌<◌, Option, some, List, ◌∷◌, ◌++◌, ◌≡◌, inl, inr, refl, sym, ap, ◌∙◌, arith,
  All, All-append, bytes, bytes-append, decimal,
}
use postgres_config_operator.Api.{PostgresRef}
use postgres_config_operator.Connection.{connection_url, secret_value, username_key, password_key}
use postgres_config_operator.Connection.Escape.{
  should_escape, decode, decode-escape, encode_host, encode_path, encode_user_password, escape,
  ready,
}
use postgres_config_operator.Connection.UrlText.{
  ◌>>=◌, cut, cut_last, read_parts, read_url, url_text, user_text, rooted,
}
use postgres_config_operator.Connection.Cutting.{IsFree, cut_first, cut_last_one, escape-IsFree}
use postgres_config_operator.Connection.Reading.{
  IsBytes, host_text, host_text-IsFree, escape-host, slash_path, slash-IsEscaped, at-IsEscaped,
  colon-IsEscaped, escaped_path-rooted,
}

bind_some : {A B : Type 0} (o : Option A) (a : A) (f : A → Option B) → o ≡ some a → (o >>= f) ≡ f a
bind_some o a f e = ap (λ x. x >>= f) e

-- The user's part of the authority holds no slash, so that the first slash ends the authority.
user_text-IsFree :
    (u p : List ℕ) → All (λ c. c < 256) u → All (λ c. c < 256) p → IsFree b'/' (user_text u p)
unfolding user_text
user_text-IsFree u p hu hp =
    All-append (λ c. _) (escape encode_user_password u) (b':' ∷ escape encode_user_password p)
      (escape-IsFree b'/' encode_user_password u (slash-IsEscaped encode_user_password (λ e. cc))
        hu)
      (
        refl,
        escape-IsFree b'/' encode_user_password p (slash-IsEscaped encode_user_password (λ e. cc))
            hp,
      )

abbrev authority : List ℕ → List ℕ → List ℕ → List ℕ
authority u p h = user_text u p ++ (b'@' ∷ h)

abbrev behind_scheme : List ℕ → List ℕ → List ℕ → List ℕ → List ℕ
behind_scheme u p h d = user_text u p ++ (b'@' ∷ (h ++ escape encode_path (b'/' ∷ d)))

-- A text of the form that `String` gives, read.
module _ (u p h d : List ℕ) (hu : All (λ c. c < 256) u) (hp : All (λ c. c < 256) p)
    (hd : All (λ c. c < 256) d) (slash : IsFree b'/' h) (at : IsFree b'@' h) where
  cut-authority : cut b'/' (behind_scheme u p h d) ≡ some (authority u p h, escape encode_path d)
  cut-authority =
      ap (λ e. cut b'/' (user_text u p ++ (b'@' ∷ (h ++ e)))) (slash_path d)
      ∙ ap (cut b'/') (sym (append_assoc (user_text u p) (b'@' ∷ h) (b'/' ∷ escape encode_path d)))
      ∙ cut_first b'/' (authority u p h) (escape encode_path d) (
          All-append (λ c. _) (user_text u p) (b'@' ∷ h) (user_text-IsFree u p hu hp) (refl, slash))

  cut_last-authority : cut_last b'@' (authority u p h) ≡ some (user_text u p, h)
  cut_last-authority = cut_last_one b'@' (user_text u p) h at

  cut-user_text :
      cut b':' (user_text u p) ≡ some (escape encode_user_password u, escape encode_user_password p)
  unfolding user_text
  cut-user_text =
      cut_first b':' (escape encode_user_password u) (escape encode_user_password p)
        (escape-IsFree b':' encode_user_password u colon-IsEscaped hu)

  read_text :
      read_url (bytes "postgres://" ++ behind_scheme u p h d)
      ≡ some (record { user = u; password = p; host = h; path = b'/' ∷ d })
  unfolding read_url bytes
  read_text =
      rw
        (
          cut-authority,
          cut_last-authority,
          cut-user_text,
          decode-escape encode_user_password u hu,
          decode-escape encode_user_password p hp,
        )
        (ap (λ s. read_parts h (some u) (some p) (decode ready s)) (sym (slash_path d))
          ∙ ap (read_parts h (some u) (some p))
              (decode-escape encode_path (b'/' ∷ d) (omega arith, hd)))

rooted-slash :
    (host s : List ℕ) → rooted host (escape encode_path (b'/' ∷ s)) ≡ escape encode_path (b'/' ∷ s)
unfolding escape should_escape
rooted-slash host s = refl

url_text-connection_url :
    (ref : PostgresRef) (m : List (String × String))
    → url_text (connection_url ref m)
      ≡ bytes "postgres://"
        ++ behind_scheme
            (bytes (secret_value (username_key ref) m))
            (bytes (secret_value (password_key ref) m))
            (host_text ref.host ref.port)
            (bytes ref.database)
unfolding url_text connection_url bytes
url_text-connection_url ref m = rw (
  bytes-append "/" ref.database,
  escaped_path-rooted (bytes ref.database),
  escape-host ref.host ref.port,
  rooted-slash (bytes (ref.host <> ":" <> decimal ref.port)) (bytes ref.database),
)

-- The text of the URL, read again, gives back the user name and the password that the secret holds
-- under the keys of the reference, the host with its port, and the database behind a slash, whatever
-- bytes they are made of: each character of the four texts stands for one byte. Only the host stays
-- percent-encoded.
pub read_url-url_text :
    (ref : PostgresRef) (m : List (String × String))
    → IsBytes ref.host
    → IsBytes ref.database
    → IsBytes (secret_value (username_key ref) m)
    → IsBytes (secret_value (password_key ref) m)
    → read_url (url_text (connection_url ref m))
      ≡ some (record {
        user = bytes (secret_value (username_key ref) m);
        password = bytes (secret_value (password_key ref) m);
        host = host_text ref.host ref.port;
        path = b'/' ∷ bytes ref.database;
      })
read_url-url_text ref m hh hd hu hp =
    ap read_url (url_text-connection_url ref m)
    ∙ read_text (bytes (secret_value (username_key ref) m))
        (bytes (secret_value (password_key ref) m)) (host_text ref.host ref.port)
        (bytes ref.database) hu hp hd
        (host_text-IsFree b'/' ref.host ref.port hh (slash-IsEscaped encode_host (λ e. cc))
          (inl (omega arith)))
        (host_text-IsFree b'@' ref.host ref.port hh at-IsEscaped (inr (omega arith)))
