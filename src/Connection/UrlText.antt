-- ===== src/Connection/UrlText.antt =====
-- The text of the URL that `SetupPostgresConnection` connects to, `connURL.String()`, and its reader.
use mathlib.Core.Option
use postgres_config_operator.Base.{
  ℕ, Bool, true, false, ◌&&◌, not, Option, none, some, List, [], ◌∷◌, ◌++◌, if◌then◌else◌, eqb,
  bytes,
}
use postgres_config_operator.Effects.{Url}
use postgres_config_operator.Connection.Escape.{
  decode, encode_host, encode_path, encode_user_password, escape, one_of, ready, should_escape,
}

abbrev pub eq_bytes : List ℕ → List ℕ → Bool
eq_bytes [] [] = true
eq_bytes (x ∷ xs) (y ∷ ys) = eqb x y && eq_bytes xs ys
eq_bytes _ _ = false

-- `validEncoded`, for a path
abbrev pub valid_encoded : List ℕ → Bool
valid_encoded [] = true
valid_encoded (c ∷ cs) =
    (if one_of
        (b'!' ∷ b'$' ∷ b'&' ∷ 39 ∷ b'(' ∷ b')' ∷ b'*' ∷ b'+' ∷ b',' ∷ b';' ∷ b'=' ∷ b':' ∷ b'@'
          ∷ b'[' ∷ b']' ∷ b'%' ∷ [])
        c
      then true
      else not (should_escape encode_path c))
    && valid_encoded cs

abbrev pub decodes_to : Option (List ℕ) → List ℕ → Bool
decodes_to none path = false
decodes_to (some p) path = eq_bytes p path

-- `EscapedPath`: the raw path, if it is an encoding of the path
unfoldable pub escaped_path : List ℕ → List ℕ → List ℕ
escaped_path raw path =
    if not (eq_bytes raw []) && (valid_encoded raw && decodes_to (decode ready raw) path)
    then raw
    else if eq_bytes path (b'*' ∷ [])
    then b'*' ∷ []
    else escape encode_path path

-- `User.String()`, where the password is set
unfoldable pub user_text : List ℕ → List ℕ → List ℕ
user_text username password =
    escape encode_user_password username ++ (b':' ∷ escape encode_user_password password)

-- A slash in front of a path that has none, behind a host
abbrev pub rooted : List ℕ → List ℕ → List ℕ
rooted host [] = []
rooted host (c ∷ path) =
    if not (eqb c b'/') && not (eq_bytes host []) then b'/' ∷ c ∷ path else c ∷ path

-- `String()`, of a URL with a scheme and a user
unfoldable pub url_text : Url → List ℕ
unfolding user_text escaped_path
url_text u =
    bytes u.scheme
    ++ (b':'
        ∷ b'/'
        ∷ b'/'
        ∷ (user_text (bytes u.username) (bytes u.password)
            ++ (b'@'
                ∷ (escape encode_host (bytes u.host)
                    ++ rooted (bytes u.host) (escaped_path (bytes u.raw_path) (bytes u.path))))))

-- A text up to the first byte of a kind, and what follows that byte
unfoldable pub cut : ℕ → List ℕ → Option (List ℕ × List ℕ)
cut x [] = none
cut x (c ∷ cs) =
    let rest = Option.map (λ (p : List ℕ × List ℕ). (c ∷ p.0, p.1)) (cut x cs) in
    if eqb c x then some ([], cs) else rest

-- The same, at the last such byte
abbrev cut_here : ℕ → ℕ → List ℕ → Option (List ℕ × List ℕ) → Option (List ℕ × List ℕ)
cut_here x c cs (some p) = some (c ∷ p.0, p.1)
cut_here x c cs none = if eqb c x then some ([], cs) else none

unfoldable pub cut_last : ℕ → List ℕ → Option (List ℕ × List ℕ)
cut_last x [] = none
cut_last x (c ∷ cs) = cut_here x c cs (cut_last x cs)

pub record ReadUrl : Type 0 where
  pub user : List ℕ
  pub password : List ℕ
  pub host : List ℕ
  pub path : List ℕ

abbrev pub after_prefix : List ℕ → List ℕ → Option (List ℕ)
after_prefix [] s = some s
after_prefix (x ∷ xs) [] = none
after_prefix (x ∷ xs) (c ∷ cs) = if eqb c x then after_prefix xs cs else none

abbrev pub read_parts :
    List ℕ → Option (List ℕ) → Option (List ℕ) → Option (List ℕ) → Option ReadUrl
read_parts host (some u) (some p) (some path) =
    some (record { user = u; password = p; host = host; path = path })
read_parts host _ _ _ = none

infixl 5 ◌>>=◌
abbrev pub ◌>>=◌ : {A B : Type 0} → Option A → (A → Option B) → Option B
none >>= f = none
some a >>= f = f a

-- How a URL is read: the authority ends at the first slash, the user's part of it at the last at
-- sign, and the user's name at the first colon. The host is left as it is.
unfoldable pub read_url : List ℕ → Option ReadUrl
unfolding bytes
read_url s = do
  rest ← after_prefix (bytes "postgres://") s
  outer ← cut b'/' rest
  authority ← cut_last b'@' outer.0
  info ← cut b':' authority.0
  read_parts authority.1 (decode ready info.0) (decode ready info.1) (decode ready (b'/' ∷ outer.1))
