-- ===== src/Connection/Reading.antt =====
-- The parts of the text of the URL that `SetupPostgresConnection` connects to.
use postgres_config_operator.Base.{
  ◌≢◌, ◌⊎◌, All-map, ℕ, String, ◌<>◌, ◌<◌, Bool, true, false, Option, none, some, List, [], ◌∷◌,
  ◌++◌, ◌≡◌, refl, arith, All, All-append, bytes, bytes-append, decimal-IsDigit, IsDigit, ◌&&◌, not,
  Bool-cases, inl, inr, length, eqb, decimal, if◌then◌else◌,
}
use postgres_config_operator.Connection.Escape.{
  Encoding, decode, encode_host, encode_path, encode_user_password, escape, hex, ready,
  should_escape,
}
use postgres_config_operator.Connection.UrlText.{valid_encoded, decodes_to, eq_bytes, escaped_path}
use postgres_config_operator.Connection.Cutting.{
  IsFree, IsEscaped, HasLength, decode-length, escape-IsFree,
}

-- Each character of the text stands for a byte.
abbrev pub IsBytes : String → Type 0
IsBytes s = All (λ c. c < 256) (bytes s)

-- `RawPath` is the name of the database and `Path` has a slash in front of it, so the one is never an
-- encoding of the other.
length-eq_bytes : (xs ys : List ℕ) → eq_bytes xs ys ≡ true → length xs ≡ length ys
length-eq_bytes [] [] e = refl
length-eq_bytes [] (y ∷ ys) e = cc
length-eq_bytes (x ∷ xs) [] e = cc
length-eq_bytes (x ∷ xs) (y ∷ ys) e = ground (arith, length-eq_bytes xs ys)

decodes_to-longer :
    (o : Option (List ℕ)) (n : ℕ) (path : List ℕ)
    → HasLength o n
    → n < length path
    → decodes_to o path ≡ false
decodes_to-longer none n path h longer = refl
decodes_to-longer (some r) n path h longer = elim (Bool-cases (eq_bytes r path)) [
  | inl same ↦ let e : length r ≡ length path = length-eq_bytes r path same in absurd (omega arith)
  | inr other ↦ other
]

if_never : (a b c : Bool) (x y : List ℕ) → c ≡ false → (if a && (b && c) then x else y) ≡ y
if_never a b c x y e = ground arith

pub escaped_path-rooted :
    (raw : List ℕ) → escaped_path raw (b'/' ∷ raw) ≡ escape encode_path (b'/' ∷ raw)
unfolding escaped_path
escaped_path-rooted raw =
    if_never (not (eq_bytes raw [])) (valid_encoded raw)
      (decodes_to (decode ready raw) (b'/' ∷ raw)) raw (escape encode_path (b'/' ∷ raw))
      (decodes_to-longer (decode ready raw) (length raw) (b'/' ∷ raw) (decode-length ready raw)
        (omega arith))

escape-append :
    (mode : Encoding) (xs ys : List ℕ) → escape mode (xs ++ ys) ≡ escape mode xs ++ escape mode ys
unfolding escape
escape-append mode [] ys = refl
escape-append mode (x ∷ xs) ys =
    let ih : escape mode (xs ++ ys) ≡ escape mode xs ++ escape mode ys = escape-append mode xs ys in
    elim (Bool-cases (should_escape mode x)) [
      | inl escaped ↦ rw (escaped, ih)
      | inr plain ↦ rw (plain, ih)
    ]

digit_plain : (c : ℕ) → IsDigit c → should_escape encode_host c ≡ false
unfolding should_escape
digit_plain c h = ground arith

escape-digits : (s : List ℕ) → All IsDigit s → escape encode_host s ≡ s
unfolding escape
escape-digits [] h = refl
escape-digits (c ∷ s) h = rw (digit_plain c h.0, escape-digits s h.1)

-- A host and its port, as the text of the URL has them
abbrev pub host_text : String → ℕ → List ℕ
host_text host port = escape encode_host (bytes host) ++ (b':' ∷ bytes (decimal port))

colon_host : (s : List ℕ) → escape encode_host (b':' ∷ s) ≡ b':' ∷ escape encode_host s
unfolding escape should_escape
colon_host s = refl

pub escape-host :
    (host : String) (port : ℕ)
    → escape encode_host (bytes (host <> ":" <> decimal port)) ≡ host_text host port
unfolding bytes
escape-host host port = rw (
  bytes-append host (":" <> decimal port),
  bytes-append ":" (decimal port),
  escape-append encode_host (bytes host) (b':' ∷ bytes (decimal port)),
  colon_host (bytes (decimal port)),
  escape-digits (bytes (decimal port)) (decimal-IsDigit port),
)

pub slash_path : (s : List ℕ) → escape encode_path (b'/' ∷ s) ≡ b'/' ∷ escape encode_path s
unfolding escape should_escape
slash_path s = refl

hex_other : (n x : ℕ) → n < 16 → (x < b'0') ⊎ ((b'9' < x) × (x < b'A')) → eqb (hex n) x ≡ false
unfolding hex
hex_other n x small out = ground arith

pub slash-IsEscaped : (mode : Encoding) → (mode ≢ encode_path) → IsEscaped b'/' mode
unfolding should_escape
slash-IsEscaped encode_path other = absurd (other refl)
slash-IsEscaped encode_user_password other =
    (refl, refl, λ n small. hex_other n b'/' small (inl (omega arith)))
slash-IsEscaped encode_host other =
    (refl, refl, λ n small. hex_other n b'/' small (inl (omega arith)))

pub at-IsEscaped : IsEscaped b'@' encode_host
unfolding should_escape
at-IsEscaped = (refl, refl, λ n small. hex_other n b'@' small (inr (omega arith, omega arith)))

pub colon-IsEscaped : IsEscaped b':' encode_user_password
unfolding should_escape
colon-IsEscaped = (refl, refl, λ n small. hex_other n b':' small (inr (omega arith, omega arith)))

pub host_text-IsFree :
    (x : ℕ) (host : String) (port : ℕ)
    → IsBytes host
    → IsEscaped x encode_host
    → (x < b'0') ⊎ (b':' < x)
    → IsFree x (host_text host port)
host_text-IsFree x host port h escaped out =
    All-append (λ c. eqb c x ≡ false) (escape encode_host (bytes host))
      (b':' ∷ bytes (decimal port)) (escape-IsFree x encode_host (bytes host) escaped h)
      (ground arith, All-map (bytes (decimal port)) (λ c d. ground arith) (decimal-IsDigit port))
