-- ===== src/Connection/Escape.antt =====
-- Percent encoding, as `net/url` does it for the parts of the URL that `SetupPostgresConnection`
-- fills. A Go string is a sequence of bytes, here a list of numbers.
use postgres_config_operator.Base.{
  ℕ, ◌+◌, ◌*◌, ◌/◌, ◌%◌, ◌-◌, ◌<◌, Bool, true, false, ◌&&◌, ◌||◌, Option, none, some, List, [], ◌∷◌,
  ◌≡◌, refl, ap, ◌∙◌, arith, All, if◌then◌else◌, ltb, leb, eqb, Bool-cases, inl, inr,
}
use mathlib.Core.Option

pub data Encoding : Type 0 where
  encode_user_password encode_host encode_path : Encoding

abbrev between : ℕ → ℕ → ℕ → Bool
between lo c hi = leb lo c && leb c hi

-- Letters and digits
abbrev is_alphanumeric : ℕ → Bool
is_alphanumeric c = between b'a' c b'z' || between b'A' c b'Z' || between b'0' c b'9'

abbrev pub one_of : List ℕ → ℕ → Bool
one_of [] c = false
one_of (x ∷ xs) c = eqb c x || one_of xs c

-- Bytes that stand for themselves in a host
abbrev host_bytes : List ℕ
host_bytes =
    b'!' ∷ b'$' ∷ b'&' ∷ 39 ∷ b'(' ∷ b')' ∷ b'*' ∷ b'+' ∷ b',' ∷ b';' ∷ b'=' ∷ b':' ∷ b'[' ∷ b']'
    ∷ b'<' ∷ b'>' ∷ 34 ∷ []

abbrev reserved_bytes : List ℕ
reserved_bytes = b'$' ∷ b'&' ∷ b'+' ∷ b',' ∷ b'/' ∷ b':' ∷ b';' ∷ b'=' ∷ b'?' ∷ b'@' ∷ []

-- Which reserved bytes are escaped
abbrev reserved_escaped : Encoding → ℕ → Bool
reserved_escaped encode_user_password c = one_of (b'@' ∷ b'/' ∷ b'?' ∷ b':' ∷ []) c
reserved_escaped encode_host c = true
reserved_escaped encode_path c = eqb c b'?'

abbrev is_host : Encoding → Bool
is_host encode_host = true
is_host _ = false

-- `shouldEscape`
unfoldable pub should_escape : Encoding → ℕ → Bool
should_escape mode c =
    if is_alphanumeric c
    then false
    else if is_host mode && one_of host_bytes c
    then false
    else if one_of (b'-' ∷ b'_' ∷ b'.' ∷ b'~' ∷ []) c
    then false
    else if one_of reserved_bytes c
    then reserved_escaped mode c
    else true

-- A digit of "0123456789ABCDEF"
unfoldable pub hex : ℕ → ℕ
hex n = if ltb n 10 then b'0' + n else b'A' + (n - 10)

-- `escape`
unfoldable pub escape : Encoding → List ℕ → List ℕ
unfolding should_escape hex
escape mode [] = []
escape mode (c ∷ cs) =
    let rest = escape mode cs in
    if should_escape mode c then b'%' ∷ hex (c / 16) ∷ hex (c % 16) ∷ rest else c ∷ rest

-- The value of a hexadecimal digit
unfoldable pub unhex : ℕ → Option ℕ
unhex c =
    if between b'0' c b'9'
    then some (c - b'0')
    else if between b'A' c b'F'
    then some (c - b'A' + 10)
    else if between b'a' c b'f'
    then some (c - b'a' + 10)
    else none

-- What `decode` has read of an escaped byte: nothing, the percent sign, or the first digit too
pub data Pending : Type 0 where
  ready half : Pending
  digit : ℕ → Pending

-- Percent decoding, for the reader of a URL
unfoldable pub decode : Pending → List ℕ → Option (List ℕ)
decode ready [] = some []
decode half [] = none
decode (digit v) [] = none
decode ready (c ∷ cs) =
    let rest = decode ready cs in
    let escaped = decode half cs in if eqb c b'%' then escaped else Option.map (λ r. c ∷ r) rest
decode half (c ∷ cs) = elim (unhex c) [ none ↦ none | some v ↦ decode (digit v) cs ]
decode (digit v) (c ∷ cs) =
    let rest = decode ready cs in
    elim (unhex c) [ none ↦ none | some u ↦ Option.map (λ r. (v * 16 + u) ∷ r) rest ]

unhex-hex : (n : ℕ) → n < 16 → unhex (hex n) ≡ some n
unfolding unhex hex
unhex-hex n h = ground arith

percent_escaped : (mode : Encoding) → should_escape mode b'%' ≡ true
unfolding should_escape
percent_escaped encode_user_password = refl
percent_escaped encode_host = refl
percent_escaped encode_path = refl

percent_only : (mode : Encoding) (c : ℕ) → should_escape mode c ≡ false → eqb c b'%' ≡ false
percent_only mode c plain = elim (Bool-cases (eqb c b'%')) [
  | inl same ↦
      let e : c ≡ b'%' = ground arith in
      let unescaped : should_escape mode b'%' ≡ false = rw e at plain in
      absurd (cc (percent_escaped mode, unescaped))
  | inr other ↦ other
]

decode-nil : decode ready [] ≡ some []
unfolding decode
decode-nil = refl

decode-escaped :
    (a b v u : ℕ) (rest : List ℕ)
    → unhex a ≡ some v
    → unhex b ≡ some u
    → decode ready (b'%' ∷ a ∷ b ∷ rest) ≡ Option.map (λ r. (v * 16 + u) ∷ r) (decode ready rest)
unfolding decode
decode-escaped a b v u rest ha hb =
    ap
      (λ o. elim o as (λ _. Option (List ℕ)) [ none ↦ none | some x ↦ decode (digit x) (b ∷ rest) ])
      ha
    ∙ ap
        (λ o. elim o as (λ _. Option (List ℕ)) [
          | none ↦ none
          | some y ↦ Option.map (λ r. (v * 16 + y) ∷ r) (decode ready rest)
        ])
        hb

decode-plain :
    (c : ℕ) (rest : List ℕ)
    → eqb c b'%' ≡ false
    → decode ready (c ∷ rest) ≡ Option.map (λ r. c ∷ r) (decode ready rest)
unfolding decode
decode-plain c rest other = rw (other, decode)

byte_of_digits : (c : ℕ) → c / 16 * 16 + c % 16 ≡ c
byte_of_digits c = omega arith

-- Decoding gives back the bytes that were escaped, in each part of a URL.
pub decode-escape :
    (mode : Encoding) (s : List ℕ) → All (λ c. c < 256) s → decode ready (escape mode s) ≡ some s
unfolding escape
decode-escape mode [] h = decode-nil
decode-escape mode (c ∷ cs) h = elim (Bool-cases (should_escape mode c)) [
  | inl escaped ↦ rw escaped (
      decode-escaped (hex (c / 16)) (hex (c % 16)) (c / 16) (c % 16) (escape mode cs)
        (unhex-hex (c / 16) (omega arith)) (unhex-hex (c % 16) (omega arith))
      ∙ ap (λ o. Option.map (λ r. (c / 16 * 16 + c % 16) ∷ r) o) (decode-escape mode cs h.1)
      ∙ ap (λ b. some (b ∷ cs)) (byte_of_digits c))
  | inr plain ↦ rw plain (
      decode-plain c (escape mode cs) (percent_only mode c plain)
      ∙ ap (λ o. Option.map (λ r. c ∷ r) o) (decode-escape mode cs h.1))
]
