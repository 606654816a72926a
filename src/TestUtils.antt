-- ===== src/TestUtils.antt =====
-- `PostgresContainerRef` and the texts of `controllers/testutils/postgres.go`.
mod Endpoint
mod Tests
use mathlib.Core.Option
use Prim.Native.Char.{code}
use Prim.Native.String
use postgres_config_operator.Base.{
  ℕ, ◌+◌, ◌-◌, ◌<>◌, ◌%◌, ◌^◌, String, Option, none, some, List, [], ◌∷◌, if◌then◌else◌, eqb, ltb,
  bytes, parse_digits,
}
use postgres_config_operator.Api.{PostgresRef}

-- `strings.SplitN(s, ":", 2)`: what stands before the first colon, and what stands behind it
unfoldable pub split_colon : String → String × Option String
split_colon String.[] = ("", none)
split_colon (String.◌∷◌ c s) =
    let rest = split_colon s in
    if eqb (code c) b':' then ("", some s) else (String.◌∷◌ c rest.0, rest.1)

pub data Sign : Type 0 where
  plus minus : Sign

abbrev pub largest : ℕ
largest = 9223372036854775807

-- Up to the bound, a number of 64 bits
abbrev in_range : ℕ → Sign → Option ℕ → Option (Sign × ℕ)
in_range bound sign none = none
in_range bound sign (some n) = if ltb bound n then none else some (sign, n)

abbrev at_least_one : Sign → ℕ → List ℕ → Option (Sign × ℕ)
at_least_one sign bound [] = none
at_least_one sign bound (c ∷ cs) = in_range bound sign (parse_digits 0 (c ∷ cs))

-- `strconv.Atoi`, with 64 bits
unfoldable pub atoi : List ℕ → Option (Sign × ℕ)
atoi [] = none
atoi (c ∷ cs) =
    if eqb c b'-'
    then at_least_one minus (largest + 1) cs
    else if eqb c b'+'
    then at_least_one plus largest cs
    else at_least_one plus largest (c ∷ cs)

-- The conversion of an `int` to `uint16`
unfoldable pub to_uint16 : Sign × ℕ → ℕ
to_uint16 (plus, n) = n % 2 ^ 16
to_uint16 (minus, n) = (2 ^ 16 - n % 2 ^ 16) % 2 ^ 16

abbrev pub postgres_user : String
postgres_user = "glints"

abbrev pub postgres_password : String
postgres_password = "glints"

abbrev pub postgres_secret_name : String
postgres_secret_name = "postgres"

-- The text that the test utilities connect to, for an endpoint that the container answers
unfoldable pub connection_text : String → String
connection_text endpoint =
    "postgres://" <> postgres_user <> ":" <> postgres_password <> "@" <> endpoint <> "/glints"

abbrev pub test_ref : String → ℕ → PostgresRef
test_ref host port = record {
  host = host;
  port = port;
  database = "glints";
  secret_ref = record { secret_name = postgres_secret_name; username_key = ""; password_key = "" };
  variant = "";
}

-- The text behind the colon is indexed, which panics where there is none, and a number is expected.
abbrev port_of : Option String → Option ℕ
port_of none = none
port_of (some s) = Option.map to_uint16 (atoi (bytes s))

-- For an endpoint that the container answers; `none` stands for a failed expectation or a panic.
unfoldable pub postgres_container_ref : String → Option PostgresRef
unfolding split_colon to_uint16 atoi
postgres_container_ref endpoint =
    let host_port = split_colon endpoint in
    Option.map (λ port. test_ref host_port.0 port) (port_of host_port.1)
