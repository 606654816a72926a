-- ===== src/TestUtils/Endpoint.antt =====
-- The endpoint of the container, and the host of the URL that is made of its reference.
use mathlib.Core.Option
use Prim.Native.String
use postgres_config_operator.Base.{
  false, ◌≢◌, decimal-ne, ℕ, ◌<◌, ◌≤◌, String, ◌<>◌, some, List, [], ◌∷◌, ◌≡◌, refl, ap, arith, All,
  eqb, bytes, decimal, decimal-IsDigit, IsDigit, parse_digits, parse_digits-decimal,
}
use postgres_config_operator.Connection.{connection_url}
use postgres_config_operator.TestUtils.{
  atoi, largest, postgres_container_ref, split_colon, test_ref, plus,
}

split_colon-append :
    (host rest : String)
    → All (λ c. eqb c b':' ≡ false) (bytes host)
    → split_colon (host <> ":" <> rest) ≡ (host, some rest)
unfolding split_colon bytes
split_colon-append String.[] rest free =
    rw (
      String.append.nil (":" <> rest),
      String.append.cons ":" String.[] rest,
      String.append.nil rest,
    )
split_colon-append (String.◌∷◌ c host) rest free =
    rw (String.append.cons c host (":" <> rest)) (rw (free.0, split_colon-append host rest free.1))

atoi_digits :
    (s : List ℕ) (n : ℕ)
    → s ≢ []
    → All IsDigit s
    → parse_digits 0 s ≡ some n
    → n ≤ largest
    → atoi s ≡ some (plus, n)
unfolding atoi
atoi_digits [] n other digits e small = absurd (other refl)
atoi_digits (c ∷ cs) n other digits e small =
    let not_minus : eqb c b'-' ≡ false = ground arith in
    let not_plus : eqb c b'+' ≡ false = ground arith in rw (not_minus, not_plus, e) (ground arith)

atoi-decimal : (n : ℕ) → n < 65536 → atoi (bytes (decimal n)) ≡ some (plus, n)
atoi-decimal n small =
    atoi_digits (bytes (decimal n)) n (decimal-ne n) (decimal-IsDigit n)
      (parse_digits-decimal n (omega arith)) (omega arith)

-- An endpoint
abbrev pub endpoint_of : String → ℕ → String
endpoint_of host port = host <> ":" <> decimal port

container_ref :
    (host : String) (port : ℕ)
    → All (λ c. eqb c b':' ≡ false) (bytes host)
    → port < 65536
    → postgres_container_ref (endpoint_of host port) ≡ some (test_ref host port)
unfolding postgres_container_ref
container_ref host port free small =
    rw (split_colon-append host (decimal port) free, atoi-decimal port small)
      (ap (λ p. some (test_ref host p)) (omega arith))

-- For an endpoint of a host without colons and a port of 16 bits, the reference to the container is
-- made without a failed expectation, and the URL that the controllers make of that reference, with
-- any secret, has the endpoint as its host.
pub connection_url-postgres_container_ref :
    (host : String) (port : ℕ) (m : List (String × String))
    → All (λ c. eqb c b':' ≡ false) (bytes host)
    → port < 65536
    → Option.map
        (λ ref. (connection_url ref m).host)
        (postgres_container_ref (endpoint_of host port))
      ≡ some (endpoint_of host port)
unfolding connection_url
connection_url-postgres_container_ref host port m free small =
    ap (Option.map (λ ref. (connection_url ref m).host)) (container_ref host port free small)
