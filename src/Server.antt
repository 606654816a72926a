-- ===== src/Server.antt =====
-- Reconciliations against servers that work: what they leave on a server, as an abstract view of its
-- state. The view and the answers are parameters; here are the rules for calls that cannot fail.
pub mod Tables
pub mod Publications
pub mod Grants
use postgres_config_operator.Base.{String, List, ◌∷◌, ◌≡◌, sym, subst, refl}
use postgres_config_operator.Errors.{Err, Result, ok, err}
use postgres_config_operator.Api.{NamespacedName, ObjectMeta, PostgresRef}
use postgres_config_operator.Effects.{
  Request, History, Outcome, done, failed, M, ReconcileResult, answer, attempt, close, connect,
  deferred, get, get_secret, perform, return, wrap,
}
use postgres_config_operator.Effects.Hoare.{
  Post, Triple, attempt-Triple, bind-Triple, deferred-Triple, wrap-Triple,
}
use postgres_config_operator.Effects.World.{World}
use postgres_config_operator.Connection.{connection_url, secret_name, setup_postgres_connection}
use postgres_config_operator.Events.{get_or_stop, with_connection}

-- No history, for the calls that end in no error
abbrev pub Never : History → Type 0
Never h = ⊥

-- From a history with `P`, the call ends with a value, and with `Q`.
abbrev pub Ends : {A : Type 0} → (History → Type 0) → M A → (A → History → Type 0) → Type 0
Ends P m Q = Triple P m Q Never

-- A request that commits nothing on a PostgreSQL server
abbrev pub IsQuiet : Request → Type 0
IsQuiet (Request.exec sql args) = ⊥
IsQuiet Request.commit = ⊥
IsQuiet _ = Unit

abbrev pub KeptQuiet : (History → Type 0) → Type 0
KeptQuiet P = (q : Request) (h : History) → IsQuiet q → P h → P (q ∷ h)

-- The secret of the reference can be read, and its server accepts connections.
pub record Opens (w : World) (ref : PostgresRef) (obj : ObjectMeta) : Type 0 where
  pub secret : List (String × String)
  pub reads : (h : History) → w.secret_at h (secret_name ref obj) ≡ ok secret
  pub connects : (h : History) → w.connected h (connection_url ref secret) ≡ ok tt

-- A request whose answer is known
pub perform-Ends :
    {A : Type 0} (P : History → Type 0) (Q : A → History → Type 0) (q : Request)
    (reply : History → Result A) (a : A)
    → ((h : History) → P h → reply h ≡ ok a)
    → ((h : History) → P h → Q a (q ∷ h))
    → Ends P (perform q reply) Q
perform-Ends P Q q reply a known after h p =
    subst (λ r. Post Q Never (answer r (q ∷ h))) (sym (known h p)) (after h p)

-- A request whose answer is known to be an error, and what handles the error
pub refused-Ends :
    {A B : Type 0} (P : History → Type 0) (Q : B → History → Type 0) (q : Request)
    (reply : History → Result A) (handle : Err → M B) (k : A → M B)
    → ((h : History) → P h → (e : Err) × (reply h ≡ err e) × Post Q Never (handle e (q ∷ h)))
    → Ends P (attempt (perform q reply) handle k) Q
refused-Ends {A} {B} P Q q reply handle k handled h p =
    let (e, refused, after) = handled h p in
    subst
      (λ r. Post Q Never (elim (answer {A = A} r (q ∷ h)) as (λ _. Outcome B) [
        | done a h' ↦ k a h'
        | failed x h' ↦ handle x h'
      ]))
      (sym refused) after

-- A call that ends without an error, with its value
pub ended :
    {A : Type 0} (Q : A → History → Type 0) (r : Outcome A)
    → Post Q Never r
    → (a : A) × (h : History) × (r ≡ done a h) × Q a h
ended Q (done a h) q = (a, h, refl, q)
ended Q (failed e h) never = absurd never

module _ (P : History → Type 0) (keep : KeptQuiet P) (w : World) where
  setup-Ends :
      (ref : PostgresRef) (obj : ObjectMeta)
      → Opens w ref obj
      → Ends P (setup_postgres_connection w ref obj) (λ _. P)
  unfolding setup_postgres_connection
  setup-Ends ref obj opens =
      attempt-Triple (λ secret h. (secret ≡ opens.secret) × P h) Never Never (λ _. P) P
        (perform (get_secret (secret_name ref obj)) (λ h. w.secret_at h (secret_name ref obj))) _ _
        (perform-Ends P (λ secret h. (secret ≡ opens.secret) × P h) _
          (λ h. w.secret_at h (secret_name ref obj)) opens.secret (λ h p. opens.reads h)
          (λ h p. (refl, keep (get_secret (secret_name ref obj)) h tt p)))
        (λ e h never. absurd never)
        (λ secret.
          attempt-Triple (λ _. P) Never Never (λ _. P) (λ h. (secret ≡ opens.secret) × P h)
            (perform (connect (connection_url ref secret))
              (λ h. w.connected h (connection_url ref secret)))
            _ _
            (perform-Ends (λ h. (secret ≡ opens.secret) × P h) (λ _. P) _
              (λ h. w.connected h (connection_url ref secret)) tt (λ h p. rw p.0 (opens.connects h))
              (λ h p. keep (connect (connection_url ref secret)) h tt p.1))
            (λ e h never. absurd never) (λ _ h p. p))

  pub with_connection-Ends :
      (Q : ReconcileResult → History → Type 0) (ref : PostgresRef) (obj : ObjectMeta)
      (k : M ReconcileResult)
      → Opens w ref obj
      → ((r : ReconcileResult) → KeptQuiet (Q r))
      → Ends P k Q
      → Ends P (with_connection w ref obj k) Q
  with_connection-Ends Q ref obj k opens keep_after t =
      attempt-Triple (λ _. P) Never Never Q P (setup_postgres_connection w ref obj) _ _
        (setup-Ends ref obj opens) (λ e h never. absurd never)
        (λ _.
          deferred-Triple Q Never Q Never P close k (λ r h q. keep_after r close h tt q)
            (λ h never. never) t)

  pub get_or_stop-Ends :
      {A : Type 0} (Q : ReconcileResult → History → Type 0) (kind : String)
      (reply : History → NamespacedName → Result A) (key : NamespacedName)
      (k : A → M ReconcileResult) (a : A) (h : History)
      → reply h key ≡ ok a
      → Ends P (k a) Q
      → P h
      → Post Q Never (get_or_stop w kind reply key k h)
  get_or_stop-Ends Q kind reply key k a h there t p =
      let Here : History → Type 0 = λ h'. (h' ≡ h) × P h' in
      attempt-Triple (λ b h. (b ≡ a) × P h) Never Never Q Here
        (perform (get kind key) (λ h. reply h key)) _ k
        (perform-Ends Here (λ b h. (b ≡ a) × P h) _ (λ h. reply h key) a
          (λ h' here. rw here.0 there) (λ h' here. (refl, keep (get kind key) h' tt here.1)))
        (λ e h never. absurd never) (λ b h p. rw p.0 (t h p.1)) h (refl, p)
