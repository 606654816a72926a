-- ===== src/Effects/Steps.antt =====
-- Running one call of a composed call, by an equation for its outcome.
use postgres_config_operator.Base.{String, ◌∷◌, ◌≡◌, ap}
use postgres_config_operator.Errors.{Err, wrapped, Result, ok, err}
use postgres_config_operator.Effects.{
  Request, History, done, failed, M, attempt, ◌>>=◌, wrap, perform, answer,
}

module _ {A B : Type 0} (m : M A) {h h' : History} where
  pub attempt-done :
      {a : A} (handle : Err → M B) (k : A → M B) → m h ≡ done a h' → attempt m handle k h ≡ k a h'
  attempt-done handle k e = ap (λ o. elim o [ done a g ↦ k a g | failed x g ↦ handle x g ]) e

  pub attempt-failed :
      {x : Err} (handle : Err → M B) (k : A → M B)
      → m h ≡ failed x h'
      → attempt m handle k h ≡ handle x h'
  attempt-failed handle k e = ap (λ o. elim o [ done a g ↦ k a g | failed x g ↦ handle x g ]) e

  pub bind-done : {a : A} (k : A → M B) → m h ≡ done a h' → (m >>= k) h ≡ k a h'
  bind-done k e = ap (λ o. elim o [ done a g ↦ k a g | failed x g ↦ failed x g ]) e

  pub bind-failed : {x : Err} (k : A → M B) → m h ≡ failed x h' → (m >>= k) h ≡ failed x h'
  bind-failed k e = ap (λ o. elim o [ done a g ↦ k a g | failed x g ↦ failed x g ]) e

module _ {A : Type 0} (prefix : String) (m : M A) {h h' : History} where
  pub wrap-done : {a : A} → m h ≡ done a h' → wrap prefix m h ≡ done a h'
  wrap-done e =
      ap (λ o. elim o [ done a g ↦ done a g | failed x g ↦ failed (wrapped prefix x) g ]) e

  pub wrap-failed : {x : Err} → m h ≡ failed x h' → wrap prefix m h ≡ failed (wrapped prefix x) h'
  wrap-failed e =
      ap (λ o. elim o [ done a g ↦ done a g | failed x g ↦ failed (wrapped prefix x) g ]) e

module _ {A : Type 0} (q : Request) (reply : History → Result A) {h : History} where
  pub perform-done : {a : A} → reply h ≡ ok a → perform q reply h ≡ done a (q ∷ h)
  perform-done e = ap (λ r. answer r (q ∷ h)) e

  pub perform-failed : {x : Err} → reply h ≡ err x → perform q reply h ≡ failed x (q ∷ h)
  perform-failed e = ap (λ r. answer r (q ∷ h)) e
