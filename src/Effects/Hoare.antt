-- ===== src/Effects/Hoare.antt =====
-- Triples over calls: from a history with `P`, a call ends with a value and a history with `Q`, or
-- with an error and a history with `E`. One rule for each way to put calls together.
use postgres_config_operator.Base.{String, Bool, true, false, ◌∷◌, ◌≡◌, refl, if◌then◌else◌}
use postgres_config_operator.Errors.{Err, Result, ok, err}
use postgres_config_operator.Effects.{
  Request, History, Outcome, done, failed, M, attempt, ◌>>=◌, wrap, deferred, answer, history,
  perform,
}

abbrev pub Post : {A : Type 0} → (A → History → Type 0) → (History → Type 0) → Outcome A → Type 0
Post Q E (done a h) = Q a h
Post Q E (failed e h) = E h

abbrev pub Triple :
    {A : Type 0} → (History → Type 0) → M A → (A → History → Type 0) → (History → Type 0) → Type 0
Triple P m Q E = (h : History) → P h → Post Q E (m h)

-- The call keeps a property of the history, however it ends.
abbrev pub Keeps : {A : Type 0} → (History → Type 0) → M A → Type 0
Keeps P m = Triple P m (λ _ h. P h) P

module _ {A B : Type 0} (Q : A → History → Type 0) (E F : History → Type 0)
    (R : B → History → Type 0) where
  attempt-Post :
      (r : Outcome A) (handle : Err → M B) (k : A → M B)
      → Post Q F r
      → ((e : Err) → Triple F (handle e) R E)
      → ((a : A) → Triple (Q a) (k a) R E)
      → Post R E (elim r [ done a h ↦ k a h | failed e h ↦ handle e h ])
  attempt-Post (done a h) handle k q f t = t a h q
  attempt-Post (failed e h) handle k q f t = f e h q

  pub attempt-Triple :
      (P : History → Type 0) (m : M A) (handle : Err → M B) (k : A → M B)
      → Triple P m Q F
      → ((e : Err) → Triple F (handle e) R E)
      → ((a : A) → Triple (Q a) (k a) R E)
      → Triple P (attempt m handle k) R E
  attempt-Triple P m handle k t f g h p = attempt-Post (m h) handle k (t h p) f g

module _ {A B : Type 0} (Q : A → History → Type 0) (E : History → Type 0)
    (R : B → History → Type 0) where
  bind-Post :
      (r : Outcome A) (k : A → M B)
      → Post Q E r
      → ((a : A) → Triple (Q a) (k a) R E)
      → Post R E (elim r [ done a h ↦ k a h | failed e h ↦ failed e h ])
  bind-Post (done a h) k q t = t a h q
  bind-Post (failed e h) k q t = q

  pub bind-Triple :
      (P : History → Type 0) (m : M A) (k : A → M B)
      → Triple P m Q E
      → ((a : A) → Triple (Q a) (k a) R E)
      → Triple P (m >>= k) R E
  bind-Triple P m k t g h p = bind-Post (m h) k (t h p) g

module _ {A : Type 0} (Q : A → History → Type 0) (E : History → Type 0) where
  wrap-Post :
      (prefix : String) (r : Outcome A)
      → Post Q E r
      → Post Q E (elim r [ done a h ↦ done a h | failed e h ↦ failed (Err.wrapped prefix e) h ])
  wrap-Post prefix (done a h) q = q
  wrap-Post prefix (failed e h) q = q

  pub wrap-Triple :
      (P : History → Type 0) (prefix : String) (m : M A)
      → Triple P m Q E
      → Triple P (wrap prefix m) Q E
  wrap-Triple P prefix m t h p = wrap-Post prefix (m h) (t h p)

  deferred-Post :
      (Q' : A → History → Type 0) (E' : History → Type 0) (q : Request) (r : Outcome A)
      → ((a : A) (h : History) → Q a h → Q' a (q ∷ h))
      → ((h : History) → E h → E' (q ∷ h))
      → Post Q E r
      → Post Q' E' (elim r [ done a h ↦ done a (q ∷ h) | failed e h ↦ failed e (q ∷ h) ])
  deferred-Post Q' E' q (done a h) f g t = f a h t
  deferred-Post Q' E' q (failed e h) f g t = g h t

  pub deferred-Triple :
      (Q' : A → History → Type 0) (E' P : History → Type 0) (q : Request) (m : M A)
      → ((a : A) (h : History) → Q a h → Q' a (q ∷ h))
      → ((h : History) → E h → E' (q ∷ h))
      → Triple P m Q E
      → Triple P (deferred q m) Q' E'
  deferred-Triple Q' E' P q m f g t h p = deferred-Post Q' E' q (m h) f g (t h p)

module _ {A : Type 0} (P : History → Type 0) (Q : A → History → Type 0) (E : History → Type 0) where
  pub if-Triple :
      (b : Bool) (m n : M A)
      → (b ≡ true → Triple P m Q E)
      → (b ≡ false → Triple P n Q E)
      → Triple P (if b then m else n) Q E
  if-Triple true m n f g = f refl
  if-Triple false m n f g = g refl

-- Two properties of one call, where the first says what holds after an error.
pub both-Post :
    {A : Type 0} (Q R S : A → History → Type 0) (E : History → Type 0) (r : Outcome A)
    → ((a : A) (h : History) → Q a h → R a h → S a h)
    → Post Q E r
    → Post R (λ _. Unit) r
    → Post S E r
both-Post Q R S E (done a h) join q s = join a h q s
both-Post Q R S E (failed e h) join q s = q

-- The same rules where one property is kept throughout.
module _ (P : History → Type 0) where
  pub attempt-Keeps :
      {A B : Type 0} (m : M A) (handle : Err → M B) (k : A → M B)
      → Keeps P m
      → ((e : Err) → Keeps P (handle e))
      → ((a : A) → Keeps P (k a))
      → Keeps P (attempt m handle k)
  attempt-Keeps m handle k = attempt-Triple (λ _ h. P h) P P (λ _ h. P h) P m handle k

  pub bind-Keeps :
      {A B : Type 0} (m : M A) (k : A → M B)
      → Keeps P m
      → ((a : A) → Keeps P (k a))
      → Keeps P (m >>= k)
  bind-Keeps m k = bind-Triple (λ _ h. P h) P (λ _ h. P h) P m k

  pub if-Keeps :
      {A : Type 0} (b : Bool) (m n : M A) → Keeps P m → Keeps P n → Keeps P (if b then m else n)
  if-Keeps b m n f g = if-Triple P (λ _ h. P h) P b m n (λ _. f) (λ _. g)

  pub wrap-Keeps : {A : Type 0} (prefix : String) (m : M A) → Keeps P m → Keeps P (wrap prefix m)
  wrap-Keeps prefix m = wrap-Triple (λ _ h. P h) P P prefix m

  pub answer-Keeps : {A : Type 0} (r : Result A) → Keeps P (answer r)
  answer-Keeps (ok a) h p = p
  answer-Keeps (err e) h p = p

  pub perform-Keeps :
      {A : Type 0} (q : Request) (reply : History → Result A)
      → ((h : History) → P h → P (q ∷ h))
      → Keeps P (perform q reply)
  perform-Keeps q reply keep h p = answer-Keeps (reply h) (q ∷ h) (keep h p)

module _ {A : Type 0} (P : History → Type 0) (Q : A → History → Type 0) (E : History → Type 0)
    (q : Request) (reply : History → Result A) where
  answer-Post :
      (h : History) (r : Result A)
      → ((a : A) → r ≡ ok a → Q a (q ∷ h))
      → ((e : Err) → r ≡ err e → E (q ∷ h))
      → Post Q E (answer r (q ∷ h))
  answer-Post h (ok a) f g = f a refl
  answer-Post h (err e) f g = g e refl

  -- A request leads to what its answer says.
  pub perform-Triple :
      ((a : A) (h : History) → P h → reply h ≡ ok a → Q a (q ∷ h))
      → ((e : Err) (h : History) → P h → reply h ≡ err e → E (q ∷ h))
      → Triple P (perform q reply) Q E
  perform-Triple f g h p = answer-Post h (reply h) (λ a s. f a h p s) (λ e s. g e h p s)

pub Keeps-history :
    {A : Type 0} (P : History → Type 0) (r : Outcome A) → Post (λ _ h. P h) P r → P (history r)
Keeps-history P (done a h) p = p
Keeps-history P (failed e h) p = p

-- No claim about a history.
abbrev pub Always : History → Type 0
Always _ = Unit {0}

-- No claim about a call.
pub anything :
    {A : Type 0} (P : History → Type 0) (m : M A) → Triple P m (λ _ _. Unit {0}) (λ _. Unit {0})
anything {A} P m h p = trivially (m h)
  where
    trivially : (r : Outcome A) → Post (λ _ _. Unit {0}) (λ _. Unit {0}) r
    trivially (done a h') = tt
    trivially (failed e h') = tt

-- A postcondition that always holds.
pub whatever :
    {A : Type 0} (P : History → Type 0) (Q : A → History → Type 0) (m : M A)
    → ((a : A) (h : History) → Q a h)
    → Triple P m Q Always
whatever {A} P Q m q h p = trivially (m h)
  where
    trivially : (r : Outcome A) → Post Q Always r
    trivially (done a h') = q a h'
    trivially (failed e h') = tt

-- A weaker claim about errors.
module _ {A : Type 0} (P : History → Type 0) (Q : A → History → Type 0) (E F : History → Type 0)
    (weaker : (h : History) → E h → F h) where
  pub weaken-Post : (r : Outcome A) → Post Q E r → Post Q F r
  weaken-Post (done a h) q = q
  weaken-Post (failed e h) q = weaker h q

  pub weaken-Triple : (m : M A) → Triple P m Q E → Triple P m Q F
  weaken-Triple m t h p = weaken-Post (m h) (t h p)
