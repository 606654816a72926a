-- ===== src/Effects/Runs.antt =====
-- Calls whose requests are known beforehand: a call runs a list of requests if it succeeds just when
-- all of them were sent in order and accepted, and fails just when one was refused, right behind it.
use mathlib.Core.List.{append_assoc}
use postgres_config_operator.Base.{String, List, [], ◌∷◌, ◌++◌, ◌≡◌, refl, sym, ap, ◌∙◌, subst}
use postgres_config_operator.Errors.{Err, wrapped, Result, ok, err}
use postgres_config_operator.Effects.{
  Request, History, Outcome, done, failed, M, ◌>>=◌, wrap, perform, answer, return, begin_tx, boot,
  commit, create_resource, delete_resource, exec, tx_exec, update_resource,
}
use postgres_config_operator.Effects.Hoare.{Post}
use postgres_config_operator.Effects.World.{World}

-- The history after the requests, sent in the order of the list.
abbrev pub sent : List Request → History → History
sent [] h = h
sent (q ∷ qs) h = sent qs (q ∷ h)

pub sent-append : (qs rs : List Request) (h : History) → sent (qs ++ rs) h ≡ sent rs (sent qs h)
sent-append [] rs h = refl
sent-append (q ∷ qs) rs h = sent-append qs rs (q ∷ h)

-- Whether an answer is a success
abbrev pub verdict : {A : Type 0} → Result A → Result (Unit {0})
verdict (ok a) = ok tt
verdict (err e) = err e

module _ (w : World) where
  -- Whether a request that changes something is accepted, after a history
  abbrev pub response : Request → History → Result (Unit {0})
  response (create_resource p) h = verdict (w.created h p)
  response (update_resource p) h = verdict (w.updated h p)
  response (delete_resource p) h = verdict (w.deleted h p)
  response (exec sql args) h = verdict (w.executed h sql args)
  response begin_tx h = verdict (w.tx_begun h)
  response (tx_exec sql) h = verdict (w.tx_executed h sql)
  response commit h = verdict (w.committed h)
  response (boot s) h = verdict (w.booted h s)
  response _ h = ok tt

  -- Each of the requests is accepted, after those before it.
  abbrev pub AllAccepted : List Request → History → Type 0
  AllAccepted [] h = Unit
  AllAccepted (q ∷ qs) h = (response q h ≡ ok tt) × AllAccepted qs (q ∷ h)

  AllAccepted-append :
      (qs rs : List Request) (h : History)
      → AllAccepted qs h
      → AllAccepted rs (sent qs h)
      → AllAccepted (qs ++ rs) h
  AllAccepted-append [] rs h a b = b
  AllAccepted-append (q ∷ qs) rs h a b = (a.0, AllAccepted-append qs rs (q ∷ h) a.1 b)

  -- The first requests were accepted, the next one was refused, and nothing was sent behind it.
  pub record StopsIn (qs : List Request) (h h' : History) : Type 0 where
    pub before : List Request
    pub refused : Request
    pub after : List Request
    pub split : qs ≡ before ++ refused ∷ after
    pub accepted : AllAccepted before h
    pub error : Err
    pub refusal : response refused (sent before h) ≡ err error
    pub now : h' ≡ refused ∷ sent before h

  abbrev pub SentAll : List Request → History → History → Type 0
  SentAll qs h h' = (h' ≡ sent qs h) × AllAccepted qs h

  abbrev pub Ran : {A : Type 0} → List Request → History → Outcome A → Type 0
  Ran qs h = Post (λ _. SentAll qs h) (StopsIn qs h)

  abbrev pub Runs : {A : Type 0} → List Request → M A → Type 0
  Runs qs m = (h : History) → Ran qs h (m h)

  pub perform-Runs :
      {A : Type 0} (q : Request) (reply : History → Result A)
      → ((h : History) → response q h ≡ verdict (reply h))
      → Runs (q ∷ []) (perform q reply)
  perform-Runs {A} q reply same h = answered (reply h) (same h)
    where
      answered : (r : Result A) → response q h ≡ verdict r → Ran (q ∷ []) h (answer r (q ∷ h))
      answered (ok a) e = (refl, (e, tt))
      answered (err x) e = record {
        before = [];
        refused = q;
        after = [];
        split = refl;
        accepted = tt;
        error = x;
        refusal = e;
        now = refl;
      }

  wrap-Ran :
      {A : Type 0} (qs : List Request) (prefix : String) (h : History) (r : Outcome A)
      → Ran qs h r
      → Ran qs h (elim r [ done a h' ↦ done a h' | failed e h' ↦ failed (wrapped prefix e) h' ])
  wrap-Ran qs prefix h (done a h') t = t
  wrap-Ran qs prefix h (failed e h') t = t

  pub wrap-Runs :
      {A : Type 0} (qs : List Request) (prefix : String) (m : M A)
      → Runs qs m
      → Runs qs (wrap prefix m)
  wrap-Runs qs prefix m t h = wrap-Ran qs prefix h (m h) (t h)

  pub SentAll-append :
      (qs rs : List Request) (h h' h'' : History)
      → SentAll qs h h'
      → SentAll rs h' h''
      → SentAll (qs ++ rs) h h''
  SentAll-append qs rs h h' h'' a b = (
    b.0 ∙ ap (sent rs) a.0 ∙ sym (sent-append qs rs h),
    AllAccepted-append qs rs h a.1 (subst (AllAccepted rs) a.0 b.1),
  )

  pub StopsIn-append :
      (qs rs : List Request) (h h' : History) → StopsIn qs h h' → StopsIn (qs ++ rs) h h'
  StopsIn-append qs rs h h' s = record {
    before = s.before;
    refused = s.refused;
    after = s.after ++ rs;
    split = ap (λ l. l ++ rs) s.split ∙ append_assoc s.before (s.refused ∷ s.after) rs;
    accepted = s.accepted;
    error = s.error;
    refusal = s.refusal;
    now = s.now;
  }

  -- A later part stops, where the first part was sent.
  pub later-StopsIn :
      (qs rs : List Request) (h h' h'' : History)
      → SentAll qs h h'
      → StopsIn rs h' h''
      → StopsIn (qs ++ rs) h h''
  later-StopsIn qs rs h h' h'' a s =
      let same : sent s.before h' ≡ sent (qs ++ s.before) h =
        ap (sent s.before) a.0 ∙ sym (sent-append qs s.before h) in
      record {
        before = qs ++ s.before;
        refused = s.refused;
        after = s.after;
        split = ap (λ l. qs ++ l) s.split ∙ sym (append_assoc qs s.before (s.refused ∷ s.after));
        accepted =
            AllAccepted-append qs s.before h a.1 (subst (AllAccepted s.before) a.0 s.accepted);
        error = s.error;
        refusal = subst (λ g. response s.refused g ≡ err s.error) same s.refusal;
        now = s.now ∙ ap (λ g. s.refused ∷ g) same;
      }

  later-Ran :
      {A : Type 0} (qs rs : List Request) (h h' : History) (r : Outcome A)
      → SentAll qs h h'
      → Ran rs h' r
      → Ran (qs ++ rs) h r
  later-Ran qs rs h h' (done a h'') e t = SentAll-append qs rs h h' h'' e t
  later-Ran qs rs h h' (failed x h'') e t = later-StopsIn qs rs h h' h'' e t

  bind-Ran :
      {A B : Type 0} (qs rs : List Request) (h : History) (r : Outcome A) (k : A → M B)
      → Ran qs h r
      → ((a : A) → Runs rs (k a))
      → Ran (qs ++ rs) h (elim r [ done a h' ↦ k a h' | failed e h' ↦ failed e h' ])
  bind-Ran qs rs h (done a h') k t f = later-Ran qs rs h h' (k a h') t (f a h')
  bind-Ran qs rs h (failed e h') k t f = StopsIn-append qs rs h h' t

  pub bind-Runs :
      {A B : Type 0} (qs rs : List Request) (m : M A) (k : A → M B)
      → Runs qs m
      → ((a : A) → Runs rs (k a))
      → Runs (qs ++ rs) (m >>= k)
  bind-Runs qs rs m k t f h = bind-Ran qs rs h (m h) k (t h) f

  -- A last step that sends nothing.
  pub then_return-Runs :
      {A B : Type 0} (qs : List Request) (m : M A) (k : A → B)
      → Runs qs m
      → Runs qs (m >>= λ a. return (k a))
  then_return-Runs {A} qs m k t h = ended (m h) (t h)
    where
      ended :
          (r : Outcome A)
          → Ran qs h r
          → Ran qs h (elim r [ done a h' ↦ done (k a) h' | failed e h' ↦ failed e h' ])
      ended (done a h') s = s
      ended (failed e h') s = s

  -- A request, its error wrapped, and what follows.
  pub step-Runs :
      {A B : Type 0} (q : Request) (rs : List Request) (prefix : String)
      (reply : History → Result A) (k : A → M B)
      → ((h : History) → response q h ≡ verdict (reply h))
      → ((a : A) → Runs rs (k a))
      → Runs (q ∷ rs) (wrap prefix (perform q reply) >>= k)
  step-Runs q rs prefix reply k same =
      bind-Runs (q ∷ []) rs (wrap prefix (perform q reply)) k
        (wrap-Runs (q ∷ []) prefix (perform q reply) (perform-Runs q reply same))
