-- ===== src/Grant/Requests.antt =====
-- What `Reconcile` of a PostgresGrant sends to the server, and what it reports.
use postgres_config_operator.Base.{
  String, true, false, List, [], ◌∷◌, ◌++◌, ◌≡◌, refl, sym, ap, ◌∙◌, ◌⊎◌, inl, inr, if◌then◌else◌,
  subst,
}
use postgres_config_operator.Errors.{Result, ok, err, error_text}
use postgres_config_operator.Api.{
  Identifier, ObjectType, PostgresGrant, identifiers_for_type, object_key, privileges_for_type,
}
use postgres_config_operator.Effects.{
  History, M, Outcome, ReconcileResult, Request, answer, done, eventf, exec, failed, normal, event,
  warning, emit, ◌>>◌, return,
}
use postgres_config_operator.Effects.Hoare.{Post}
use postgres_config_operator.Effects.Runs.{
  AllAccepted, SentAll, SentAll-append, StopsIn, StopsIn-append, later-StopsIn, response, sent,
  verdict,
}
use postgres_config_operator.Effects.World.{World}
use postgres_config_operator.Events.{again, failed_reconcile, successful_reconcile}
use postgres_config_operator.Grant.{
  grant_objects, grant_query, object_types_to_reconcile, reconcile_object_grants, reconcile_types,
  wanted_privileges,
}

module _ (w : World) (g : PostgresGrant) where
  -- The requests before one of them were accepted, that one was refused, and the failure was reported
  -- right behind it.
  pub record IsReportedStop (qs : List Request) (h h' : History) : Type 0 where
    pub before : History
    pub stopped : StopsIn w qs h before
    pub args : List String
    pub reported :
        h'
        ≡ eventf
            (object_key g.metadata)
            warning
            failed_reconcile
            "failed to reconcile %s grant: %v"
            args
          ∷ before

  -- Either everything was sent and accepted and `finish` was done behind it, or the grant is queued
  -- again.
  abbrev pub Granted :
      List Request → (History → History) → History → ReconcileResult → History → Type 0
  Granted qs finish h r h' =
      ((r.requeue ≡ false) × (h' ≡ finish (sent qs h)) × AllAccepted w qs h)
      ⊎ ((r.requeue ≡ true) × IsReportedStop qs h h')

  abbrev Stays : History → History
  Stays h = h

  abbrev grant_requests : List String → List Identifier → List Request
  grant_requests privileges [] = []
  grant_requests privileges (i ∷ is) =
      exec (grant_query w privileges i g.spec.role) [] ∷ grant_requests privileges is

  later-IsReportedStop :
      (qs rs : List Request) (h h' h'' : History)
      → SentAll w qs h h'
      → IsReportedStop rs h' h''
      → IsReportedStop (qs ++ rs) h h''
  later-IsReportedStop qs rs h h' h'' all s = record {
    before = s.before;
    stopped = later-StopsIn w qs rs h h' s.before all s.stopped;
    args = s.args;
    reported = s.reported;
  }

  Granted-cons :
      (q : Request) (qs : List Request) (h : History) (o : Outcome ReconcileResult)
      → response w q h ≡ ok tt
      → Post (Granted qs Stays (q ∷ h)) (λ _. ⊥) o
      → Post (Granted (q ∷ qs) Stays h) (λ _. ⊥) o
  Granted-cons q qs h (done r h') e (inl t) = inl (t.0, t.1, (e, t.2))
  Granted-cons q qs h (done r h') e (inr t) =
      inr (t.0, later-IsReportedStop (q ∷ []) qs h (q ∷ h) h' (refl, (e, tt)) t.1)
  Granted-cons q qs h (failed x h') e t = t

  answered-Granted :
      (o : ObjectType) (q : Request) (qs : List Request) (k : M ReconcileResult) (h : History)
      (r : Result (Unit {0}))
      → response w q h ≡ verdict r
      → Post (Granted qs Stays (q ∷ h)) (λ _. ⊥) (k (q ∷ h))
      → Post
          (Granted (q ∷ qs) Stays h)
          (λ _. ⊥)
          (elim (answer r (q ∷ h)) [
            | done _ h' ↦ k h'
            | failed e h' ↦
                (emit (
                      eventf
                        (object_key g.metadata)
                        warning
                        failed_reconcile
                        "failed to reconcile %s grant: %v"
                        (o ∷ error_text e ∷ []))
                    >> return again)
                  h'
          ])
  answered-Granted o q qs k h (ok _) e t = Granted-cons q qs h (k (q ∷ h)) e t
  answered-Granted o q qs k h (err x) e t = inr (
    refl,
    record {
      before = q ∷ h;
      stopped = record {
        before = [];
        refused = q;
        after = qs;
        split = refl;
        accepted = tt;
        error = x;
        refusal = e;
        now = refl;
      };
      args = o ∷ error_text x ∷ [];
      reported = refl;
    },
  )

  grant_objects-Granted :
      (o : ObjectType) (privileges : List String) (is : List Identifier) (h : History)
      → Post
          (Granted (grant_requests privileges is) Stays h)
          (λ _. ⊥)
          (grant_objects w g o privileges is h)
  unfolding grant_objects
  grant_objects-Granted o privileges [] h = inl (refl, refl, tt)
  grant_objects-Granted o privileges (i ∷ is) h =
      let q = exec (grant_query w privileges i g.spec.role) [] in
      answered-Granted o q (grant_requests privileges is) (grant_objects w g o privileges is) h
        (w.executed h (grant_query w privileges i g.spec.role) []) refl
        (grant_objects-Granted o privileges is (q ∷ h))

  -- The statements for one object type: one for each object, with the listed privileges or ALL
  abbrev pub type_requests : ObjectType → List Request
  type_requests o =
      grant_requests (wanted_privileges (privileges_for_type g o)) (identifiers_for_type g o)

  abbrev pub types_requests : List ObjectType → List Request
  types_requests [] = []
  types_requests (o ∷ os) = type_requests o ++ types_requests os

  abbrev Reported : History → History
  Reported h =
      event (object_key g.metadata) normal successful_reconcile "successfully reconcilled grant" ∷ h

  types-step :
      (qs rs : List Request) (h h' : History) (o : Outcome ReconcileResult)
      → SentAll w qs h h'
      → Post (Granted rs Reported h') (λ _. ⊥) o
      → Post (Granted (qs ++ rs) Reported h) (λ _. ⊥) o
  types-step qs rs h h' (failed e h'') all t = t
  types-step qs rs h h' (done r h'') all (inl t) =
      let both = SentAll-append w qs rs h h' (sent rs h') all (refl, t.2) in
      inl (t.0, t.1 ∙ ap Reported both.0, both.1)
  types-step qs rs h h' (done r h'') all (inr t) =
      inr (t.0, later-IsReportedStop qs rs h h' h'' all t.1)

  types-stop :
      (qs rs : List Request) (h h' : History)
      → IsReportedStop qs h h'
      → IsReportedStop (qs ++ rs) h h'
  types-stop qs rs h h' t = record {
    before = t.before;
    stopped = StopsIn-append w qs rs h t.before t.stopped;
    args = t.args;
    reported = t.reported;
  }

  types-bind :
      (qs rs : List Request) (h : History) (o : Outcome ReconcileResult) (k : M ReconcileResult)
      → Post (Granted qs Stays h) (λ _. ⊥) o
      → ((h' : History) → Post (Granted rs Reported h') (λ _. ⊥) (k h'))
      → Post
          (Granted (qs ++ rs) Reported h)
          (λ _. ⊥)
          (elim o [
            | done r h' ↦ (if r.requeue then return r else k) h'
            | failed e h' ↦ failed e h'
          ])
  types-bind qs rs h (failed e h') k t f = t
  types-bind qs rs h (done r h') k (inl t) f =
      subst (λ b. Post (Granted (qs ++ rs) Reported h) (λ _. ⊥) ((if b then return r else k) h'))
        (sym t.0) (types-step qs rs h h' (k h') (t.1, t.2) (f h'))
  types-bind qs rs h (done r h') k (inr t) f =
      subst (λ b. Post (Granted (qs ++ rs) Reported h) (λ _. ⊥) ((if b then return r else k) h'))
        (sym t.0) (inr (t.0, types-stop qs rs h h' t.1))

  reconcile_types-Granted :
      (os : List ObjectType) (h : History)
      → Post (Granted (types_requests os) Reported h) (λ _. ⊥) (reconcile_types w g os h)
  unfolding reconcile_types reconcile_object_grants
  reconcile_types-Granted [] h = inl (refl, refl, tt)
  reconcile_types-Granted (o ∷ os) h =
      types-bind (type_requests o) (types_requests os) h _ (reconcile_types w g os)
        (grant_objects-Granted o (wanted_privileges (privileges_for_type g o))
          (identifiers_for_type g o) h)
        (reconcile_types-Granted os)

  -- The grants of all object types never end in an error. Either one statement was sent for each
  -- object of each type, in order, the server accepted them all, and the success is reported; or it
  -- accepted a first part of the statements and refused the next one, a warning follows that one, and
  -- the grant is queued again.
  pub grants-Granted :
      (h : History)
      → Post
          (Granted
            (types_requests object_types_to_reconcile)
            (λ l.
              event
                (object_key g.metadata)
                normal
                successful_reconcile
                "successfully reconcilled grant"
              ∷ l)
            h)
          (λ _. ⊥)
          (reconcile_types w g object_types_to_reconcile h)
  grants-Granted h = reconcile_types-Granted object_types_to_reconcile h
