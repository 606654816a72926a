-- ===== src/Events/Reports.antt =====
-- What the last event of a history says.
use postgres_config_operator.Base.{◌∷◌, true, false, ◌≡◌, ◌⊎◌, inl, inr}
use postgres_config_operator.Effects.{
  History, ReconcileResult, event, eventf, normal, warning, close,
}
use postgres_config_operator.Events.{successful_reconcile}

-- The last call recorded a warning; closing the connection does not count.
abbrev pub EndsInWarning : History → Type 0
EndsInWarning (eventf _ warning _ _ _ ∷ h) = Unit {0}
EndsInWarning (close ∷ h) = EndsInWarning h
EndsInWarning _ = ⊥

-- The last call recorded that the reconciliation succeeded.
abbrev pub EndsInSuccess : History → Type 0
EndsInSuccess (event _ normal reason _ ∷ h) = reason ≡ successful_reconcile
EndsInSuccess (close ∷ h) = EndsInSuccess h
EndsInSuccess _ = ⊥

-- The object is queued again with a warning, or it is not and `P` holds of the history.
abbrev pub Reports : (History → Type 0) → ReconcileResult → History → Type 0
Reports P r h = ((r.requeue ≡ true) × EndsInWarning h) ⊎ ((r.requeue ≡ false) × P h)

pub Reports-requeued :
    (P Q : History → Type 0) (r : ReconcileResult) (h : History)
    → r.requeue ≡ true
    → Reports P r h
    → Reports Q r h
Reports-requeued P Q r h e (inl s) = inl s
Reports-requeued P Q r h e (inr s) = cc
