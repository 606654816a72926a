-- ===== src/Sessions.antt =====
-- The state of a controller's connection, read off the requests: every statement goes through an
-- open connection, and a transaction is open or not. It is the contract of `pgx.Conn` and `pgx.Tx`
-- that the controllers have to respect.
pub mod Connecting
pub mod Publications
pub mod Tables
pub mod Grants
pub mod Tests
use postgres_config_operator.Base.{String, List, [], ◌∷◌, ◌≡◌}
use postgres_config_operator.Errors.{Result, ok, err}
use postgres_config_operator.Effects.{
  Argument, History, Request, begin_tx, close, commit, connect, exec, query, rollback, tx_exec,
}
use postgres_config_operator.Effects.World.{World}

pub data Session : Type 0 where
  offline online in_transaction : Session

-- A request that succeeds leads to a new state.
abbrev pub on_success : Result (Unit {0}) → Session → Session → Session
on_success (ok _) next s = next
on_success (err _) next s = s

abbrev pub after_rollback : Session → Session
after_rollback offline = offline
after_rollback online = online
after_rollback in_transaction = online

module _ (w : World) where
  abbrev pub session : History → Session
  session [] = offline
  session (connect url ∷ h) = on_success (w.connected h url) online (session h)
  session (close ∷ h) = offline
  session (begin_tx ∷ h) = on_success (w.tx_begun h) in_transaction (session h)
  session (commit ∷ h) = online
  session (rollback ∷ h) = after_rollback (session h)
  session (_ ∷ h) = session h

  -- What may be sent in which state. A rollback may follow a commit, where it does nothing.
  abbrev pub IsAllowed : Request → Session → Type 0
  IsAllowed (connect _) s = s ≡ offline
  IsAllowed close s = s ≡ online
  IsAllowed (exec _ _) s = s ≡ online
  IsAllowed (query _ _) s = s ≡ online
  IsAllowed begin_tx s = s ≡ online
  IsAllowed (tx_exec _) s = s ≡ in_transaction
  IsAllowed commit s = s ≡ in_transaction
  IsAllowed rollback s = ¬ (s ≡ offline)
  IsAllowed _ s = Unit {0}

  abbrev pub IsDisciplined : History → Type 0
  IsDisciplined [] = Unit {0}
  IsDisciplined (q ∷ h) = IsAllowed q (session h) × IsDisciplined h

  -- A disciplined history that ends in the given state
  abbrev pub Ends : Session → History → Type 0
  Ends s h = (session h ≡ s) × IsDisciplined h

  pub online-exec :
      (sql : String) (args : List Argument) (h : History)
      → Ends online h
      → Ends online (exec sql args ∷ h)
  online-exec sql args h g = (g.0, (g.0, g.1))
