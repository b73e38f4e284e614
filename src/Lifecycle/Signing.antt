-- ===== src/Lifecycle/Signing.antt =====
-- What `_integrity_event` leaves of the state, and when it returns.
use gotrendlabs.Prelude.{ℕ, ◌≡◌, Result, ok, Ensures, Succeeds, inl, inr, Bool-cases, ◌>>=◌}
use gotrendlabs.Db.{Db, Call, call, has_definition}
use gotrendlabs.Lifecycle.Engine.{Engine}
use gotrendlabs.Lifecycle.Transitions.{integrity_event}

-- The signing service and the ledger take every event of the market.
abbrev pub Signs : (ℕ → Db → Result (Unit {0})) → ℕ → Type 0
Signs sign m = (db : Db) → sign m db ≡ ok tt

module _ (e : Engine) (m : ℕ) (c : Call) (db : Db) where
  pub integrity_event-Ensures {ℓ} :
      (P : Db → Type ℓ) → P (call c db) → P db → Ensures P (integrity_event e m c db)
  unfolding integrity_event
  integrity_event-Ensures P recorded same = elim (Bool-cases (has_definition m db)) [
    | inl signed ↦ rw signed (appended (e.append_ledger_event m db))
    | inr unsigned ↦ rw unsigned same
  ]
    where
      appended : (r : Result (Unit {0})) → Ensures P (r >>= λ passed. ok (call c db))
      appended (ok x) = recorded
      appended (Result.err reason) = tt

  pub integrity_event-Succeeds :
      (P : Db → Type 0)
      → Signs e.append_ledger_event m
      → P (call c db)
      → P db
      → Succeeds P (integrity_event e m c db)
  unfolding integrity_event
  integrity_event-Succeeds P signs recorded same = elim (Bool-cases (has_definition m db)) [
    | inl signed ↦ rw (signed, signs db) recorded
    | inr unsigned ↦ rw unsigned same
  ]
