-- ===== src/Lifecycle/Refusing.antt =====
-- A transition whose event cannot be signed is rolled back: `IntegritySigningError` leaves the
-- request as an error (`_integrity_event` of `apps/api/backend_api/market_lifecycle_engine.py`).
use gotrendlabs.Prelude.Lists.{any}
use gotrendlabs.Prelude.{
  ℕ, ◌≡◌, Bool, true, false, not, List, [], ◌∷◌, Result, ok, err, raise_if, Ensures, Ensures-if,
  ensured, Fails, Fails-bind, refl, ap, ◌∙◌, lock_requires_daemon, lock_requires_staff,
  lock_wrong_status, Option, ◌==◌,
}
use gotrendlabs.Prelude.Table.{lookup}
use gotrendlabs.Db.{Db, Market, Prediction, Call, has_definition, set_prediction}
use gotrendlabs.Lifecycle.Engine.{Engine}
use gotrendlabs.Lifecycle.Refund.{
  RefundCounts, refund_all, refund_market_predictions, has_refund, locked_is_short,
  assert_no_open_predictions,
}
use gotrendlabs.Lifecycle.Canceling.{is_final, cancel_from-eq-cancel_unresolved}
use gotrendlabs.Lifecycle.Transitions.{
  set_market, integrity_event, cancel_unresolved, cancel_market, lock_row, lock_market,
  lock_market_automatically, can_lock,
}

-- Refunds define no market.
definitions-refund_all :
    (e : Engine) (now : ℕ) (ps : List Prediction) (c : RefundCounts) (db : Db)
    → Ensures (λ r. r.1.definitions ≡ db.definitions) (refund_all e now ps c db)
unfolding refund_all set_prediction
definitions-refund_all e now [] c db = refl
definitions-refund_all e now (p ∷ ps) c db =
    let P = λ (r : RefundCounts × Db). r.1.definitions ≡ db.definitions in
    Ensures-if P (has_refund p.id db.wallet.ledger) _ _
      (λ refunded. definitions-refund_all e now ps _ _)
      λ unrefunded.
        Ensures-if P (locked_is_short p.stake_amount (lookup p.user_id db.wallet.balances)) _ _
          (λ short. tt) λ enough. definitions-refund_all e now ps _ _

module _ (e : Engine) (row : Market) (now : ℕ) (db : Db)
    (refuses : (x : Db) → Fails (e.append_ledger_event row.id x))
    (defined : has_definition row.id db ≡ true) where
  integrity_event-Fails :
      (c : Call) (x : Db) → has_definition row.id x ≡ true → Fails (integrity_event e row.id c x)
  unfolding integrity_event
  integrity_event-Fails c x h = rw h (
      Fails-bind (e.append_ledger_event row.id x) _
        λ u signed. absurd (refused (e.append_ledger_event row.id x) signed (refuses x)))
    where
      refused : (r : Result (Unit {0})) {u : Unit {0}} → r ≡ ok u → Fails r → ⊥
      refused (ok u) signed f = f
      refused (err reason) signed f = cc

  lock_row-Fails : (staff : Option ℕ) → Fails (lock_row e staff row now db)
  unfolding lock_row set_market has_definition
  lock_row-Fails staff = integrity_event-Fails _ _ defined

  cancel_unresolved-Fails : Fails (cancel_unresolved e row now db)
  unfolding cancel_unresolved set_market has_definition refund_market_predictions
  cancel_unresolved-Fails = Fails-bind (refund_market_predictions e row.id now db) _ λ r refunded.
      Fails-bind (assert_no_open_predictions row.id r.1) _ λ u none_open.
        integrity_event-Fails _ _ (
          ap (λ ds. any (λ k. k == row.id) ds)
            (ensured _ _ (definitions-refund_all e now _ _ db) refunded)
          ∙ defined)

  -- When the signature of its event is refused, a market with a signed definition is neither closed,
  -- by the staff or by the daemon, nor canceled before a resolution: the request raises, whatever
  -- the engine's other callbacks do.
  pub refused_rejects :
      (has_note : Bool)
      → is_final row.status ≡ false
      → Fails (cancel_market e row has_note now db)
        × Fails (lock_market e row now db)
        × Fails (lock_market_automatically e row now db)
  unfolding cancel_market lock_market lock_market_automatically
  refused_rejects has_note f = (
    rw (cancel_from-eq-cancel_unresolved e row has_note now db row.status f)
        cancel_unresolved-Fails,
    Fails-bind (raise_if row.auto_close_enabled lock_requires_daemon) _ λ x manual.
        Fails-bind (raise_if (not (can_lock row.status)) lock_wrong_status) _
          λ y allowed. lock_row-Fails e.staff_id,
    Fails-bind (raise_if (not row.auto_close_enabled) lock_requires_staff) _ λ x automatic.
        Fails-bind (raise_if (not (can_lock row.status)) lock_wrong_status) _
          λ y allowed. lock_row-Fails Option.none,
  )
