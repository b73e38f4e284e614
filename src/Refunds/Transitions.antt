-- ===== src/Refunds/Transitions.antt =====
-- The transitions of a market keep what is locked equal to what is staked, and all of it refundable.
use gotrendlabs.Prelude.{
  ℕ, ◌≡◌, Bool, Option, err, raise_if, Ensures, Ensures-bind, ensured, succeeded, not, ◌||◌,
  Ensures-if, refl, Result, market_not_found, resolution_state_conflict,
  resolution_evidence_required, winning_option_invalid, timezone_invalid, undo_reason_required,
  undo_window_closed, lock_requires_daemon, lock_requires_staff, lock_wrong_status, ok,
}
use gotrendlabs.Prelude.Table.{lookup}
use gotrendlabs.Db.{Db, Market, MarketStatus, call, has_definition, open_predictions, Call}
use gotrendlabs.Position.Validate.{or_raise, find_option}
use gotrendlabs.Lifecycle.Engine.{Engine}
use gotrendlabs.Lifecycle.Settlement.{resolve_market_predictions}
use gotrendlabs.Lifecycle.Refund.{
  refund_market_predictions, assert_no_open_predictions, RefundCounts,
}
use gotrendlabs.Lifecycle.Settling.{api}
use gotrendlabs.Lifecycle.Resolving.{resolve_market_predictions-closes}
use gotrendlabs.Lifecycle.Reopening.{undo_resolved_market_predictions-IsBacked}
use gotrendlabs.Lifecycle.Canceling.{Refunded, refund_market_predictions-IsRefunded}
use gotrendlabs.Lifecycle.Signing.{integrity_event-Ensures}
use gotrendlabs.Lifecycle.Transitions.{
  set_market, integrity_event, register_definition, publish_draft, publish_from, publish_market,
  undo_resolution, cancel_unresolved, cancel_from, cancel_market, ResolvePayload, is_locked,
  resolve_market, lock_row, lock_market, lock_market_automatically, can_lock, undo_is_late,
}
use gotrendlabs.Refunds.Rows.{IsSafe, IsSafe-IsUnrefunded}
use gotrendlabs.Refunds.Markets.{
  CanRefund, resolve_market_predictions-CanRefund, undo_resolved_market_predictions-CanRefund,
  refund_market_predictions-CanRefund,
}

-- A change of other tables: credits and predictions stay.
pub record SameCredits (db db' : Db) : Type 0 where
  pub wallet : db'.wallet ≡ db.wallet
  pub predictions : db'.predictions ≡ db.predictions
  pub last_prediction_id : db'.last_prediction_id ≡ db.last_prediction_id

pub IsSafe-same : (db db' : Db) → SameCredits db db' → IsSafe db → IsSafe db'
IsSafe-same db db' s h = record {
  backed = record {
    backed = rw (s.wallet, s.predictions) h.backed.backed;
    consistent = rw s.wallet h.backed.consistent;
    keyed = rw (s.predictions, s.last_prediction_id) h.backed.keyed;
  };
  refundable = rw (s.wallet, s.predictions, s.last_prediction_id) h.refundable;
}

integrity_event-IsSafe :
    (e : Engine) (m : ℕ) (c : Call) (db : Db)
    → IsSafe db
    → Ensures IsSafe (integrity_event e m c db)
integrity_event-IsSafe e m c db h =
    integrity_event-Ensures e m c db IsSafe
      (IsSafe-same db _ (record { wallet = refl; predictions = refl; last_prediction_id = refl }) h)
      h

-- The writes that end a transition.
IsSafe-record :
    (e : Engine) (m : ℕ) (c d : Call) (f : Market → Market) (db : Db)
    → IsSafe db
    → Ensures IsSafe (integrity_event e m c (call d (set_market m f db)))
unfolding set_market
IsSafe-record e m c d f db h =
    integrity_event-IsSafe e m c _
      (IsSafe-same db _ (record { wallet = refl; predictions = refl; last_prediction_id = refl }) h)

module _ (staff : Option ℕ) (a b c sign schedule : ℕ → Db → Result (Unit {0})) (now : ℕ) (db : Db)
    (h : IsSafe db) where
  undo_resolution-IsSafe :
      (row : Market) (has_note : Bool)
      → Ensures IsSafe (undo_resolution (api staff a b c sign schedule) row has_note now db)
  unfolding undo_resolution
  undo_resolution-IsSafe row has_note =
      Ensures-bind _ (raise_if (not has_note) undo_reason_required) _ λ x noted.
        Ensures-bind _ (raise_if (undo_is_late now row.seal_due_at) undo_window_closed) _ λ y early.
          IsSafe-record (api staff a b c sign schedule) row.id _ _ _ _ (record {
            backed =
                undo_resolved_market_predictions-IsBacked staff a b c sign schedule row.id now db
                  h.backed;
            refundable =
                undo_resolved_market_predictions-CanRefund staff a b c sign schedule row.id now db
                  h.backed h.refundable;
          })

  -- The refunds of a canceled market that `reconcile_canceled_market_refunds` repeats.
  pub refund_market_predictions-IsSafe :
      (m : ℕ) (r : RefundCounts × Db)
      → refund_market_predictions (api staff a b c sign schedule) m now db ≡ ok r
      → IsSafe r.1
  refund_market_predictions-IsSafe m r refunded = record {
    backed =
        (succeeded (Refunded m db.markets (open_predictions m db) _) _
          (refund_market_predictions-IsRefunded staff a b c sign schedule m now db h.backed
            (IsSafe-IsUnrefunded m db h))
          refunded).0;
    refundable =
        ensured (λ x. CanRefund x.1) _
          (refund_market_predictions-CanRefund staff a b c sign schedule m now db h.backed
            h.refundable)
          refunded;
  }

  pub cancel_unresolved-IsSafe :
      (row : Market) → Ensures IsSafe (cancel_unresolved (api staff a b c sign schedule) row now db)
  unfolding cancel_unresolved
  cancel_unresolved-IsSafe row =
      Ensures-bind _ (refund_market_predictions (api staff a b c sign schedule) row.id now db) _
        λ r refunded. Ensures-bind _ (assert_no_open_predictions row.id r.1) _ λ y none_open.
          IsSafe-record (api staff a b c sign schedule) row.id _ _ _ r.1
            (refund_market_predictions-IsSafe row.id r refunded)

  cancel_from-IsSafe :
      (s : MarketStatus) (row : Market) (has_note : Bool)
      → Ensures IsSafe (cancel_from s (api staff a b c sign schedule) row has_note now db)
  unfolding cancel_from
  cancel_from-IsSafe MarketStatus.draft row has_note = cancel_unresolved-IsSafe row
  cancel_from-IsSafe MarketStatus.scheduled row has_note = cancel_unresolved-IsSafe row
  cancel_from-IsSafe MarketStatus.opened row has_note = cancel_unresolved-IsSafe row
  cancel_from-IsSafe MarketStatus.locked row has_note = cancel_unresolved-IsSafe row
  cancel_from-IsSafe MarketStatus.resolved row has_note = undo_resolution-IsSafe row has_note
  cancel_from-IsSafe MarketStatus.sealed row has_note = tt
  cancel_from-IsSafe MarketStatus.canceled row has_note = tt

  pub cancel_market-IsSafe :
      (row : Market) (has_note : Bool)
      → Ensures IsSafe (cancel_market (api staff a b c sign schedule) row has_note now db)
  unfolding cancel_market
  cancel_market-IsSafe row has_note = cancel_from-IsSafe row.status row has_note

  settled-IsSafe :
      (m winner : ℕ) (f : Market → Market)
      → IsSafe (
          resolve_market_predictions
            (api staff a b c sign schedule)
            m
            winner
            now
            (set_market m f db))
  unfolding set_market
  settled-IsSafe m winner f =
      let db1 = set_market m f db in
      let k =
        IsSafe-same db db1 (record { wallet = refl; predictions = refl; last_prediction_id = refl })
          h in
      record {
        backed =
            (resolve_market_predictions-closes staff a b c sign schedule m winner now db1
              k.backed).0;
        refundable =
            resolve_market_predictions-CanRefund staff a b c sign schedule m now winner db1 k.backed
              k.refundable;
      }

  pub resolve_market-IsSafe :
      (m : ℕ) (payload : ResolvePayload)
      → Ensures IsSafe (resolve_market (api staff a b c sign schedule) m payload now db)
  unfolding resolve_market
  resolve_market-IsSafe m payload =
      Ensures-bind _ (or_raise (lookup m db.markets) (err market_not_found)) _ λ row found.
        Ensures-bind _ (raise_if (not (is_locked row.status)) resolution_state_conflict) _
          λ x locked.
            Ensures-bind _ ((api staff a b c sign schedule).require_resolution m db) _ λ y allowed.
              Ensures-bind _
                (raise_if (not (payload.has_source_url || payload.has_note))
                  resolution_evidence_required)
                _
                λ z evidence.
                  Ensures-bind _
                    (or_raise (find_option m payload.winning_option_id db.options)
                      (err winning_option_invalid))
                    _
                    λ option chosen.
                      Ensures-bind _ (raise_if (not payload.timezone_is_known) timezone_invalid) _
                        λ v known. integrity_event-IsSafe (api staff a b c sign schedule) m _ _ (
                          IsSafe-same _ _
                            (record {
                              wallet = refl;
                              predictions = refl;
                              last_prediction_id = refl;
                            })
                            (settled-IsSafe m option.id _))

  register_definition-IsSafe :
      (m : ℕ) → Ensures IsSafe (register_definition (api staff a b c sign schedule) m db)
  unfolding register_definition
  register_definition-IsSafe m =
      Ensures-if IsSafe (has_definition m db) _ _ (λ defined. h)
        λ undefined.
          Ensures-bind IsSafe ((api staff a b c sign schedule).append_ledger_event m _) _
            λ x appended.
              IsSafe-same db _
                (record { wallet = refl; predictions = refl; last_prediction_id = refl }) h

  publish_draft-IsSafe :
      (m : ℕ) → Ensures IsSafe (publish_draft (api staff a b c sign schedule) m now db)
  unfolding publish_draft set_market
  publish_draft-IsSafe m =
      Ensures-bind _ ((api staff a b c sign schedule).validate_publishable m db) _ λ x publishable.
        Ensures-bind _ ((api staff a b c sign schedule).require_publication_approval m db) _
          λ y approved.
            Ensures-bind _ (register_definition (api staff a b c sign schedule) m db) _
              λ db1 registered.
                Ensures-bind _ ((api staff a b c sign schedule).register_schedule m db1) _
                  λ z scheduled.
                    IsSafe-same db1 _
                      (record { wallet = refl; predictions = refl; last_prediction_id = refl })
                      (ensured IsSafe _ (register_definition-IsSafe m) registered)

  publish_from-IsSafe :
      (s : MarketStatus) (m : ℕ)
      → Ensures IsSafe (publish_from s (api staff a b c sign schedule) m now db)
  unfolding publish_from
  publish_from-IsSafe MarketStatus.draft m = publish_draft-IsSafe m
  publish_from-IsSafe MarketStatus.scheduled m = publish_draft-IsSafe m
  publish_from-IsSafe MarketStatus.opened m = h
  publish_from-IsSafe MarketStatus.locked m = tt
  publish_from-IsSafe MarketStatus.resolved m = tt
  publish_from-IsSafe MarketStatus.sealed m = tt
  publish_from-IsSafe MarketStatus.canceled m = tt

  pub publish_market-IsSafe :
      (m : ℕ) → Ensures IsSafe (publish_market (api staff a b c sign schedule) m now db)
  unfolding publish_market
  publish_market-IsSafe m =
      Ensures-bind _ (or_raise (lookup m db.markets) (err market_not_found)) _
        λ row found. publish_from-IsSafe row.status m

module _ (e : Engine) (row : Market) (now : ℕ) (db : Db) (h : IsSafe db) where
  pub lock_row-IsSafe : (staff : Option ℕ) → Ensures IsSafe (lock_row e staff row now db)
  unfolding lock_row set_market
  lock_row-IsSafe staff =
      integrity_event-IsSafe e row.id _ _ (
        IsSafe-same db _ (record { wallet = refl; predictions = refl; last_prediction_id = refl })
          h)

  pub lock_market-IsSafe : Ensures IsSafe (lock_market e row now db)
  unfolding lock_market
  lock_market-IsSafe =
      Ensures-bind _ (raise_if row.auto_close_enabled lock_requires_daemon) _ λ x manual.
        Ensures-bind _ (raise_if (not (can_lock row.status)) lock_wrong_status) _
          λ y allowed. lock_row-IsSafe e.staff_id

  pub lock_market_automatically-IsSafe : Ensures IsSafe (lock_market_automatically e row now db)
  unfolding lock_market_automatically
  lock_market_automatically-IsSafe =
      Ensures-bind _ (raise_if (not row.auto_close_enabled) lock_requires_staff) _ λ x automatic.
        Ensures-bind _ (raise_if (not (can_lock row.status)) lock_wrong_status) _
          λ y allowed. lock_row-IsSafe Option.none
