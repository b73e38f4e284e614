-- ===== src/Lifecycle/Reopening.antt =====
-- The loop of `_undo_resolved_market_predictions` with the API's callbacks, and the branch of
-- `cancel_market` that runs it.
use gotrendlabs.Prelude.{
  ℕ, ◌≡◌, Bool, true, false, Option, some, List, [], ◌∷◌, arith, ◌==◌, ◌&&◌, inl, inr, Bool-cases,
  refl, ◌∙◌, Result, ok, raise_if, Ensures, Ensures-map, Ensures-bind, ensured, not, raise_if-eq-ok,
  raise_if-not-eq-ok, undo_reason_required, undo_window_closed, ==_refl,
}
use gotrendlabs.Prelude.Int.{pos, ◌+ℤ◌, int_laws, parts_of_eq, eq_of_parts}
use gotrendlabs.Prelude.Table.{lookup, lookup-update}
use gotrendlabs.Wallet.{Wallet}
use gotrendlabs.Wallet.Effects.{locked_of}
use gotrendlabs.Db.{
  Db, Market, MarketStatus, Prediction, is_open, is_resolved, open_stake_of, resolved_predictions,
  set_prediction, call, admin_resolution_undo, integrity_resolution_undone,
}
use gotrendlabs.Db.Backing.{IsBacked}
use gotrendlabs.Lifecycle.Engine.{api_engine}
use gotrendlabs.Lifecycle.Reputation.{recalculate_user_reputation, write_reputation}
use gotrendlabs.Lifecycle.Undo.{
  reopened, undo_prediction, undo_all, affected_users, recalculate_all,
  undo_resolved_market_predictions,
}
use gotrendlabs.Lifecycle.Pending.{IsPending, select-IsPending, IsPending-update, IsBacked-write}
use gotrendlabs.Lifecycle.Settling.{
  api, KeepsStakes, KeepsStakes-IsBacked, ensure_user_core-KeepsStakes,
}
use gotrendlabs.Lifecycle.Undoing.{undo_locked_own, undo_locked_other, undo-IsConsistent}
use gotrendlabs.Lifecycle.Signing.{integrity_event-Ensures}
use gotrendlabs.Lifecycle.Transitions.{
  status_of, set_market, integrity_event, undo_resolution, cancel_from, cancel_market, undo_is_late,
  unresolved,
}

-- WHERE market_id = m AND status = 'resolved'
abbrev pub is_resolved_in : ℕ → Prediction → Bool
is_resolved_in m p = (p.market_id == m) && is_resolved p.status

closed_of : (m : ℕ) (p : Prediction) → is_resolved_in m p ≡ true → is_open p.status ≡ false
closed_of m p e = ground arith

-- A stake that enters the locked balance with its row.
opening_moves :
    (p q : Prediction) (w w' : Wallet) (j : ℕ)
    → is_open p.status ≡ false
    → is_open q.status ≡ true
    → q.user_id ≡ p.user_id
    → q.stake_amount ≡ p.stake_amount
    → ((p.user_id == j) ≡ true → locked_of j w' ≡ locked_of j w +ℤ pos p.stake_amount)
    → ((p.user_id == j) ≡ false → locked_of j w' ≡ locked_of j w)
    → locked_of j w' +ℤ pos (open_stake_of j p) ≡ locked_of j w +ℤ pos (open_stake_of j q)
opening_moves p q w w' j c o u s own other = elim (Bool-cases (p.user_id == j)) [
  | inl same ↦ rw (u, s, same, o, c) (eq_of_parts _ _ (omega (int_laws, parts_of_eq (own same))))
  | inr differ ↦
      rw (u, differ)
        (eq_of_parts _ _ (omega (int_laws, parts_of_eq (other differ), closed_stake j p c)))
]
  where
    closed_stake : (j : ℕ) (q : Prediction) → is_open q.status ≡ false → open_stake_of j q ≡ 0
    closed_stake j q e = ground arith

-- The state of the loop that reopens the resolved predictions ps.
pub record IsReopening (m : ℕ) (ps : List Prediction) (db : Db) : Type 0 where
  pub safe : IsBacked db
  pub pending : IsPending (is_resolved_in m) db.predictions ps

module _ (staff : Option ℕ) (a b c sign schedule : ℕ → Db → Result (Unit {0})) (m now : ℕ) where
  pub undo_prediction-IsReopening :
      (p : Prediction) (ps : List Prediction) (db : Db)
      → IsReopening m (p ∷ ps) db
      → IsReopening m ps (undo_prediction (api staff a b c sign schedule) now p db)
  unfolding undo_prediction set_prediction
  undo_prediction-IsReopening p ps db h = record {
    safe =
        IsBacked-write p (reopened now) _ db (λ q. refl) h.pending.0
          (λ j.
            opening_moves p (reopened now p) db.wallet _ j (closed_of m p h.pending.1) refl refl
              refl (undo_locked_own staff a b c sign schedule j p db.wallet)
              (undo_locked_other staff a b c sign schedule j p db.wallet))
          (undo-IsConsistent staff a b c sign schedule p db.wallet h.safe.consistent) h.safe;
    pending =
        IsPending-update (is_resolved_in m) p.id (reopened now) db.predictions ps h.pending.2
          h.pending.3;
  }

  undo_all-IsReopening :
      (ps : List Prediction) (db : Db)
      → IsReopening m ps db
      → IsReopening m [] (undo_all (api staff a b c sign schedule) now ps db)
  unfolding undo_all
  undo_all-IsReopening [] db h = h
  undo_all-IsReopening (p ∷ ps) db h =
      undo_all-IsReopening ps _ (undo_prediction-IsReopening p ps db h)

  pub recalculate-KeepsStakes :
      (u : ℕ) (db : Db)
      → KeepsStakes db (recalculate_user_reputation (api staff a b c sign schedule) u db)
  unfolding api_engine recalculate_user_reputation write_reputation
  recalculate-KeepsStakes u db =
      let k = ensure_user_core-KeepsStakes u db in
      record {
        wallet = k.wallet;
        predictions = k.predictions;
        last_prediction_id = k.last_prediction_id;
        markets = k.markets;
      }

  recalculate_all-IsBacked :
      (us : List ℕ) (db : Db)
      → IsBacked db
      → IsBacked (recalculate_all (api staff a b c sign schedule) us db)
  unfolding recalculate_all
  recalculate_all-IsBacked [] db h = h
  recalculate_all-IsBacked (u ∷ us) db h =
      recalculate_all-IsBacked us _ (KeepsStakes-IsBacked db _ (recalculate-KeepsStakes u db) h)

  -- Undoing a market's resolution, with the API's callbacks, keeps every locked balance equal to the
  -- user's stakes in open predictions, every balance row equal to the totals of the ledger, and the
  -- prediction ids unique.
  pub undo_resolved_market_predictions-IsBacked :
      (db : Db)
      → IsBacked db
      → IsBacked (undo_resolved_market_predictions (api staff a b c sign schedule) m now db)
  unfolding undo_resolved_market_predictions resolved_predictions
  undo_resolved_market_predictions-IsBacked db h =
      recalculate_all-IsBacked (affected_users (resolved_predictions m db)) _
        (undo_all-IsReopening (resolved_predictions m db) db (record {
          safe = h;
          pending =
              select-IsPending (is_resolved_in m) db.last_prediction_id db.predictions h.keyed;
        })).safe

  markets-undo_all :
      (ps : List Prediction) (db : Db)
      → (undo_all (api staff a b c sign schedule) now ps db).markets ≡ db.markets
  unfolding undo_all undo_prediction set_prediction
  markets-undo_all [] db = refl
  markets-undo_all (p ∷ ps) db = markets-undo_all ps _

  markets-recalculate_all :
      (us : List ℕ) (db : Db)
      → (recalculate_all (api staff a b c sign schedule) us db).markets ≡ db.markets
  unfolding recalculate_all
  markets-recalculate_all [] db = refl
  markets-recalculate_all (u ∷ us) db =
      markets-recalculate_all us _ ∙ (recalculate-KeepsStakes u db).markets

  markets-undo_resolved :
      (db : Db)
      → (undo_resolved_market_predictions (api staff a b c sign schedule) m now db).markets
        ≡ db.markets
  unfolding undo_resolved_market_predictions
  markets-undo_resolved db =
      markets-recalculate_all (affected_users (resolved_predictions m db)) _
      ∙ markets-undo_all (resolved_predictions m db) db

module _ (staff : Option ℕ) (a b c sign schedule : ℕ → Db → Result (Unit {0})) (row : Market)
    (now : ℕ) (db : Db) where
  unresolved-status :
      (db' : Db)
      → lookup row.id db'.markets ≡ some row
      → IsBacked db'
      → Ensures
          (λ x. IsBacked x × (status_of row.id x ≡ some MarketStatus.locked))
          (integrity_event
            (api staff a b c sign schedule)
            row.id
            (integrity_resolution_undone row.id)
            (call (admin_resolution_undo row.id) (set_market row.id (unresolved staff now) db')))
  unfolding set_market
  unresolved-status db' e h =
      let done : status_of row.id (set_market row.id (unresolved staff now) db')
          ≡ some MarketStatus.locked =
        rw (lookup-update row.id row.id (unresolved staff now) db'.markets, ==_refl row.id, e)
          refl in
      integrity_event-Ensures (api staff a b c sign schedule) row.id _ _
        (λ x. IsBacked x × (status_of row.id x ≡ some MarketStatus.locked))
        (record { backed = h.backed; consistent = h.consistent; keyed = h.keyed }, done)
        (record { backed = h.backed; consistent = h.consistent; keyed = h.keyed }, done)

  -- A resolved market of the table whose cancellation is accepted ends locked; a note was given,
  -- its sealing was not due, and, if it was so before, every user's locked balance is the sum of
  -- the user's stakes in open predictions, every balance row equals the totals of the ledger, and
  -- the prediction ids are unique.
  pub cancel_market-undoes :
      (has_note : Bool) {db' : Db}
      → row.status ≡ MarketStatus.resolved
      → lookup row.id db.markets ≡ some row
      → IsBacked db
      → cancel_market (api staff a b c sign schedule) row has_note now db ≡ ok db'
      → IsBacked db'
        × (status_of row.id db' ≡ some MarketStatus.locked)
        × (has_note ≡ true)
        × (undo_is_late now row.seal_due_at ≡ false)
  unfolding cancel_market cancel_from undo_resolution api_engine
  cancel_market-undoes has_note s e h =
      let db1 = undo_resolved_market_predictions (api staff a b c sign schedule) row.id now db in
      ensured
        (λ x.
          IsBacked x
          × (status_of row.id x ≡ some MarketStatus.locked)
          × (has_note ≡ true)
          × (undo_is_late now row.seal_due_at ≡ false))
        _
        (rw s (
          Ensures-bind _ (raise_if (not has_note) undo_reason_required) _ λ x noted.
            Ensures-bind _ (raise_if (undo_is_late now row.seal_due_at) undo_window_closed) _
              λ y early.
                Ensures-map (λ x. IsBacked x × (status_of row.id x ≡ some MarketStatus.locked)) _ _
                  (λ x done.
                    (done.0, done.1, raise_if-not-eq-ok _ _ noted, raise_if-eq-ok _ _ early))
                  (unresolved-status db1
                    (rw (markets-undo_resolved staff a b c sign schedule row.id now db) e)
                    (undo_resolved_market_predictions-IsBacked staff a b c sign schedule row.id now
                      db h))))
