-- ===== src/Lifecycle/Resolving.antt =====
-- The loop of `_resolve_market_predictions` with the API's callbacks.
use gotrendlabs.Prelude.{
  ℕ, ◌≡◌, Bool, true, Option, List, [], ◌∷◌, arith, ◌==◌, inl, inr, Bool-cases, if_either, refl,
  sym, Result, some, false,
}
use gotrendlabs.Prelude.Int.{pos, ◌+ℤ◌, int_laws, parts_of_eq, eq_of_parts}
use gotrendlabs.Prelude.Lists.{length}
use gotrendlabs.Prelude.Table.{lookup, update}
use gotrendlabs.Wallet.{Wallet}
use gotrendlabs.Wallet.Effects.{locked_of}
use gotrendlabs.Db.{
  Db, Prediction, open_predictions, open_count, open_in, open_stake_of, is_bot, is_open,
  set_prediction,
}
use gotrendlabs.Db.Stakes.{sum_rows-update}
use gotrendlabs.Db.Backing.{IsBacked}
use gotrendlabs.Lifecycle.Settlement.{
  settle_wallet, settled, settle_prediction, settle_all, resolve_market_predictions,
}
use gotrendlabs.Lifecycle.Pending.{
  IsPending, is_open_in, select-IsPending, IsPending-update, length-open_rows, IsBacked-write,
}
use gotrendlabs.Lifecycle.Settling.{
  KeepsStakes, KeepsStakes-IsBacked, apply_delta-KeepsStakes, api, settle_locked_own,
  settle_locked_other, settle-IsConsistent,
}

pub open_of : (m : ℕ) (p : Prediction) → is_open_in m p ≡ true → is_open p.status ≡ true
open_of m p e = ground arith

pub closed_in : (m : ℕ) (q : Prediction) → is_open q.status ≡ false → open_in m q ≡ 0
closed_in m q e = ground arith

-- A stake that leaves the locked balance with its row.
pub closing_moves :
    (p q : Prediction) (w w' : Wallet) (j : ℕ)
    → is_open p.status ≡ true
    → is_open q.status ≡ false
    → ((p.user_id == j) ≡ true → locked_of j w' +ℤ pos p.stake_amount ≡ locked_of j w)
    → ((p.user_id == j) ≡ false → locked_of j w' ≡ locked_of j w)
    → locked_of j w' +ℤ pos (open_stake_of j p) ≡ locked_of j w +ℤ pos (open_stake_of j q)
closing_moves p q w w' j o c own other = elim (Bool-cases (p.user_id == j)) [
  | inl same ↦
      rw (same, o) (eq_of_parts _ _ (omega (int_laws, parts_of_eq (own same), closed_stake j q c)))
  | inr differ ↦
      rw differ (eq_of_parts _ _ (omega (int_laws, parts_of_eq (other differ), closed_stake j q c)))
]
  where
    closed_stake : (j : ℕ) (q : Prediction) → is_open q.status ≡ false → open_stake_of j q ≡ 0
    closed_stake j q e = ground arith

-- The state of a loop that closes the open predictions ps of the market m.
pub record IsClosing (m : ℕ) (ps : List Prediction) (db : Db) : Type 0 where
  pub safe : IsBacked db
  pub pending : IsPending (is_open_in m) db.predictions ps
  pub remaining : open_count m db.predictions ≡ length ps

pub IsClosing-start : (m : ℕ) (db : Db) → IsBacked db → IsClosing m (open_predictions m db) db
unfolding open_predictions
IsClosing-start m db h = record {
  safe = h;
  pending = select-IsPending (is_open_in m) db.last_prediction_id db.predictions h.keyed;
  remaining = sym (length-open_rows m db.predictions);
}

-- One row was closed.
pub IsClosing-step :
    (m : ℕ) (p : Prediction) (ps : List Prediction) (f : Prediction → Prediction) (db db' : Db)
    → open_in m (f p) ≡ 0
    → db'.predictions ≡ update p.id f db.predictions
    → IsBacked db'
    → IsClosing m (p ∷ ps) db
    → IsClosing m ps db'
IsClosing-step m p ps f db db' closed e safe' h = record {
  safe = safe';
  pending = rw e (IsPending-update (is_open_in m) p.id f db.predictions ps h.pending.2 h.pending.3);
  remaining = rw e (
      omega (
        arith,
        closed,
        h.remaining,
        sum_rows-update (open_in m) p.id f p db.predictions h.pending.0,
        open_in_of m p h.pending.1,
      ));
}
  where
    open_in_of : (m : ℕ) (p : Prediction) → is_open_in m p ≡ true → open_in m p ≡ 1
    open_in_of m p e = rw e refl

KeepsStakes-IsClosing :
    (m : ℕ) (ps : List Prediction) (db db' : Db)
    → KeepsStakes db db'
    → IsClosing m ps db
    → IsClosing m ps db'
KeepsStakes-IsClosing m ps db db' k h = record {
  safe = KeepsStakes-IsBacked db db' k h.safe;
  pending = rw k.predictions h.pending;
  remaining = rw k.predictions h.remaining;
}

module _ (staff : Option ℕ) (a b c sign schedule : ℕ → Db → Result (Unit {0}))
    (m winner now : ℕ) where
  settled-IsBacked :
      (won : Bool) (p : Prediction) (db : Db)
      → IsBacked db
      → lookup p.id db.predictions ≡ some p
      → is_open_in m p ≡ true
      → IsBacked (record db {
        wallet = settle_wallet (api staff a b c sign schedule) won p db.wallet;
        predictions = update p.id (settled won now) db.predictions;
      })
  settled-IsBacked won p db h e opened =
      IsBacked-write p (settled won now) _ db (λ q. refl) e
        (λ j.
          closing_moves p (settled won now p) db.wallet _ j (open_of m p opened) refl
            (settle_locked_own staff a b c sign schedule j p db.wallet won)
            (settle_locked_other staff a b c sign schedule j p db.wallet won))
        (settle-IsConsistent staff a b c sign schedule won p db.wallet h.consistent) h

  pub settle_prediction-IsClosing :
      (p : Prediction) (ps : List Prediction) (db : Db)
      → IsClosing m (p ∷ ps) db
      → IsClosing m ps (settle_prediction (api staff a b c sign schedule) winner now p db)
  unfolding settle_prediction set_prediction
  settle_prediction-IsClosing p ps db h =
      let won = p.market_option_id == winner in
      let db1 = record db {
        wallet = settle_wallet (api staff a b c sign schedule) won p db.wallet;
        predictions = update p.id (settled won now) db.predictions;
      } in
      let step =
        IsClosing-step m p ps (settled won now) db db1 (closed_in m (settled won now p) refl) refl
          (settled-IsBacked won p db h.safe h.pending.0 h.pending.1) h in
      if_either (IsClosing m ps) (is_bot p.user_id db1) step (
        KeepsStakes-IsClosing m ps db1 _
          (apply_delta-KeepsStakes staff a b c sign schedule p.user_id p.probability_at_entry won
            db1)
          step)

  settle_all-IsClosing :
      (ps : List Prediction) (db : Db)
      → IsClosing m ps db
      → IsClosing m [] (settle_all (api staff a b c sign schedule) winner now ps db)
  unfolding settle_all
  settle_all-IsClosing [] db h = h
  settle_all-IsClosing (p ∷ ps) db h =
      settle_all-IsClosing ps _ (settle_prediction-IsClosing p ps db h)

  -- Settling a market, with the API's callbacks and whatever option won, leaves no open prediction
  -- in it, and keeps every locked balance equal to the user's stakes in open predictions, every
  -- balance row equal to the totals of the ledger, and the prediction ids unique.
  pub resolve_market_predictions-closes :
      (db : Db)
      → IsBacked db
      → let db' = resolve_market_predictions (api staff a b c sign schedule) m winner now db in
        IsBacked db' × (open_count m db'.predictions ≡ 0)
  unfolding resolve_market_predictions
  resolve_market_predictions-closes db h =
      let end = settle_all-IsClosing (open_predictions m db) db (IsClosing-start m db h) in
      (
        record {
          backed = end.safe.backed;
          consistent = end.safe.consistent;
          keyed = end.safe.keyed;
        },
        end.remaining,
      )
