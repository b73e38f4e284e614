-- ===== src/Daemon/Releases.antt =====
-- The refunds that the daemon records are those that the API records.
use gotrendlabs.Prelude.{
  ℕ, ◌≡◌, false, Option, none, some, List, [], ◌∷◌, ◌+◌, arith, refl, ap, ◌∙◌, inl, inr, Bool-cases,
  Result, ==_refl,
}
use gotrendlabs.Prelude.Int.{pos, ◌≤ℤ◌}
use gotrendlabs.Prelude.Table.{Table, lookup, update, insert_new, lookup-update, lookup-insert_new}
use gotrendlabs.Wallet.{
  Wallet, Balance, release, EntryType, Reference, prediction, prediction_refund, add, deltas,
  no_gtl, insert_entry, credit_messages, ensure_wallet_balance, record_wallet_entry,
}
use gotrendlabs.Wallet.Consistency.{lookup-record_wallet_entry}
use gotrendlabs.Db.{Db, Market, Prediction, set_prediction}
use gotrendlabs.Lifecycle.Engine.{
  Engine, api_engine, daemon_engine, daemon_record_wallet_entry, daemon_release,
}
use gotrendlabs.Lifecycle.Refund.{
  RefundCounts, refund_stake, refund_all, refund_market_predictions, has_refund, locked_is_short,
  withdrawn,
}
use gotrendlabs.Lifecycle.Daemon.{daemon_release-eq-record_wallet_entry}
use gotrendlabs.Lifecycle.Settling.{api}
use gotrendlabs.Lifecycle.Transitions.{cancel_unresolved}

insert_new_present :
    {V : Type 0} (k : ℕ) (v w : V) (t : Table V) → lookup k t ≡ some v → insert_new k w t ≡ t
unfolding lookup insert_new
insert_new_present k v w [] e = cc
insert_new_present k v w ((j, x) ∷ t) e = ground (arith, insert_new_present k v w t)

update_agree :
    {V : Type 0} (k : ℕ) (v : V) (f g : V → V) (t : Table V)
    → lookup k t ≡ some v
    → f v ≡ g v
    → update k f t ≡ update k g t
unfolding lookup update
update_agree k v f g [] e same = refl
update_agree k v f g ((j, x) ∷ t) e same = ground (arith, update_agree k v f g t)

ensure_present :
    (u : ℕ) (w : Wallet) (b : Balance)
    → lookup u w.balances ≡ some b
    → ensure_wallet_balance u w ≡ w
unfolding ensure_wallet_balance
ensure_present u w b e = rw (ensure_wallet_balance, e) refl

-- What the two UPDATEs make of a covered row.
released_row :
    (u amount : ℕ) (t : EntryType) (r : Reference) (by : Option ℕ) (w : Wallet) (b : Balance)
    → lookup u w.balances ≡ some b
    → pos amount ≤ℤ b.locked_gtl
    → daemon_release amount release b ≡ add (deltas t amount release) b
unfolding daemon_record_wallet_entry insert_entry
released_row u amount t r by w b e le =
    let api_side : lookup u (record_wallet_entry u t amount release r by w).balances
        ≡ some (add (deltas t amount release) b) =
      lookup-record_wallet_entry u t amount release r by w u ∙ rw (==_refl u, e) refl in
    let daemon_side : lookup u (daemon_record_wallet_entry u t amount release r by w).balances
        ≡ some (daemon_release amount release b) =
      rw (lookup-update, lookup-insert_new, ==_refl u, e) refl in
    let both = daemon_release-eq-record_wallet_entry u amount t r by w b e le in
    cc (api_side, daemon_side, both)

-- A release that the locked balance covers is recorded by the daemon as by the API.
pub daemon_record-eq-record_wallet_entry :
    (u amount : ℕ) (t : EntryType) (r : Reference) (by : Option ℕ) (w : Wallet) (b : Balance)
    → lookup u w.balances ≡ some b
    → pos amount ≤ℤ b.locked_gtl
    → daemon_record_wallet_entry u t amount release r by w
      ≡ record_wallet_entry u t amount release r by w
unfolding daemon_record_wallet_entry record_wallet_entry insert_entry credit_messages
daemon_record-eq-record_wallet_entry u amount t r by w b e le =
    rw (ensure_present u w b e, insert_new_present u b no_gtl w.balances e)
      (rw
        (update_agree u b (daemon_release amount release) (add (deltas t amount release)) w.balances
          e (released_row u amount t r by w b e le))
        refl)

covered_row :
    (stake : ℕ) (o : Option Balance)
    → locked_is_short stake o ≡ false
    → (b : Balance) × (o ≡ some b) × (pos stake ≤ℤ b.locked_gtl)
unfolding locked_is_short
covered_row stake none h = cc
covered_row stake (some b) h = (b, refl, ground arith)

module _ (approved resolvable sign schedule a b c : ℕ → Db → Result (Unit {0})) where
  abbrev pub daemon : Engine
  daemon = daemon_engine approved resolvable sign schedule

  refund_stake_eq :
      (p : Prediction) (w : Wallet)
      → locked_is_short p.stake_amount (lookup p.user_id w.balances) ≡ false
      → refund_stake daemon p w ≡ refund_stake (api none a b c sign schedule) p w
  unfolding api_engine daemon_engine refund_stake
  refund_stake_eq p w enough =
      let (row, found, le) = covered_row p.stake_amount (lookup p.user_id w.balances) enough in
      daemon_record-eq-record_wallet_entry p.user_id p.stake_amount prediction_refund
        (prediction p.id) none w row found le

  refund_all_eq :
      (now : ℕ) (ps : List Prediction) (counts : RefundCounts) (db : Db)
      → refund_all daemon now ps counts db
        ≡ refund_all (api none a b c sign schedule) now ps counts db
  unfolding refund_all set_prediction
  refund_all_eq now [] counts db = refl
  refund_all_eq now (p ∷ ps) counts db = elim (Bool-cases (has_refund p.id db.wallet.ledger)) [
    | inl refunded ↦ rw refunded (refund_all_eq now ps _ _)
    | inr unrefunded ↦
        rw unrefunded
          (elim (Bool-cases
            (locked_is_short p.stake_amount (lookup p.user_id db.wallet.balances))) [
              | inl short ↦ rw short refl
              | inr enough ↦ rw enough (
                  refund_all_eq now ps _ _
                  ∙ ap
                      (λ w.
                        refund_all (api none a b c sign schedule) now ps
                          (record counts { refunds_created = counts.refunds_created + 1 })
                          (record db {
                            wallet = w;
                            predictions = update p.id (withdrawn now) db.predictions;
                          }))
                      (refund_stake_eq p db.wallet enough))
            ])
  ]

  -- The refunds of a market are the same with the daemon's callbacks as with the API's, in any state.
  pub refund_market_predictions-eq-api :
      (m now : ℕ) (db : Db)
      → refund_market_predictions daemon m now db
        ≡ refund_market_predictions (api none a b c sign schedule) m now db
  unfolding refund_market_predictions
  refund_market_predictions-eq-api m now db = refund_all_eq now _ _ db

  pub cancel_unresolved-eq-api :
      (row : Market) (now : ℕ) (db : Db)
      → cancel_unresolved daemon row now db
        ≡ cancel_unresolved (api none a b c sign schedule) row now db
  unfolding cancel_unresolved api_engine daemon_engine
  cancel_unresolved-eq-api row now db = rw (refund_market_predictions-eq-api row.id now db) refl
