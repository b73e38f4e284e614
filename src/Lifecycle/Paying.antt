-- ===== src/Lifecycle/Paying.antt =====
-- What a whole settlement pays to each user, with the API's callbacks.
use gotrendlabs.Prelude.{
  ℕ, ◌≤◌, ◌≡◌, Bool, true, false, Option, List, [], ◌∷◌, ◌==◌, ◌&&◌, ◌||◌, if◌then◌else◌, arith,
  inl, inr, Bool-cases, Option-cases, if_either, refl, sym, ap, ◌∙◌, Result,
}
use gotrendlabs.Prelude.Int.{pos, ◌+ℤ◌, int_laws, parts_of_eq, +ℤ_zero}
use gotrendlabs.Prelude.Lists.{All, any, sum_by}
use gotrendlabs.Prelude.Table.{lookup, update}
use gotrendlabs.Wallet.{
  Wallet, Direction, EntryType, Reference, release, credit, settle, prediction_refund,
  prediction_payout, prediction_loss, prediction, is_grant_initial, record_wallet_entry,
  insert_entry, ensure_wallet_balance,
}
use gotrendlabs.Wallet.Consistency.{
  balance_of, balance_of-ensure_wallet_balance, ledger-ensure_wallet_balance,
}
use gotrendlabs.Wallet.Effects.{available_of, available-record_other}
use gotrendlabs.Db.{Db, Prediction, open_predictions, is_bot, set_prediction}
use gotrendlabs.Lifecycle.Engine.{api_engine, ensure_user_core, grant_once, has_initial_grant}
use gotrendlabs.Lifecycle.Settlement.{
  payout_net, pay_winner, charge_loser, settle_wallet, settled, settle_prediction, settle_all,
  resolve_market_predictions,
}
use gotrendlabs.Lifecycle.Reputation.{apply_reputation_delta, write_reputation}
use gotrendlabs.Lifecycle.Settling.{api, settle_own}

-- What the user j is paid for a prediction when the option won.
abbrev pub prize : ℕ → ℕ → Prediction → ℕ
prize j winner p =
    if p.user_id == j then (if p.market_option_id == winner then p.potential_payout else 0) else 0

-- The grant is in the ledger, and no entry takes it out.
has_initial_grant-record :
    (j u : ℕ) (t : EntryType) (amount : ℕ) (d : Direction) (r : Reference) (by : Option ℕ)
    (w : Wallet)
    → has_initial_grant j w ≡ true
    → has_initial_grant j (record_wallet_entry u t amount d r by w) ≡ true
unfolding has_initial_grant record_wallet_entry insert_entry
has_initial_grant-record j u t amount d r by w h = ground (
  arith,
  ap (any (λ e. (e.user_id == j) && is_grant_initial e.entry_type))
        (ledger-ensure_wallet_balance u w)
      ∙ h,
)

has_initial_grant-ensure :
    (u j : ℕ) (w : Wallet) → has_initial_grant j (ensure_wallet_balance u w) ≡ has_initial_grant j w
unfolding has_initial_grant
has_initial_grant-ensure u j w =
    ap (any (λ e. (e.user_id == j) && is_grant_initial e.entry_type))
      (ledger-ensure_wallet_balance u w)

-- Nobody's numbers change, and no grant goes away.
record IsIdle (w w' : Wallet) : Type 0 where
  shown : (j : ℕ) → balance_of j w' ≡ balance_of j w
  granted : (j : ℕ) → has_initial_grant j w ≡ true → has_initial_grant j w' ≡ true

ensure-IsIdle : (u : ℕ) (w : Wallet) → IsIdle w (ensure_wallet_balance u w)
ensure-IsIdle u w = record {
  shown = λ j. balance_of-ensure_wallet_balance u j w;
  granted = λ j g. has_initial_grant-ensure u j w ∙ g;
}

-- A user who was granted the initial credits gets none from setting up the core rows.
ensure_user_core-IsIdle :
    (u : ℕ) (db : Db)
    → has_initial_grant u db.wallet ≡ true
    → IsIdle db.wallet (ensure_user_core u db).wallet
unfolding ensure_user_core grant_once
ensure_user_core-IsIdle u db granted = elim (Option-cases (lookup u db.users)) [
  | inl missing ↦ rw (ensure_user_core, missing) (record { shown = λ j. refl; granted = λ j g. g })
  | inr (user, found) ↦
      rw (ensure_user_core, found, granted)
        (if_either (λ (x : Db). IsIdle db.wallet x.wallet)
          (user.is_staff || user.is_superuser || user.is_bot) (ensure-IsIdle u db.wallet)
          (ensure-IsIdle u db.wallet))
]

-- The users of the predictions have their grants.
abbrev pub AreGranted : Wallet → List Prediction → Type 0
AreGranted w ps = All (λ p. has_initial_grant p.user_id w ≡ true) ps

AreGranted-map :
    (w w' : Wallet) (ps : List Prediction)
    → ((j : ℕ) → has_initial_grant j w ≡ true → has_initial_grant j w' ≡ true)
    → AreGranted w ps
    → AreGranted w' ps
AreGranted-map w w' [] f h = tt
AreGranted-map w w' (p ∷ ps) f h = (f p.user_id h.0, AreGranted-map w w' ps f h.1)

-- No payout is below its stake.
abbrev pub AreCovered : List Prediction → Type 0
AreCovered ps = All (λ p. p.stake_amount ≤ p.potential_payout) ps

module _ (staff : Option ℕ) (a b c sign schedule : ℕ → Db → Result (Unit {0})) where
  module _ (j : ℕ) (p : Prediction) (w : Wallet) where
    settle_available_other :
        (won : Bool)
        → (p.user_id == j) ≡ false
        → available_of j (settle_wallet (api staff a b c sign schedule) won p w) ≡ available_of j w
    unfolding api_engine settle_wallet pay_winner charge_loser
    settle_available_other true other =
        let e1 =
          available-record_other p.user_id j prediction_refund p.stake_amount release
            (prediction p.id) staff w other in
        if_either (λ w'. available_of j w' ≡ available_of j w) (payout_net p == 0) e1
          (available-record_other p.user_id j prediction_payout (payout_net p) credit
              (prediction p.id) staff _ other
            ∙ e1)
    settle_available_other false other =
        available-record_other p.user_id j prediction_loss p.stake_amount settle (prediction p.id)
          staff w other

    settle_wallet-granted :
        (won : Bool)
        → has_initial_grant j w ≡ true
        → has_initial_grant j (settle_wallet (api staff a b c sign schedule) won p w) ≡ true
    unfolding api_engine settle_wallet pay_winner charge_loser
    settle_wallet-granted true h =
        let e1 =
          has_initial_grant-record j p.user_id prediction_refund p.stake_amount release
            (prediction p.id) staff w h in
        if_either (λ w'. has_initial_grant j w' ≡ true) (payout_net p == 0) e1
          (has_initial_grant-record j p.user_id prediction_payout (payout_net p) credit
            (prediction p.id) staff _ e1)
    settle_wallet-granted false h =
        has_initial_grant-record j p.user_id prediction_loss p.stake_amount settle (prediction p.id)
          staff w h

    -- One settlement pays the prize.
    settle_wallet-prize :
        (winner : ℕ)
        → p.stake_amount ≤ p.potential_payout
        → available_of j
            (settle_wallet (api staff a b c sign schedule) (p.market_option_id == winner) p w)
          ≡ available_of j w +ℤ pos (prize j winner p)
    settle_wallet-prize winner le = elim (Bool-cases (p.user_id == j)) [
      | inl same ↦
          (settle_own staff a b c sign schedule j p w same (p.market_option_id == winner) le).1
          ∙ ap
              (λ b.
                available_of j w
                +ℤ pos (
                    if b
                    then (if p.market_option_id == winner then p.potential_payout else 0)
                    else 0))
              (sym same)
      | inr other ↦
          settle_available_other (p.market_option_id == winner) other
          ∙ sym (+ℤ_zero (available_of j w))
          ∙ ap
              (λ b.
                available_of j w
                +ℤ pos (
                    if b
                    then (if p.market_option_id == winner then p.potential_payout else 0)
                    else 0))
              (sym other)
    ]

  apply_delta-IsIdle :
      (u p : ℕ) (won : Bool) (db : Db)
      → has_initial_grant u db.wallet ≡ true
      → IsIdle db.wallet (apply_reputation_delta (api staff a b c sign schedule) u p won db).wallet
  unfolding api_engine apply_reputation_delta write_reputation
  apply_delta-IsIdle u p won db granted = ensure_user_core-IsIdle u db granted

  -- What a step pays, and that it takes no grant away.
  abbrev Pays : (ℕ → ℕ) → Wallet → Wallet → Type 0
  Pays paid w w' =
      ((j : ℕ) → available_of j w' ≡ available_of j w +ℤ pos (paid j))
      × ((j : ℕ) → has_initial_grant j w ≡ true → has_initial_grant j w' ≡ true)

  Pays-idle : (paid : ℕ → ℕ) (w w1 w2 : Wallet) → Pays paid w w1 → IsIdle w1 w2 → Pays paid w w2
  Pays-idle paid w w1 w2 p i =
      (λ j. ap (λ b. b.available_gtl) (i.shown j) ∙ p.0 j, λ j g. i.granted j (p.1 j g))

  settle_prediction-Pays :
      (winner now : ℕ) (p : Prediction) (db : Db)
      → has_initial_grant p.user_id db.wallet ≡ true
      → p.stake_amount ≤ p.potential_payout
      → Pays
          (λ j. prize j winner p)
          db.wallet
          (settle_prediction (api staff a b c sign schedule) winner now p db).wallet
  unfolding settle_prediction set_prediction
  settle_prediction-Pays winner now p db granted le =
      let won = p.market_option_id == winner in
      let db1 = record db {
        wallet = settle_wallet (api staff a b c sign schedule) won p db.wallet;
        predictions = update p.id (settled won now) db.predictions;
      } in
      let paid : Pays (λ j. prize j winner p) db.wallet db1.wallet = (
        λ j. settle_wallet-prize j p db.wallet winner le,
        λ j. settle_wallet-granted j p db.wallet won,
      ) in
      if_either (λ (x : Db). Pays (λ j. prize j winner p) db.wallet x.wallet) (is_bot p.user_id db1)
        paid
        (Pays-idle _ db.wallet db1.wallet _ paid
          (apply_delta-IsIdle p.user_id p.probability_at_entry won db1 (paid.1 p.user_id granted)))

  settle_all-Pays :
      (winner now : ℕ) (ps : List Prediction) (db : Db) (j : ℕ)
      → AreGranted db.wallet ps
      → AreCovered ps
      → available_of j (settle_all (api staff a b c sign schedule) winner now ps db).wallet
        ≡ available_of j db.wallet +ℤ pos (sum_by (prize j winner) ps)
  unfolding settle_all
  settle_all-Pays winner now [] db j granted covered = sym (+ℤ_zero (available_of j db.wallet))
  settle_all-Pays winner now (p ∷ ps) db j granted covered =
      let db1 = settle_prediction (api staff a b c sign schedule) winner now p db in
      let paid = settle_prediction-Pays winner now p db granted.0 covered.0 in
      let rest =
        settle_all-Pays winner now ps db1 j
          (AreGranted-map db.wallet db1.wallet ps paid.1 granted.1) covered.1 in
      omega (int_laws, parts_of_eq rest, parts_of_eq (paid.0 j))

  -- Settling a market, with the API's callbacks, pays every user the payouts of the user's open
  -- predictions on the winning option in that market and nothing else, when the forecasters of the
  -- market were granted their initial credits, and no open prediction's payout is below its stake.
  pub resolve_market_predictions-Pays :
      (m winner now : ℕ) (db : Db) (j : ℕ)
      → AreGranted db.wallet (open_predictions m db)
      → AreCovered (open_predictions m db)
      → available_of j
          (resolve_market_predictions (api staff a b c sign schedule) m winner now db).wallet
        ≡ available_of j db.wallet +ℤ pos (sum_by (prize j winner) (open_predictions m db))
  unfolding resolve_market_predictions
  resolve_market_predictions-Pays m winner now db j granted covered =
      settle_all-Pays winner now (open_predictions m db) db j granted covered
