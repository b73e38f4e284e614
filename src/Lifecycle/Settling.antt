-- ===== src/Lifecycle/Settling.antt =====
-- Resolving a market with the API's callbacks: what a settlement moves, and that it closes every
-- open prediction.
use gotrendlabs.Prelude.{
  ℕ, ◌≤◌, ◌≡◌, Bool, true, false, Option, none, ◌==◌, inl, inr, Bool-cases, ==_iff, if_either,
  Option-cases, ◌||◌, if◌then◌else◌, refl, sym, ◌∙◌, ap, Result,
}
use gotrendlabs.Prelude.Int.{pos, ◌+ℤ◌, int_laws, parts_of_eq, eq_of_parts, zero-+ℤ, +ℤ_zero}
use gotrendlabs.Prelude.Table.{lookup}
use gotrendlabs.Wallet.{
  Wallet, release, credit, settle, prediction_refund, prediction_payout, prediction_loss,
  prediction, available_case, locked_case, ensure_wallet_balance, record_wallet_entry,
  grant_initial, auth_register,
}
use gotrendlabs.Wallet.Consistency.{
  IsConsistent, ensure_wallet_balance-IsConsistent, record_wallet_entry-IsConsistent,
  balance_of-ensure_wallet_balance,
}
use gotrendlabs.Wallet.Effects.{
  available_of, locked_of, available-record_own, locked-record_own, locked-record_other,
  locked-record_wallet_entry,
}
use gotrendlabs.Db.{Db, Prediction}
use gotrendlabs.Db.Backing.{IsBacked}
use gotrendlabs.Lifecycle.Engine.{
  Engine, api_engine, has_initial_grant, ensure_user_core, grant_once, initial_grant_gtl,
}
use gotrendlabs.Lifecycle.Settlement.{payout_net, pay_winner, charge_loser, settle_wallet}
use gotrendlabs.Lifecycle.Reputation.{apply_reputation_delta, write_reputation}

-- A wallet change that the locked balances do not show.
abbrev pub IsGrant : Wallet → Wallet → Type 0
IsGrant w w' = ((j : ℕ) → locked_of j w' ≡ locked_of j w) × (IsConsistent w → IsConsistent w')

ensure-IsGrant : (u : ℕ) (w : Wallet) → IsGrant w (ensure_wallet_balance u w)
ensure-IsGrant u w = (
  λ j. ap (λ b. b.locked_gtl) (balance_of-ensure_wallet_balance u j w),
  ensure_wallet_balance-IsConsistent u w,
)

grant_once-IsGrant : (u : ℕ) (w : Wallet) → IsGrant w (grant_once u w)
unfolding grant_once locked_case has_initial_grant
grant_once-IsGrant u w = if_either (IsGrant w) (has_initial_grant u w) (ensure-IsGrant u w) (
  λ j.
      let e =
        locked-record_wallet_entry u j grant_initial initial_grant_gtl credit (auth_register u) none
          w in
      elim (Bool-cases (u == j)) [
        | inl same ↦ e ∙ rw same (zero-+ℤ _)
        | inr other ↦ e ∙ rw other (zero-+ℤ _)
      ],
  record_wallet_entry-IsConsistent u grant_initial initial_grant_gtl credit _ none w,
)

-- Setting up a user's core rows changes neither the predictions nor what is locked.
pub record KeepsStakes (db db' : Db) : Type 0 where
  pub wallet : IsGrant db.wallet db'.wallet
  pub predictions : db'.predictions ≡ db.predictions
  pub last_prediction_id : db'.last_prediction_id ≡ db.last_prediction_id
  pub markets : db'.markets ≡ db.markets

pub KeepsStakes-refl : (db : Db) → KeepsStakes db db
KeepsStakes-refl db = record {
  wallet = (λ j. refl, λ c. c);
  predictions = refl;
  last_prediction_id = refl;
  markets = refl;
}

pub ensure_user_core-KeepsStakes : (u : ℕ) (db : Db) → KeepsStakes db (ensure_user_core u db)
unfolding ensure_user_core
ensure_user_core-KeepsStakes u db = elim (Option-cases (lookup u db.users)) [
  | inl missing ↦ rw (ensure_user_core, missing) (KeepsStakes-refl db)
  | inr (user, found) ↦
      rw (ensure_user_core, found)
        (if_either (KeepsStakes db) (user.is_staff || user.is_superuser || user.is_bot)
          (record {
            wallet = ensure-IsGrant u db.wallet;
            predictions = refl;
            last_prediction_id = refl;
            markets = refl;
          })
          (record {
            wallet = grant_once-IsGrant u db.wallet;
            predictions = refl;
            last_prediction_id = refl;
            markets = refl;
          }))
]

pub KeepsStakes-IsBacked : (db db' : Db) → KeepsStakes db db' → IsBacked db → IsBacked db'
KeepsStakes-IsBacked db db' k h = record {
  backed = λ j. k.wallet.0 j ∙ rw k.predictions (h.backed j);
  consistent = k.wallet.1 h.consistent;
  keyed = rw (k.predictions, k.last_prediction_id) h.keyed;
}

module _ (staff : Option ℕ) (a b c sign schedule : ℕ → Db → Result (Unit {0})) where
  -- The engine that `main.py` makes.
  abbrev pub api : Engine
  api = api_engine staff a b c sign schedule

  pub apply_delta-KeepsStakes :
      (u p : ℕ) (won : Bool) (db : Db) → KeepsStakes db (apply_reputation_delta api u p won db)
  unfolding api_engine apply_reputation_delta write_reputation
  apply_delta-KeepsStakes u p won db =
      let k = ensure_user_core-KeepsStakes u db in
      record {
        wallet = k.wallet;
        predictions = k.predictions;
        last_prediction_id = k.last_prediction_id;
        markets = k.markets;
      }

  -- What a settlement does to the wallet of the forecaster.
  module _ (j : ℕ) (p : Prediction) (w : Wallet) (same : (p.user_id == j) ≡ true) where
    pay_locked_own : locked_of j (pay_winner api p w) +ℤ pos p.stake_amount ≡ locked_of j w
    unfolding api_engine pay_winner locked_case
    pay_locked_own =
        let w1 =
          record_wallet_entry p.user_id prediction_refund p.stake_amount release (prediction p.id)
            staff w in
        let e1 =
          locked-record_own p.user_id j prediction_refund p.stake_amount release (prediction p.id)
            staff w same in
        if_either (λ w'. locked_of j w' +ℤ pos p.stake_amount ≡ locked_of j w) (payout_net p == 0)
          (omega (int_laws, parts_of_eq e1))
          (omega (
            int_laws,
            parts_of_eq e1,
            parts_of_eq (
                locked-record_own p.user_id j prediction_payout (payout_net p) credit
                  (prediction p.id) staff w1 same),
          ))

    pay_available_own :
        p.stake_amount ≤ p.potential_payout
        → available_of j (pay_winner api p w) ≡ available_of j w +ℤ pos p.potential_payout
    unfolding api_engine pay_winner available_case payout_net
    pay_available_own le =
        let w1 =
          record_wallet_entry p.user_id prediction_refund p.stake_amount release (prediction p.id)
            staff w in
        let e1 =
          available-record_own p.user_id j prediction_refund p.stake_amount release
            (prediction p.id) staff w same in
        elim (Bool-cases (payout_net p == 0)) [
          | inl zero_net ↦ rw zero_net (
              eq_of_parts _ _
                (omega (int_laws, parts_of_eq e1, (==_iff (payout_net p) 0).0 zero_net)))
          | inr positive ↦ rw positive (
              omega (
                int_laws,
                parts_of_eq e1,
                parts_of_eq (
                    available-record_own p.user_id j prediction_payout (payout_net p) credit
                      (prediction p.id) staff w1 same),
              ))
        ]

    charge_own :
        (locked_of j (charge_loser api p w) +ℤ pos p.stake_amount ≡ locked_of j w)
        × (available_of j (charge_loser api p w) ≡ available_of j w)
    unfolding api_engine charge_loser locked_case available_case
    charge_own = (
      omega (
        int_laws,
        parts_of_eq (
            locked-record_own p.user_id j prediction_loss p.stake_amount settle (prediction p.id)
              staff w same),
      ),
      omega (
        int_laws,
        parts_of_eq (
            available-record_own p.user_id j prediction_loss p.stake_amount settle (prediction p.id)
              staff w same),
      ),
    )

    -- The user whose prediction is settled gets its payout when it won and nothing when it lost, if
    -- the payout is at least the stake; the stake leaves the locked balance either way.
    pub settle_own :
        (won : Bool)
        → p.stake_amount ≤ p.potential_payout
        → let w' = settle_wallet api won p w in
          (locked_of j w' +ℤ pos p.stake_amount ≡ locked_of j w)
          × (available_of j w' ≡ available_of j w +ℤ pos (if won then p.potential_payout else 0))
    unfolding settle_wallet
    settle_own true le = (pay_locked_own, pay_available_own le)
    settle_own false le = (charge_own.0, charge_own.1 ∙ sym (+ℤ_zero _))

  module _ (j : ℕ) (p : Prediction) (w : Wallet) where
    pub settle_locked_other :
        (won : Bool)
        → (p.user_id == j) ≡ false
        → locked_of j (settle_wallet api won p w) ≡ locked_of j w
    unfolding api_engine settle_wallet pay_winner charge_loser
    settle_locked_other true other =
        let e1 =
          locked-record_other p.user_id j prediction_refund p.stake_amount release (prediction p.id)
            staff w other in
        if_either (λ w'. locked_of j w' ≡ locked_of j w) (payout_net p == 0) e1
          (locked-record_other p.user_id j prediction_payout (payout_net p) credit (prediction p.id)
              staff _ other
            ∙ e1)
    settle_locked_other false other =
        locked-record_other p.user_id j prediction_loss p.stake_amount settle (prediction p.id)
          staff w other

    pub settle_locked_own :
        (won : Bool)
        → (p.user_id == j) ≡ true
        → locked_of j (settle_wallet api won p w) +ℤ pos p.stake_amount ≡ locked_of j w
    unfolding settle_wallet
    settle_locked_own true same = pay_locked_own j p w same
    settle_locked_own false same = (charge_own j p w same).0

  pub settle-IsConsistent :
      (won : Bool) (p : Prediction) (w : Wallet)
      → IsConsistent w
      → IsConsistent (settle_wallet api won p w)
  unfolding api_engine settle_wallet pay_winner charge_loser
  settle-IsConsistent true p w h =
      let c =
        record_wallet_entry-IsConsistent p.user_id prediction_refund p.stake_amount release
          (prediction p.id) staff w h in
      if_either IsConsistent (payout_net p == 0) c (
        record_wallet_entry-IsConsistent p.user_id prediction_payout (payout_net p) credit _ staff _
          c)
  settle-IsConsistent false p w h =
      record_wallet_entry-IsConsistent p.user_id prediction_loss p.stake_amount settle _ staff w h
