-- ===== src/Wallet/Defs.antt =====
-- Ledger entries, balances, `_record_wallet_entry` and the functions that it calls.
use gotrendlabs.Prelude.{
  ℕ, suc, Bool, true, false, Option, none, some, List, [], ◌∷◌, ◌==◌, if◌then◌else◌,
}
use gotrendlabs.Prelude.Int.{ℤ, pos, neg, ◌+ℤ◌}
use gotrendlabs.Prelude.Table.{Table, lookup, update, insert_new, or_else}

-- WalletLedgerEntry.direction
pub data Direction : Type 0 where
  credit debit lock release settle : Direction

-- The entry types of LEDGER_ENTRY_TYPE_LABELS.
pub data EntryType : Type 0 where
  grant_initial prediction_stake_lock prediction_refund prediction_payout : EntryType
  prediction_loss prediction_revision_penalty prediction_payout_reversal : EntryType
  prediction_resolution_relock manual_adjustment reward_feedback reward_suggestion : EntryType
  reward_referral educational_recharge : EntryType

-- `reference_type` with `reference_id`
pub data Reference : Type 0 where
  prediction auth_register referral_reward admin_user_adjustment : ℕ → Reference
  suggestion feedback wallet_recharge_request : ℕ → Reference

pub record LedgerEntry : Type 0 where
  pub id : ℕ
  pub user_id : ℕ
  pub entry_type : EntryType
  pub amount : ℕ
  pub direction : Direction
  pub reference : Reference
  pub created_by_id : Option ℕ

pub record Balance : Type 0 where
  pub available_gtl : ℤ
  pub locked_gtl : ℤ
  pub total_earned_gtl : ℤ

-- What `_record_wallet_entry` hands to the notification table and to the email outbox.
pub data Message : Type 0 where
  wallet_credit_notice : ℕ → ℕ → Message
  wallet_credited_email : ℕ → ℕ → Message

pub record Wallet : Type 0 where
  pub ledger : List LedgerEntry
  pub last_id : ℕ
  pub balances : Table Balance
  pub messages : List Message

abbrev pub no_gtl : Balance
no_gtl = record { available_gtl = pos 0; locked_gtl = pos 0; total_earned_gtl = pos 0 }

unfoldable pub add : Balance → Balance → Balance
add a b = record {
  available_gtl = a.available_gtl +ℤ b.available_gtl;
  locked_gtl = a.locked_gtl +ℤ b.locked_gtl;
  total_earned_gtl = a.total_earned_gtl +ℤ b.total_earned_gtl;
}

-- The first CASE of `_ledger_wallet_totals`.
unfoldable pub available_case : Direction → ℕ → ℤ
available_case credit amount = pos amount
available_case debit amount = neg amount
available_case lock amount = neg amount
available_case release amount = pos amount
available_case settle amount = pos 0

-- The second CASE.
unfoldable pub locked_case : Direction → ℕ → ℤ
locked_case lock amount = pos amount
locked_case release amount = neg amount
locked_case settle amount = neg amount
locked_case credit amount = pos 0
locked_case debit amount = pos 0

-- The third CASE.
unfoldable pub earned_case : Direction → EntryType → ℕ → ℤ
earned_case credit prediction_payout amount = pos amount
earned_case credit reward_feedback amount = pos amount
earned_case credit reward_suggestion amount = pos amount
earned_case debit prediction_payout_reversal amount = neg amount
earned_case _ _ _ = pos 0

unfoldable pub entry_totals : LedgerEntry → Balance
unfolding available_case locked_case earned_case
entry_totals e = record {
  available_gtl = available_case e.direction e.amount;
  locked_gtl = locked_case e.direction e.amount;
  total_earned_gtl = earned_case e.direction e.entry_type e.amount;
}

-- `_ledger_wallet_totals`: the three sums over the user's entries.
unfoldable pub ledger_wallet_totals : List LedgerEntry → ℕ → Balance
ledger_wallet_totals [] u = no_gtl
ledger_wallet_totals (e ∷ es) u =
    if e.user_id == u
    then add (entry_totals e) (ledger_wallet_totals es u)
    else ledger_wallet_totals es u

-- `_ensure_wallet_balance`
unfoldable pub ensure_wallet_balance : ℕ → Wallet → Wallet
ensure_wallet_balance u w = elim (lookup u w.balances) [
  | some b ↦ w
  | none ↦ record w { balances = insert_new u (ledger_wallet_totals w.ledger u) w.balances }
]

-- `_wallet_summary`: the row is there once it has been ensured, so the default is never read.
unfoldable pub wallet_summary : ℕ → Wallet → Balance × Wallet
unfolding ensure_wallet_balance
wallet_summary u w =
    let w' = ensure_wallet_balance u w in (or_else (lookup u w'.balances) no_gtl, w')

unfoldable pub is_earning : EntryType → Bool
is_earning prediction_payout = true
is_earning reward_feedback = true
is_earning reward_suggestion = true
is_earning _ = false

unfoldable pub is_payout_reversal : EntryType → Bool
is_payout_reversal prediction_payout_reversal = true
is_payout_reversal _ = false

-- `available_delta`, `locked_delta` and `earned_delta` of `_record_wallet_entry`.
unfoldable pub deltas : EntryType → ℕ → Direction → Balance
unfolding is_earning is_payout_reversal
deltas t amount credit = record {
  available_gtl = pos amount;
  locked_gtl = pos 0;
  total_earned_gtl = if is_earning t then pos amount else pos 0;
}
deltas t amount debit = record {
  available_gtl = neg amount;
  locked_gtl = pos 0;
  total_earned_gtl = if is_payout_reversal t then neg amount else pos 0;
}
deltas t amount lock = record {
  available_gtl = neg amount;
  locked_gtl = pos amount;
  total_earned_gtl = pos 0;
}
deltas t amount release = record {
  available_gtl = pos amount;
  locked_gtl = neg amount;
  total_earned_gtl = pos 0;
}
deltas t amount settle = record {
  available_gtl = pos 0;
  locked_gtl = neg amount;
  total_earned_gtl = pos 0;
}

abbrev pub is_grant_initial : EntryType → Bool
is_grant_initial grant_initial = true
is_grant_initial _ = false

-- The notification of every credit, and the email of every credit but the initial grant.
unfoldable pub credit_messages : Direction → EntryType → ℕ → ℕ → List Message
credit_messages credit t u entry_id =
    if is_grant_initial t
    then wallet_credit_notice u entry_id ∷ []
    else wallet_credited_email u entry_id ∷ wallet_credit_notice u entry_id ∷ []
credit_messages _ t u entry_id = []

abbrev prepend : List Message → List Message → List Message
prepend [] ms = ms
prepend (x ∷ xs) ms = x ∷ prepend xs ms

-- The INSERT into the ledger.
unfoldable pub insert_entry : ℕ → EntryType → ℕ → Direction → Reference → Option ℕ → Wallet → Wallet
insert_entry u t amount d ref by w = record w {
  ledger =
      record {
        id = suc w.last_id;
        user_id = u;
        entry_type = t;
        amount = amount;
        direction = d;
        reference = ref;
        created_by_id = by;
      }
      ∷ w.ledger;
  last_id = suc w.last_id;
}

-- `_record_wallet_entry`
unfoldable pub record_wallet_entry :
    ℕ → EntryType → ℕ → Direction → Reference → Option ℕ → Wallet → Wallet
unfolding insert_entry
record_wallet_entry u t amount d ref by w =
    let w' = insert_entry u t amount d ref by (ensure_wallet_balance u w) in
    record w' {
      balances = update u (add (deltas t amount d)) w'.balances;
      messages = prepend (credit_messages d t u w'.last_id) w'.messages;
    }
