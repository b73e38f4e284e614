-- ===== src/Rewards.antt =====
-- Credits that staff give: manual adjustments, rewards for suggestions and for feedback, and the
-- review of recharge requests (`apps/api/backend_api/main.py`). A text is a number and 0 the empty
-- one; the staff user is a parameter, as are `strip` and the badge engine's calls, which are recorded.
pub mod Entries
pub mod Paid
pub mod Rewarding
pub mod Adjusting
pub mod Requests
pub mod Referrals
pub mod Invitations
pub mod Kept
pub mod Once
use gotrendlabs.Prelude.{
  ℕ, ◌+◌, Bool, true, false, not, ◌&&◌, ◌||◌, Option, none, some, List, [], ◌∷◌, ◌==◌, ltb, leb,
  if◌then◌else◌, Result, ok, err, raise_if, ◌>>=◌, ◌>>◌, note_required, direction_invalid,
  payload_invalid, user_not_found, item_not_found, author_missing, already_rewarded,
  already_reviewed, insufficient_balance,
}
use gotrendlabs.Prelude.Int.{pos, ltb_ℤ}
use gotrendlabs.Prelude.Table.{Table, lookup, update}
use gotrendlabs.Wallet.{
  Direction, credit, debit, EntryType, manual_adjustment, reward_feedback, reward_suggestion,
  educational_recharge, Reference, admin_user_adjustment, suggestion, feedback,
  wallet_recharge_request, wallet_summary, record_wallet_entry,
}
use gotrendlabs.Db.{Db, with_wallet}
use gotrendlabs.Lifecycle.Engine.{ensure_user_core}

pub data ItemStatus : Type 0 where
  rewarded : ItemStatus
  unrewarded : ℕ → ItemStatus

-- A row of gotrendlabs_market_suggestions or of gotrendlabs_product_feedback.
pub record Item : Type 0 where
  pub author_id : Option ℕ
  pub status : ItemStatus
  pub admin_note : ℕ
  pub reward_gtl : Option ℕ
  pub reviewed_by_id : Option ℕ
  pub reviewed_at : Option ℕ
  pub rewarded_at : Option ℕ
  pub updated_at : ℕ

pub data RechargeStatus : Type 0 where
  pending approved rejected : RechargeStatus

-- A row of gotrendlabs_wallet_recharge_requests.
pub record Recharge : Type 0 where
  pub user_id : ℕ
  pub status : RechargeStatus
  pub amount_gtl : Option ℕ
  pub admin_note : ℕ
  pub reviewed_by_id : Option ℕ
  pub reviewed_at : Option ℕ
  pub updated_at : ℕ

-- The audit trail, and the calls of the badge engine.
pub data AdminEvent : Type 0 where
  wallet_adjust suggestion_reward feedback_reward recharge_approve recharge_reject :
      ℕ → ℕ → ℕ → AdminEvent
  on_suggestion_rewarded on_feedback_rewarded : ℕ → ℕ → AdminEvent

pub record Desk : Type 0 where
  pub db : Db
  pub suggestions : Table Item
  pub feedbacks : Table Item
  pub recharges : Table Recharge
  pub events : List AdminEvent

-- The body of a request that credits.
pub record RewardPayload : Type 0 where
  pub amount_gtl : ℕ
  pub note : ℕ

pub record AdjustmentPayload : Type 0 where
  pub direction : Direction
  pub amount_gtl : ℕ
  pub note : ℕ

-- `Field(gt=0, le=limit)`
abbrev pub check_amount : ℕ → ℕ → Result (Unit {0})
check_amount limit amount = raise_if (not (ltb 0 amount && leb amount limit)) payload_invalid

-- The truth of a nullable number.
abbrev pub truthy : Option ℕ → Bool
truthy none = false
truthy (some n) = not (n == 0)

abbrev pub is_rewarded : ItemStatus → Bool
is_rewarded rewarded = true
is_rewarded (unrewarded n) = false

abbrev pub is_pending : RechargeStatus → Bool
is_pending pending = true
is_pending _ = false

abbrev pub is_adjustment : Direction → Bool
is_adjustment credit = true
is_adjustment debit = true
is_adjustment _ = false

abbrev pub is_debit : Direction → Bool
is_debit debit = true
is_debit _ = false

-- A row, or 404.
abbrev pub or_not_found {ℓ} : {V : Type ℓ} → Option V → Result V
or_not_found none = err item_not_found
or_not_found (some v) = ok v

abbrev pub author_of : Option ℕ → Result ℕ
author_of none = err author_missing
author_of (some u) = if u == 0 then err author_missing else ok u

abbrev pub reward_item : ℕ → ℕ → RewardPayload → Item → Item
reward_item staff now payload item = record item {
  status = rewarded;
  admin_note = payload.note;
  reward_gtl = some payload.amount_gtl;
  reviewed_by_id = some staff;
  reviewed_at = some now;
  rewarded_at = some now;
  updated_at = now;
}

abbrev pub review : RechargeStatus → Option ℕ → ℕ → ℕ → ℕ → Recharge → Recharge
review status amount note staff now recharge = record recharge {
  status = status;
  amount_gtl = amount;
  admin_note = note;
  reviewed_by_id = some staff;
  reviewed_at = some now;
  updated_at = now;
}

-- `_record_wallet_entry` of a credit with a reference
abbrev pub credit_user : ℕ → EntryType → ℕ → Reference → ℕ → Db → Db
credit_user u t amount ref staff =
    with_wallet (record_wallet_entry u t amount credit ref (some staff))

-- `admin_reward_suggestion`
unfoldable pub admin_reward_suggestion : ℕ → ℕ → ℕ → RewardPayload → Desk → Result Desk
admin_reward_suggestion staff now suggestion_id payload desk = do
  check_amount 10000 payload.amount_gtl
  row ← or_not_found (lookup suggestion_id desk.suggestions)
  author ← author_of row.author_id
  raise_if (truthy row.reward_gtl) already_rewarded
  ok (record desk {
    db =
        credit_user author reward_suggestion payload.amount_gtl (suggestion suggestion_id) staff
          desk.db;
    suggestions = update suggestion_id (reward_item staff now payload) desk.suggestions;
    events =
        on_suggestion_rewarded author suggestion_id
        ∷ suggestion_reward staff suggestion_id payload.note
        ∷ desk.events;
  })

-- `admin_reward_feedback`
unfoldable pub admin_reward_feedback : ℕ → ℕ → ℕ → RewardPayload → Desk → Result Desk
admin_reward_feedback staff now feedback_id payload desk = do
  check_amount 10000 payload.amount_gtl
  row ← or_not_found (lookup feedback_id desk.feedbacks)
  author ← author_of row.author_id
  raise_if (is_rewarded row.status || truthy row.reward_gtl) already_rewarded
  ok (record desk {
    db = credit_user author reward_feedback payload.amount_gtl (feedback feedback_id) staff desk.db;
    feedbacks = update feedback_id (reward_item staff now payload) desk.feedbacks;
    events =
        on_feedback_rewarded author feedback_id
        ∷ feedback_reward staff feedback_id payload.note
        ∷ desk.events;
  })

-- "Recarga educativa aprovada pelo Admin Ops."
abbrev pub default_note : ℕ
default_note = 1

abbrev pub note_or_default : ℕ → ℕ
note_or_default note = if note == 0 then default_note else note

-- `admin_approve_wallet_recharge`
unfoldable pub admin_approve_wallet_recharge :
    (ℕ → ℕ) → ℕ → ℕ → ℕ → RewardPayload → Desk → Result Desk
admin_approve_wallet_recharge strip staff now request_id payload desk = do
  check_amount 10000 payload.amount_gtl
  row ← or_not_found (lookup request_id desk.recharges)
  raise_if (not (is_pending row.status)) already_reviewed
  let note = note_or_default (strip payload.note)
  ok (record desk {
    db =
        credit_user row.user_id educational_recharge payload.amount_gtl
          (wallet_recharge_request request_id) staff desk.db;
    recharges =
        update request_id (review approved (some payload.amount_gtl) note staff now) desk.recharges;
    events = recharge_approve staff request_id note ∷ desk.events;
  })

abbrev pub refuse : ℕ → ℕ → ℕ → Recharge → Recharge
refuse note staff now recharge = review rejected recharge.amount_gtl note staff now recharge

-- `admin_reject_wallet_recharge`
unfoldable pub admin_reject_wallet_recharge : (ℕ → ℕ) → ℕ → ℕ → ℕ → ℕ → Desk → Result Desk
admin_reject_wallet_recharge strip staff now request_id raw_note desk = do
  let note = strip raw_note
  raise_if (note == 0) note_required
  row ← or_not_found (lookup request_id desk.recharges)
  raise_if (not (is_pending row.status)) already_reviewed
  ok (record desk {
    recharges = update request_id (refuse note staff now) desk.recharges;
    events = recharge_reject staff request_id note ∷ desk.events;
  })

abbrev pub known_user {ℓ} : {V : Type ℓ} → Option V → Result V
known_user none = err user_not_found
known_user (some v) = ok v

-- `admin_adjust_user_wallet`
unfoldable pub admin_adjust_user_wallet : (ℕ → ℕ) → ℕ → ℕ → AdjustmentPayload → Desk → Result Desk
admin_adjust_user_wallet strip staff u payload desk = do
  check_amount 1000000 payload.amount_gtl
  let note = strip payload.note
  raise_if (note == 0) note_required
  raise_if (not (is_adjustment payload.direction)) direction_invalid
  user ← known_user (lookup u desk.db.users)
  let db = ensure_user_core u desk.db
  let (balance, wallet) = wallet_summary u db.wallet
  raise_if (is_debit payload.direction && ltb_ℤ balance.available_gtl (pos payload.amount_gtl))
      insufficient_balance
  let after =
      record_wallet_entry u manual_adjustment payload.amount_gtl payload.direction
        (admin_user_adjustment u) (some staff)
  ok (record desk {
    db = record db { wallet = after wallet };
    events = wallet_adjust staff u note ∷ desk.events;
  })
