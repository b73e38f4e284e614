-- ===== src/Refunds/Credits.antt =====
-- The credits that staff give touch no stake.
use gotrendlabs.Rewards.Referrals.{
  Account, Referrals, award_to, pay_referrer, award_referral_bonus, is_referral_eligible,
  is_invited, site_referral_bonus,
}
use gotrendlabs.Prelude.{
  ℕ, ◌≡◌, true, false, Option, some, not, ◌&&◌, ◌||◌, ◌==◌, raise_if, raise_if-not-eq-ok, Ensures,
  Ensures-bind, refl, note_required, direction_invalid, insufficient_balance, already_rewarded,
  already_reviewed, none, if_either,
}
use gotrendlabs.Prelude.Int.{pos, ltb_ℤ}
use gotrendlabs.Prelude.Table.{lookup}
use gotrendlabs.Wallet.{
  Direction, credit, debit, lock, release, settle, EntryType, Reference, manual_adjustment,
  reward_feedback, reward_suggestion, educational_recharge, admin_user_adjustment, suggestion,
  feedback, wallet_recharge_request, locked_case, wallet_summary, record_wallet_entry,
  reward_referral, referral_reward,
}
use gotrendlabs.Db.{Db, with_wallet}
use gotrendlabs.Lifecycle.Engine.{ensure_user_core}
use gotrendlabs.Lifecycle.Refund.{refers_to}
use gotrendlabs.Lifecycle.Settling.{KeepsStakes-IsBacked, ensure_user_core-KeepsStakes}
use gotrendlabs.Rewards.{
  Desk, RewardPayload, AdjustmentPayload, check_amount, is_adjustment, is_debit, is_pending,
  is_rewarded, truthy, known_user, or_not_found, author_of, admin_adjust_user_wallet,
  admin_reward_suggestion, admin_reward_feedback, admin_approve_wallet_recharge,
  admin_reject_wallet_recharge,
}
use gotrendlabs.Rewards.Entries.{record_wallet_entry-IsBacked}
use gotrendlabs.Rewards.Requests.{
  Request, suggestion_reward, feedback_reward, recharge_approval, recharge_rejection,
  wallet_adjustment, handle,
}
use gotrendlabs.Refunds.Entries.{IsWithin, Spares-weaken, record-Spares}
use gotrendlabs.Refunds.Rows.{IsSafe, IsRefundable-same}
use gotrendlabs.Refunds.Markets.{CanRefund-same}
use gotrendlabs.Refunds.Wallets.{ensure_user_core-Spares}
use gotrendlabs.Refunds.Handlers.{IsSafe-ensure}

-- An entry that moves nothing locked and is about no prediction.
IsSafe-entry :
    (u : ℕ) (t : EntryType) (amount : ℕ) (d : Direction) (r : Reference) (by : Option ℕ) (db : Db)
    → locked_case d amount ≡ pos 0
    → IsWithin db.last_prediction_id r
    → ((k : ℕ) → refers_to k r ≡ false)
    → IsSafe db
    → IsSafe (with_wallet (record_wallet_entry u t amount d r by) db)
IsSafe-entry u t amount d r by db unlocked within other h = record {
  backed = record_wallet_entry-IsBacked u t amount d r by db unlocked h.backed;
  refundable =
      IsRefundable-same db.last_prediction_id db.wallet _ db.predictions
        (Spares-weaken (λ k s. other k)
          (record-Spares u t amount d r by db.wallet db.last_prediction_id within))
        h.refundable;
}

pub IsSafe-core : (u : ℕ) (db : Db) → IsSafe db → IsSafe (ensure_user_core u db)
IsSafe-core u db h =
    let k = ensure_user_core-KeepsStakes u db in
    record {
      backed = KeepsStakes-IsBacked db _ k h.backed;
      refundable =
          CanRefund-same db _ k (ensure_user_core-Spares db.last_prediction_id u db) h.refundable;
    }

-- The state of a request of the staff.
abbrev IsSafeDesk : Desk → Type 0
IsSafeDesk desk = IsSafe desk.db

module _ (strip : ℕ → ℕ) (staff now id : ℕ) (desk : Desk) (h : IsSafe desk.db) where
  suggestion-IsSafe :
      (payload : RewardPayload)
      → Ensures IsSafeDesk (admin_reward_suggestion staff now id payload desk)
  unfolding admin_reward_suggestion locked_case
  suggestion-IsSafe payload = Ensures-bind _ (check_amount 10000 payload.amount_gtl) _ λ _ _.
      Ensures-bind _ (or_not_found (lookup id desk.suggestions)) _ λ row _.
        Ensures-bind _ (author_of row.author_id) _ λ author _.
          Ensures-bind _ (raise_if (truthy row.reward_gtl) already_rewarded) _ λ _ _.
            IsSafe-entry author reward_suggestion payload.amount_gtl credit (suggestion id)
              (some staff) desk.db refl tt (λ k. refl) h

  feedback-IsSafe :
      (payload : RewardPayload)
      → Ensures IsSafeDesk (admin_reward_feedback staff now id payload desk)
  unfolding admin_reward_feedback locked_case
  feedback-IsSafe payload = Ensures-bind _ (check_amount 10000 payload.amount_gtl) _ λ _ _.
      Ensures-bind _ (or_not_found (lookup id desk.feedbacks)) _ λ row _.
        Ensures-bind _ (author_of row.author_id) _ λ author _.
          Ensures-bind _
            (raise_if (is_rewarded row.status || truthy row.reward_gtl) already_rewarded) _
            λ _ _.
              IsSafe-entry author reward_feedback payload.amount_gtl credit (feedback id)
                (some staff) desk.db refl tt (λ k. refl) h

  approval-IsSafe :
      (payload : RewardPayload)
      → Ensures IsSafeDesk (admin_approve_wallet_recharge strip staff now id payload desk)
  unfolding admin_approve_wallet_recharge locked_case
  approval-IsSafe payload = Ensures-bind _ (check_amount 10000 payload.amount_gtl) _ λ _ _.
      Ensures-bind _ (or_not_found (lookup id desk.recharges)) _ λ row _.
        Ensures-bind _ (raise_if (not (is_pending row.status)) already_reviewed) _ λ _ _.
          IsSafe-entry row.user_id educational_recharge payload.amount_gtl credit
            (wallet_recharge_request id) (some staff) desk.db refl tt (λ k. refl) h

  rejection-IsSafe :
      (note : ℕ) → Ensures IsSafeDesk (admin_reject_wallet_recharge strip staff now id note desk)
  unfolding admin_reject_wallet_recharge
  rejection-IsSafe note = Ensures-bind _ (raise_if (strip note == 0) note_required) _ λ _ _.
      Ensures-bind _ (or_not_found (lookup id desk.recharges)) _
        λ row _. Ensures-bind _ (raise_if (not (is_pending row.status)) already_reviewed) _ λ _ _. h

adjustment_unlocked :
    (d : Direction) (amount : ℕ) → is_adjustment d ≡ true → locked_case d amount ≡ pos 0
unfolding locked_case
adjustment_unlocked credit amount a = refl
adjustment_unlocked debit amount a = refl
adjustment_unlocked lock amount a = cc
adjustment_unlocked release amount a = cc
adjustment_unlocked settle amount a = cc

adjustment-IsSafe :
    (strip : ℕ → ℕ) (staff u : ℕ) (payload : AdjustmentPayload) (desk : Desk)
    → IsSafe desk.db
    → Ensures IsSafeDesk (admin_adjust_user_wallet strip staff u payload desk)
unfolding admin_adjust_user_wallet wallet_summary
adjustment-IsSafe strip staff u payload desk h =
    let db = ensure_user_core u desk.db in
    let summary = wallet_summary u db.wallet in
    Ensures-bind _ (check_amount 1000000 payload.amount_gtl) _ λ _ _.
      Ensures-bind _ (raise_if (strip payload.note == 0) note_required) _ λ _ _.
        Ensures-bind _ (raise_if (not (is_adjustment payload.direction)) direction_invalid) _
          λ _ allowed. Ensures-bind _ (known_user (lookup u desk.db.users)) _ λ user _.
            Ensures-bind _
              (raise_if
                (is_debit payload.direction
                  && ltb_ℤ summary.0.available_gtl (pos payload.amount_gtl))
                insufficient_balance)
              _
              λ _ covered.
                IsSafe-entry u manual_adjustment payload.amount_gtl payload.direction
                  (admin_user_adjustment u) (some staff) _
                  (adjustment_unlocked payload.direction payload.amount_gtl
                    (raise_if-not-eq-ok _ _ allowed))
                  tt (λ k. refl) (IsSafe-ensure u db (IsSafe-core u desk.db h))

-- Every request of the staff.
pub handle-IsSafe :
    (strip : ℕ → ℕ) (request : Request) (desk : Desk)
    → IsSafe desk.db
    → Ensures (λ (after : Desk). IsSafe after.db) (handle strip request desk)
unfolding handle
handle-IsSafe strip (suggestion_reward staff now id payload) desk h =
    suggestion-IsSafe strip staff now id desk h payload
handle-IsSafe strip (feedback_reward staff now id payload) desk h =
    feedback-IsSafe strip staff now id desk h payload
handle-IsSafe strip (recharge_approval staff now id payload) desk h =
    approval-IsSafe strip staff now id desk h payload
handle-IsSafe strip (recharge_rejection staff now id note) desk h =
    rejection-IsSafe strip staff now id desk h note
handle-IsSafe strip (wallet_adjustment staff u payload) desk h =
    adjustment-IsSafe strip staff u payload desk h

-- The bonus of an invitation.
award_to-IsSafe :
    (invitee bonus now : ℕ) (o : Option (ℕ × Account)) (s : Referrals)
    → IsSafe s.db
    → IsSafe (award_to invitee bonus now o s).1.db
unfolding award_to pay_referrer locked_case
award_to-IsSafe invitee bonus now none s h = h
award_to-IsSafe invitee bonus now (some (referrer, account)) s h =
    if_either (λ (r : Option ℕ × Referrals). IsSafe r.1.db)
      (not (is_referral_eligible account) || (referrer == invitee)) h
      (if_either (λ (r : Option ℕ × Referrals). IsSafe r.1.db) (is_invited invitee s.rewards) h
        (IsSafe-entry referrer reward_referral bonus credit (referral_reward _) none s.db refl tt
          (λ k. refl) h))

pub award_referral_bonus-IsSafe :
    (normalize upper : ℕ → ℕ) (referral_code invitee now : ℕ) (s : Referrals)
    → IsSafe s.db
    → IsSafe (award_referral_bonus normalize upper referral_code invitee now s).1.db
unfolding award_referral_bonus
award_referral_bonus-IsSafe normalize upper referral_code invitee now s h =
    if_either (λ (r : Option ℕ × Referrals). IsSafe r.1.db)
      ((normalize referral_code == 0) || (site_referral_bonus s.referral_bonus_gtl == 0)) h
      (award_to-IsSafe invitee _ now _ s h)
