-- ===== src/Rewards/Once.antt =====
-- What was rewarded or reviewed is not rewarded or reviewed again, by any request that comes after
-- its transaction. The rows are read without FOR UPDATE, so two overlapping requests are not covered.
use gotrendlabs.Prelude.{
  ℕ, ◌≡◌, true, not, ◌==◌, List, ok, raise_if, raise_if-eq-ok, Ensures, Ensures-bind, Ensures-map,
  Fails, Fails-bind, refl, already_rewarded, already_reviewed, note_required,
}
use gotrendlabs.Prelude.Table.{lookup}
use gotrendlabs.Rewards.{
  Item, Recharge, Desk, RewardPayload, check_amount, truthy, is_pending, or_not_found, author_of,
  reward_item, refuse, admin_reward_suggestion, admin_approve_wallet_recharge,
  admin_reject_wallet_recharge,
}
use gotrendlabs.Rewards.Kept.{
  holds-updated, found_holds, both_ways, serve-keeps, has_reward, is_reviewed, amount_truthy,
  handle-has_reward, handle-is_reviewed,
}
use gotrendlabs.Rewards.Requests.{Request, serve}

admin_reward_suggestion-Fails :
    (staff now id : ℕ) (payload : RewardPayload) (desk : Desk)
    → has_reward id desk ≡ true
    → Fails (admin_reward_suggestion staff now id payload desk)
unfolding admin_reward_suggestion
admin_reward_suggestion-Fails staff now id payload desk h =
    Fails-bind (check_amount 10000 payload.amount_gtl) _ λ _ _.
      Fails-bind (or_not_found (lookup id desk.suggestions)) _ λ row found.
        Fails-bind (author_of row.author_id) _ λ author _.
          Fails-bind (raise_if (truthy row.reward_gtl) already_rewarded) _ λ _ passed.
            both_ways (found_holds (λ (r : Item). truthy r.reward_gtl) _ row h found)
              (raise_if-eq-ok _ _ passed)

-- A reward leaves the suggestion paid for.
suggestion_has_reward :
    (staff now id : ℕ) (payload : RewardPayload) (desk : Desk)
    → Ensures
        (λ after. has_reward id after ≡ true)
        (admin_reward_suggestion staff now id payload desk)
unfolding admin_reward_suggestion
suggestion_has_reward staff now id payload desk =
    let P = λ (after : Desk). has_reward id after ≡ true in
    Ensures-bind P (check_amount 10000 payload.amount_gtl) _ λ _ positive.
      Ensures-bind P (or_not_found (lookup id desk.suggestions)) _ λ row known.
        Ensures-bind P (author_of row.author_id) _ λ author _.
          Ensures-bind P (raise_if (truthy row.reward_gtl) already_rewarded) _ λ _ _.
            holds-updated (λ (r : Item). truthy r.reward_gtl) (reward_item staff now payload)
              (λ v. amount_truthy 10000 payload.amount_gtl positive) id desk.suggestions row known

-- A suggestion that was rewarded is never rewarded again: after its transaction and then any list
-- of rewards, recharge reviews and adjustments, one after the other, every further reward of it
-- fails, by any staff user and with any amount.
pub admin_reward_suggestion-once :
    (strip : ℕ → ℕ) (staff now staff' now' id : ℕ) (payload payload' : RewardPayload)
    (requests : List Request) (desk : Desk)
    → Ensures
        (λ after.
          Fails (admin_reward_suggestion staff' now' id payload' (serve strip requests after)))
        (admin_reward_suggestion staff now id payload desk)
admin_reward_suggestion-once strip staff now staff' now' id payload payload' requests desk =
    Ensures-map (λ after. has_reward id after ≡ true) _ _
      (λ after h.
        admin_reward_suggestion-Fails staff' now' id payload' _
          (serve-keeps strip (has_reward id) (handle-has_reward strip id) requests after h))
      (suggestion_has_reward staff now id payload desk)

module _ (strip : ℕ → ℕ) (staff now id note : ℕ) (payload : RewardPayload) (desk : Desk) where
  -- Neither review of the request goes through.
  abbrev pub NoReview : Type 0
  NoReview =
      Fails (admin_approve_wallet_recharge strip staff now id payload desk)
      × Fails (admin_reject_wallet_recharge strip staff now id note desk)

  reviewed-NoReview : is_reviewed id desk ≡ true → NoReview
  unfolding admin_approve_wallet_recharge admin_reject_wallet_recharge
  reviewed-NoReview h =
      let again = λ (row : Recharge) (found : or_not_found (lookup id desk.recharges) ≡ ok row).
        found_holds (λ (r : Recharge). not (is_pending r.status)) _ row h found in
      (
        Fails-bind (check_amount 10000 payload.amount_gtl) _ λ _ _.
            Fails-bind (or_not_found (lookup id desk.recharges)) _ λ row found.
              Fails-bind (raise_if (not (is_pending row.status)) already_reviewed) _
                λ _ passed. absurd (both_ways (again row found) (raise_if-eq-ok _ _ passed)),
        Fails-bind (raise_if (strip note == 0) note_required) _ λ _ _.
            Fails-bind (or_not_found (lookup id desk.recharges)) _ λ row found.
              Fails-bind (raise_if (not (is_pending row.status)) already_reviewed) _
                λ _ passed. absurd (both_ways (again row found) (raise_if-eq-ok _ _ passed)),
      )

  approved_is_reviewed :
      Ensures
        (λ after. is_reviewed id after ≡ true)
        (admin_approve_wallet_recharge strip staff now id payload desk)
  unfolding admin_approve_wallet_recharge
  approved_is_reviewed =
      let P = λ (after : Desk). is_reviewed id after ≡ true in
      Ensures-bind P (check_amount 10000 payload.amount_gtl) _ λ _ _.
        Ensures-bind P (or_not_found (lookup id desk.recharges)) _ λ row known.
          Ensures-bind P (raise_if (not (is_pending row.status)) already_reviewed) _ λ _ _.
            holds-updated (λ (r : Recharge). not (is_pending r.status)) _ (λ v. refl) id
              desk.recharges row known

  rejected_is_reviewed :
      Ensures
        (λ after. is_reviewed id after ≡ true)
        (admin_reject_wallet_recharge strip staff now id note desk)
  unfolding admin_reject_wallet_recharge
  rejected_is_reviewed =
      let P = λ (after : Desk). is_reviewed id after ≡ true in
      Ensures-bind P (raise_if (strip note == 0) note_required) _ λ _ _.
        Ensures-bind P (or_not_found (lookup id desk.recharges)) _ λ row known.
          Ensures-bind P (raise_if (not (is_pending row.status)) already_reviewed) _ λ _ _.
            holds-updated (λ (r : Recharge). not (is_pending r.status))
              (refuse (strip note) staff now) (λ v. refl) id desk.recharges row known

module _ (strip : ℕ → ℕ) (staff now staff' now' id note note' : ℕ)
    (payload payload' : RewardPayload) (requests : List Request) (desk : Desk) where
  -- A recharge request that was approved or rejected is never reviewed again: after its transaction
  -- and then any list of rewards, recharge reviews and adjustments, one after the other, every
  -- further approval and every further rejection of it fails, by any staff user.
  pub wallet_recharge_once :
      Ensures
        (λ after. NoReview strip staff' now' id note' payload' (serve strip requests after))
        (admin_approve_wallet_recharge strip staff now id payload desk)
      × Ensures
          (λ after. NoReview strip staff' now' id note' payload' (serve strip requests after))
          (admin_reject_wallet_recharge strip staff now id note desk)
  wallet_recharge_once =
      let later = λ (after : Desk) (h : is_reviewed id after ≡ true).
        reviewed-NoReview strip staff' now' id note' payload' _
          (serve-keeps strip (is_reviewed id) (handle-is_reviewed strip id) requests after h) in
      (
        Ensures-map (λ after. is_reviewed id after ≡ true) _ _ later
            (approved_is_reviewed strip staff now id note payload desk),
        Ensures-map (λ after. is_reviewed id after ≡ true) _ _ later
            (rejected_is_reviewed strip staff now id note payload desk),
      )
