-- ===== src/Rewards/Rewarding.antt =====
-- The handlers of the three queues.
use gotrendlabs.Prelude.{
  ℕ, not, some, ◌==◌, ◌||◌, raise_if, raise_if-eq-ok, raise_if-not-eq-ok, Ensures, Ensures-bind,
  arith, refl, ◌∙◌, already_rewarded, already_reviewed,
}
use gotrendlabs.Prelude.Table.{lookup}
use gotrendlabs.Wallet.{
  reward_feedback, reward_suggestion, educational_recharge, suggestion, feedback,
  wallet_recharge_request,
}
use gotrendlabs.Rewards.{
  approved, Desk, RewardPayload, check_amount, truthy, is_pending, is_rewarded, or_not_found,
  author_of, reward_item, review, refuse, note_or_default, admin_reward_suggestion,
  admin_reward_feedback, admin_approve_wallet_recharge, admin_reject_wallet_recharge,
}
use gotrendlabs.Rewards.Entries.{paid}
use gotrendlabs.Rewards.Paid.{
  reward_of, recharge_of, IsSound, paid_row, truthy_zero, either_truthy, pending_zero,
  or_not_found-eq-ok, credited-IsBacked, credited-IsSolvent, credited_paid, credited_other,
}

-- A reward for a suggestion that is not yet rewarded.
pub admin_reward_suggestion-IsSound :
    (staff now suggestion_id : ℕ) (payload : RewardPayload) (desk : Desk)
    → IsSound desk
    → Ensures IsSound (admin_reward_suggestion staff now suggestion_id payload desk)
unfolding admin_reward_suggestion
admin_reward_suggestion-IsSound staff now suggestion_id payload desk h =
    Ensures-bind IsSound (check_amount 10000 payload.amount_gtl) _ λ _ _.
      Ensures-bind IsSound (or_not_found (lookup suggestion_id desk.suggestions)) _ λ row known.
        Ensures-bind IsSound (author_of row.author_id) _ λ author _.
          Ensures-bind IsSound (raise_if (truthy row.reward_gtl) already_rewarded) _ λ _ fresh.
            let ref = suggestion suggestion_id in
            let amount = payload.amount_gtl in
            record {
              backed = credited-IsBacked author reward_suggestion amount ref staff desk h;
              solvent = credited-IsSolvent author reward_suggestion amount ref staff desk h;
              suggestions = λ j.
                  paid_row reward_of refl suggestion_id j amount
                    (paid (suggestion j) desk.db.wallet.ledger) _ (reward_item staff now payload)
                    row desk.suggestions
                    (or_not_found-eq-ok (lookup suggestion_id desk.suggestions) row known)
                    (truthy_zero row.reward_gtl (raise_if-eq-ok _ _ (fresh))) refl (h.suggestions j)
                    (credited_paid author reward_suggestion amount ref staff desk h (suggestion j));
              feedbacks = λ j.
                  credited_other author reward_suggestion amount ref staff desk h (feedback j) refl
                  ∙ h.feedbacks j;
              recharges = λ j.
                  credited_other author reward_suggestion amount ref staff desk h
                    (wallet_recharge_request j) refl
                  ∙ h.recharges j;
            }

pub admin_reward_feedback-IsSound :
    (staff now feedback_id : ℕ) (payload : RewardPayload) (desk : Desk)
    → IsSound desk
    → Ensures IsSound (admin_reward_feedback staff now feedback_id payload desk)
unfolding admin_reward_feedback
admin_reward_feedback-IsSound staff now feedback_id payload desk h =
    Ensures-bind IsSound (check_amount 10000 payload.amount_gtl) _ λ _ _.
      Ensures-bind IsSound (or_not_found (lookup feedback_id desk.feedbacks)) _ λ row known.
        Ensures-bind IsSound (author_of row.author_id) _ λ author _.
          Ensures-bind IsSound
            (raise_if (is_rewarded row.status || truthy row.reward_gtl) already_rewarded) _
            λ _ fresh.
              let ref = feedback feedback_id in
              let amount = payload.amount_gtl in
              record {
                backed = credited-IsBacked author reward_feedback amount ref staff desk h;
                solvent = credited-IsSolvent author reward_feedback amount ref staff desk h;
                suggestions = λ j.
                    credited_other author reward_feedback amount ref staff desk h (suggestion j)
                      refl
                    ∙ h.suggestions j;
                feedbacks = λ j.
                    paid_row reward_of refl feedback_id j amount
                      (paid (feedback j) desk.db.wallet.ledger) _ (reward_item staff now payload)
                      row desk.feedbacks
                      (or_not_found-eq-ok (lookup feedback_id desk.feedbacks) row known)
                      (truthy_zero row.reward_gtl (either_truthy _ _ (raise_if-eq-ok _ _ (fresh))))
                      refl (h.feedbacks j)
                      (credited_paid author reward_feedback amount ref staff desk h (feedback j));
                recharges = λ j.
                    credited_other author reward_feedback amount ref staff desk h
                      (wallet_recharge_request j) refl
                    ∙ h.recharges j;
              }

pub admin_approve_wallet_recharge-IsSound :
    (strip : ℕ → ℕ) (staff now request_id : ℕ) (payload : RewardPayload) (desk : Desk)
    → IsSound desk
    → Ensures IsSound (admin_approve_wallet_recharge strip staff now request_id payload desk)
unfolding admin_approve_wallet_recharge
admin_approve_wallet_recharge-IsSound strip staff now request_id payload desk h =
    Ensures-bind IsSound (check_amount 10000 payload.amount_gtl) _ λ _ _.
      Ensures-bind IsSound (or_not_found (lookup request_id desk.recharges)) _ λ row known.
        Ensures-bind IsSound (raise_if (not (is_pending row.status)) already_reviewed) _ λ _ fresh.
          let ref = wallet_recharge_request request_id in
          let amount = payload.amount_gtl in
          let u = row.user_id in
          record {
            backed = credited-IsBacked u educational_recharge amount ref staff desk h;
            solvent = credited-IsSolvent u educational_recharge amount ref staff desk h;
            suggestions = λ j.
                credited_other u educational_recharge amount ref staff desk h (suggestion j) refl
                ∙ h.suggestions j;
            feedbacks = λ j.
                credited_other u educational_recharge amount ref staff desk h (feedback j) refl
                ∙ h.feedbacks j;
            recharges = λ j.
                paid_row recharge_of refl request_id j amount
                  (paid (wallet_recharge_request j) desk.db.wallet.ledger) _
                  (review approved (some amount) (note_or_default (strip payload.note)) staff now)
                  row desk.recharges
                  (or_not_found-eq-ok (lookup request_id desk.recharges) row known)
                  (pending_zero row.status row.amount_gtl (raise_if-not-eq-ok _ _ (fresh))) refl
                  (h.recharges j)
                  (credited_paid u educational_recharge amount ref staff desk h
                    (wallet_recharge_request j));
          }

pub admin_reject_wallet_recharge-IsSound :
    (strip : ℕ → ℕ) (staff now request_id note : ℕ) (desk : Desk)
    → IsSound desk
    → Ensures IsSound (admin_reject_wallet_recharge strip staff now request_id note desk)
unfolding admin_reject_wallet_recharge
admin_reject_wallet_recharge-IsSound strip staff now request_id note desk h =
    Ensures-bind IsSound (raise_if (strip note == 0) _) _ λ _ _.
      Ensures-bind IsSound (or_not_found (lookup request_id desk.recharges)) _ λ row known.
        Ensures-bind IsSound (raise_if (not (is_pending row.status)) already_reviewed) _ λ _ fresh.
          record {
            backed = h.backed;
            solvent = h.solvent;
            suggestions = h.suggestions;
            feedbacks = h.feedbacks;
            recharges = λ j.
                paid_row recharge_of refl request_id j 0
                  (paid (wallet_recharge_request j) desk.db.wallet.ledger)
                  (paid (wallet_recharge_request j) desk.db.wallet.ledger)
                  (refuse (strip note) staff now) row desk.recharges
                  (or_not_found-eq-ok (lookup request_id desk.recharges) row known)
                  (pending_zero row.status row.amount_gtl (raise_if-not-eq-ok _ _ (fresh))) refl
                  (h.recharges j) (ground arith);
          }
