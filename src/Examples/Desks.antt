-- ===== src/Examples/Desks.antt =====
-- A suggestion, a feedback and a recharge request of one forecaster.
use gotrendlabs.Prelude.{ℕ, none, some, List, [], ◌∷◌, Ensures, Fails}
use gotrendlabs.Wallet.{debit}
use gotrendlabs.Rewards.{
  Item, unrewarded, Recharge, pending, Desk, RewardPayload, admin_reward_suggestion,
  admin_approve_wallet_recharge, admin_reject_wallet_recharge,
}
use gotrendlabs.Rewards.Requests.{
  Request, suggestion_reward, feedback_reward, recharge_approval, wallet_adjustment, serve,
}
use gotrendlabs.Rewards.Once.{admin_reward_suggestion-once, wallet_recharge_once, NoReview}
use gotrendlabs.Examples.{started}

abbrev open_item : Item
open_item = record {
  author_id = some 5;
  status = unrewarded 0;
  admin_note = 0;
  reward_gtl = none;
  reviewed_by_id = none;
  reviewed_at = none;
  rewarded_at = none;
  updated_at = 1;
}

abbrev open_request : Recharge
open_request = record {
  user_id = 5;
  status = pending;
  amount_gtl = none;
  admin_note = 0;
  reviewed_by_id = none;
  reviewed_at = none;
  updated_at = 1;
}

abbrev full_desk : Desk
full_desk = record {
  db = started;
  suggestions = (3, open_item) ∷ [];
  feedbacks = (4, open_item) ∷ [];
  recharges = (6, open_request) ∷ [];
  events = [];
}

abbrev fifty : RewardPayload
fifty = record { amount_gtl = 50; note = 1 }

abbrev strip : ℕ → ℕ
strip note = note

abbrev requests : List Request
requests =
    suggestion_reward 2 10 3 fifty
    ∷ feedback_reward 2 11 4 fifty
    ∷ suggestion_reward 2 12 3 fifty
    ∷ recharge_approval 2 13 6 fifty
    ∷ wallet_adjustment 2 5 (record { direction = debit; amount_gtl = 70; note = 1 })
    ∷ []

admin_reward_suggestion-once_example :
    Ensures
      (λ after. Fails (admin_reward_suggestion 8 12 3 fifty (serve strip requests after)))
      (admin_reward_suggestion 2 10 3 fifty full_desk)
admin_reward_suggestion-once_example =
    admin_reward_suggestion-once strip 2 10 8 12 3 fifty fifty requests full_desk

wallet_recharge_once_example :
    Ensures
      (λ after. NoReview strip 8 12 6 1 fifty (serve strip requests after))
      (admin_approve_wallet_recharge strip 2 10 6 fifty full_desk)
    × Ensures
        (λ after. NoReview strip 8 12 6 1 fifty (serve strip requests after))
        (admin_reject_wallet_recharge strip 2 10 6 1 full_desk)
wallet_recharge_once_example =
    wallet_recharge_once strip 2 10 8 12 6 1 1 fifty fifty requests full_desk
