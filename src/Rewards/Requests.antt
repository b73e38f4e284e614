-- ===== src/Rewards/Requests.antt =====
-- The requests of the staff, one after the other.
use gotrendlabs.Prelude.{ℕ, List, [], ◌∷◌, Result, ok, err}
use gotrendlabs.Rewards.{
  Desk, RewardPayload, AdjustmentPayload, admin_reward_suggestion, admin_reward_feedback,
  admin_approve_wallet_recharge, admin_reject_wallet_recharge, admin_adjust_user_wallet,
}

-- A request: the staff user, the time, the row or the user, and the body.
pub data Request : Type 0 where
  suggestion_reward feedback_reward recharge_approval : ℕ → ℕ → ℕ → RewardPayload → Request
  recharge_rejection : ℕ → ℕ → ℕ → ℕ → Request
  wallet_adjustment : ℕ → ℕ → AdjustmentPayload → Request

module _ (strip : ℕ → ℕ) where
  -- The route of a request.
  unfoldable pub handle : Request → Desk → Result Desk
  handle (suggestion_reward staff now id payload) = admin_reward_suggestion staff now id payload
  handle (feedback_reward staff now id payload) = admin_reward_feedback staff now id payload
  handle (recharge_approval staff now id payload) =
      admin_approve_wallet_recharge strip staff now id payload
  handle (recharge_rejection staff now id note) =
      admin_reject_wallet_recharge strip staff now id note
  handle (wallet_adjustment staff u payload) = admin_adjust_user_wallet strip staff u payload

  -- A request that fails is rolled back.
  abbrev pub or_unchanged : Result Desk → Desk → Desk
  or_unchanged (err e) desk = desk
  or_unchanged (ok after) desk = after

  unfoldable pub serve : List Request → Desk → Desk
  unfolding handle
  serve [] desk = desk
  serve (request ∷ requests) desk = serve requests (or_unchanged (handle request desk) desk)
