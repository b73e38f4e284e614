-- ===== src/Decimal/Bounds.antt =====
-- Bounds of the payout, the revision penalty and the reputation deltas.
use native.Mathlib.Nat.{le-div_iff_mul-le, le_trans}
use gotrendlabs.Prelude.{ℕ, ◌+◌, ◌*◌, ◌/◌, ◌≤◌, ◌<◌, arith}
use gotrendlabs.Decimal.{
  one_hundred_percent, round_half_up, round_half_even, payout, probability_floor, position_penalty,
  reputation_gain, reputation_cost,
}

div-le-round_half_even : (n d : ℕ) → n / d ≤ round_half_even n d
unfolding round_half_even
div-le-round_half_even n d = ground arith

-- A winner is never paid less than the stake, whatever positive probability up to 100 % was
-- recorded.
pub stake-le-payout : (stake p : ℕ) → 0 < p → p ≤ one_hundred_percent → stake ≤ payout stake p
unfolding payout
stake-le-payout stake p positive h =
    le_trans ((le-div_iff_mul-le positive).1 fits)
      (div-le-round_half_even (stake * one_hundred_percent) p)
  where
    fits : stake * p ≤ stake * one_hundred_percent
    fits = grind arith

-- A probability is never zero once it has been floored, so no payout divides by zero.
pub probability_floor_pos : (p : ℕ) → 0 < probability_floor p
unfolding probability_floor
probability_floor_pos p = omega arith

-- A configured percentage between 1 and 100 of a positive stake costs at least one credit and never
-- more than the stake.
pub position_penalty_bounds :
    (active_stake percent : ℕ)
    → 0 < percent
    → percent ≤ 100
    → 0 < active_stake
    → (1 ≤ position_penalty active_stake percent)
      × (position_penalty active_stake percent ≤ active_stake)
unfolding position_penalty round_half_up
position_penalty_bounds s p h k l =
    let share : s * p ≤ s * 100 = grind arith in ground (arith, share)

-- A win adds and a loss takes between 0 and 10 points, 10 or 11 in all.
pub reputation_delta_bounds :
    (p : ℕ)
    → (reputation_gain p ≤ 10)
      × (reputation_cost p ≤ 10)
      × (10 ≤ reputation_gain p + reputation_cost p)
      × (reputation_gain p + reputation_cost p ≤ 11)
unfolding reputation_gain reputation_cost
reputation_delta_bounds p = omega arith
