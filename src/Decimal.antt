-- ===== src/Decimal.antt =====
-- The exact decimals of `main.py`, `prediction_write_service.py` and `market_lifecycle_engine.py`.
-- A `Decimal(7, 4)` probability is the number of its ten-thousandths (PROBABILITY_QUANT), so 100 %
-- is 1_000_000. Every division of the source is rounded to a whole number of units at once: the
-- 28 digits of the decimal context hold more than the operands can tell apart.
pub mod Bounds
use gotrendlabs.Prelude.{ℕ, suc, ◌+◌, ◌-◌, ◌*◌, ◌/◌, ◌%◌, min, max, Bool, ◌==◌, ltb, if◌then◌else◌}

-- PROBABILITY_QUANT
abbrev pub probability_quant : ℕ
probability_quant = 1

-- Decimal("100") in units of PROBABILITY_QUANT
abbrev pub one_hundred_percent : ℕ
one_hundred_percent = 1_000_000

-- REPUTATION_K_FACTOR
abbrev pub reputation_k_factor : ℕ
reputation_k_factor = 10

-- The whole number nearest to n / d, a tie away from zero: ROUND_HALF_UP.
unfoldable pub round_half_up : ℕ → ℕ → ℕ
round_half_up n d = (2 * n + d) / (2 * d)

-- The whole number nearest to n / d, a tie to the even neighbour: ROUND_HALF_EVEN, the default of
-- `to_integral_value` and `quantize`.
unfoldable pub round_half_even : ℕ → ℕ → ℕ
round_half_even n d =
    let q = n / d in
    let r = n % d in
    if ltb (2 * r) d then q else if ltb d (2 * r) then q + 1 else if q % 2 == 0 then q else q + 1

-- ROUND_DOWN of a probability to whole percents: `_display_probability`.
unfoldable pub display_probability : ℕ → ℕ
display_probability p = p / 10_000

-- `_even_probability_exact`
unfoldable pub even_probability_exact : ℕ → ℕ
unfolding round_half_even
even_probability_exact total = if total == 0 then 0 else round_half_even one_hundred_percent total

-- `max(_decimal_probability(option["probability_exact"]), PROBABILITY_QUANT)`
unfoldable pub probability_floor : ℕ → ℕ
probability_floor p = max p probability_quant

-- `int((Decimal(stake) * Decimal("100") / probability).to_integral_value())`
unfoldable pub payout : ℕ → ℕ → ℕ
unfolding round_half_even
payout stake p = round_half_even (stake * one_hundred_percent) p

-- `_position_penalty`, with the configured percentage
unfoldable pub position_penalty : ℕ → ℕ → ℕ
unfolding round_half_up
position_penalty active_stake percent =
    if percent == 0 then 0 else max 1 (round_half_up (active_stake * percent) 100)

-- `max(0, min(1, p / 100))`, in units of PROBABILITY_QUANT
unfoldable pub clamp_probability : ℕ → ℕ
clamp_probability p = min one_hundred_percent p

-- The size of `_reputation_delta`: what a win adds and what a loss takes away.
unfoldable pub reputation_gain : ℕ → ℕ
unfolding round_half_up clamp_probability
reputation_gain p =
    round_half_up (reputation_k_factor * (one_hundred_percent - clamp_probability p))
      one_hundred_percent

unfoldable pub reputation_cost : ℕ → ℕ
unfolding round_half_up clamp_probability
reputation_cost p = round_half_up (reputation_k_factor * clamp_probability p) one_hundred_percent

-- `_accuracy_indicator`, in percents
unfoldable pub accuracy_percent : ℕ → ℕ → ℕ
unfolding round_half_up
accuracy_percent wins total = if total == 0 then 0 else round_half_up (wins * 100) total
