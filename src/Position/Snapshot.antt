-- ===== src/Position/Snapshot.antt =====
-- `_market_probability_snapshot`: the probabilities of a market's options from the weights of the
-- open predictions. The two labels that it also refreshes on the market are not modelled.
use gotrendlabs.Prelude.{ℕ, ◌+◌, ◌*◌, List, ◌==◌, ◌&&◌, map, if◌then◌else◌}
use gotrendlabs.Prelude.Lists.{select, sum_by}
use gotrendlabs.Db.{Db, MarketOption, rows, is_open}
use gotrendlabs.Decimal.{one_hundred_percent, round_half_even}

-- BASE_PREDICTION_WEIGHT
abbrev pub base_prediction_weight : ℕ
base_prediction_weight = 10_000

-- `total_weight` of one row of the query
unfoldable pub option_weight : Db → MarketOption → ℕ
option_weight db o =
    base_prediction_weight
    + sum_by (λ p. p.weight_at_entry)
        (select (λ p. (p.market_option_id == o.id) && is_open p.status) (rows db.predictions))

abbrev pub options_of : ℕ → List MarketOption → List MarketOption
options_of m = select (λ o. o.market_id == m)

-- `total_weight` over the rows
unfoldable pub total_weight : ℕ → Db → ℕ
unfolding option_weight
total_weight m db = sum_by (option_weight db) (options_of m db.options)

unfoldable pub option_probability : ℕ → Db → MarketOption → ℕ
unfolding option_weight round_half_even total_weight
option_probability m db o =
    round_half_even (option_weight db o * one_hundred_percent) (total_weight m db)

abbrev refresh : ℕ → Db → MarketOption → MarketOption
refresh m db o =
    if o.market_id == m then record o { probability_exact = option_probability m db o } else o

-- With no options, the loop has nothing to write.
unfoldable pub market_probability_snapshot : ℕ → Db → Db
unfolding option_probability
market_probability_snapshot m db = record db { options = map (refresh m db) db.options }
