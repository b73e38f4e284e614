-- ===== src/Examples/Daemons.antt =====
-- A market with a human's prediction whose automatic close is due.
use gotrendlabs.Prelude.{ℕ, Bool, false, ◌≡◌, true, some, [], ◌∷◌, refl, Succeeds}
use gotrendlabs.Prelude.Table.{lookup}
use gotrendlabs.Db.{Db, Market}
use gotrendlabs.Lifecycle.Engine.{daemon_engine}
use gotrendlabs.Lifecycle.Refund.{refund_market_predictions}
use gotrendlabs.Daemon.Cycle.{close_due_auto_markets}
use gotrendlabs.Daemon.Queue.{IsIndexed}
use gotrendlabs.Daemon.Releases.{refund_market_predictions-eq-api}
use gotrendlabs.Daemon.Closing.{IsClosedUp, close_due_auto_markets-IsClosedUp}
use gotrendlabs.Refunds.Rows.{IsSafe}
use gotrendlabs.Refunds.Transitions.{IsSafe-same}
use gotrendlabs.Examples.{election, moved}
use gotrendlabs.Examples.Settlements.{accept, engine_of_nobody, closed}
use gotrendlabs.Examples.Reaching.{moved-IsSafe}

abbrev due_election : Market
due_election = record election { auto_close_enabled = true; close_at = some 25 }

abbrev due : Db
due = record moved { markets = (1, due_election) ∷ [] }

-- No other transaction has locked a market.
abbrev skips_none : ℕ → Bool
skips_none m = false

due-IsSafe : IsSafe due
due-IsSafe =
    IsSafe-same moved due (record { wallet = refl; predictions = refl; last_prediction_id = refl })
      moved-IsSafe

due-IsIndexed : IsIndexed due.markets
unfolding lookup
due-IsIndexed = (refl, refl, tt)

close_due_auto_markets-IsClosedUp_example :
    Succeeds
      (IsClosedUp skips_none 30)
      (close_due_auto_markets (daemon_engine accept accept accept accept) skips_none 30 31 due)
close_due_auto_markets-IsClosedUp_example =
    close_due_auto_markets-IsClosedUp accept accept accept accept skips_none 30 31 due
      (λ m db. refl) due-IsSafe due-IsIndexed

refund_market_predictions-eq-api_example :
    refund_market_predictions (daemon_engine accept accept accept accept) 1 30 closed
    ≡ refund_market_predictions engine_of_nobody 1 30 closed
refund_market_predictions-eq-api_example =
    refund_market_predictions-eq-api accept accept accept accept accept accept accept 1 30 closed
