-- ===== src/Examples/Statuses.antt =====
-- A sealed market, one that the staff closes and one that the daemon closes.
use gotrendlabs.Lifecycle.Refusing.{refused_rejects}
use gotrendlabs.Lifecycle.Settling.{api}
use gotrendlabs.Lifecycle.Engine.{api_engine, Engine}
use gotrendlabs.Prelude.{
  ◌≡◌, true, false, some, [], ◌∷◌, refl, ok, Fails, inl, ℕ, Result, err, signing_refused,
}
use gotrendlabs.Prelude.Table.{lookup}
use gotrendlabs.Db.{Db, Market, MarketStatus, has_definition}
use gotrendlabs.Lifecycle.Transitions.{
  resolve_market, cancel_market, lock_market, lock_market_automatically, publish_market, can_lock,
}
use gotrendlabs.Lifecycle.Statuses.{over_rejects, lock_market-IsClosed, IsClosed}
use gotrendlabs.Examples.{election}
use gotrendlabs.Examples.Settlements.{closed, engine, or_state, payload, accept}

abbrev sealed_market : Market
sealed_market = record election { status = MarketStatus.sealed }

abbrev with_market : Market → Db
with_market row = record closed { markets = (1, row) ∷ [] }

with_market_eq : lookup sealed_market.id (with_market sealed_market).markets ≡ some sealed_market
unfolding lookup
with_market_eq = refl

over_rejects_example :
    Fails (publish_market engine 1 50 (with_market sealed_market))
    × Fails (cancel_market engine sealed_market true 50 (with_market sealed_market))
    × Fails (resolve_market engine 1 payload 50 (with_market sealed_market))
    × Fails (lock_market engine sealed_market 50 (with_market sealed_market))
    × Fails (lock_market_automatically engine sealed_market 50 (with_market sealed_market))
over_rejects_example =
    over_rejects engine sealed_market payload true 50 (with_market sealed_market) (inl refl)
      with_market_eq

election_eq : lookup election.id (with_market election).markets ≡ some election
unfolding lookup
election_eq = refl

abbrev locked_db : Db
locked_db = or_state (with_market election) (lock_market engine election 20 (with_market election))

locked_eq : lock_market engine election 20 (with_market election) ≡ ok locked_db
unfolding lock_market lookup has_definition api_engine
locked_eq = refl

lock_market-IsClosed_example :
    IsClosed 1 (with_market election) locked_db
    × (can_lock election.status ≡ true)
    × (election.auto_close_enabled ≡ false)
lock_market-IsClosed_example =
    lock_market-IsClosed election 20 (with_market election) election_eq engine locked_eq

abbrev timed : Market
timed = record election { auto_close_enabled = true; close_at = some 20 }

timed_eq : lookup timed.id (with_market timed).markets ≡ some timed
unfolding lookup
timed_eq = refl

abbrev due_db : Db
due_db =
    or_state (with_market timed) (lock_market_automatically engine timed 20 (with_market timed))

due_eq : lock_market_automatically engine timed 20 (with_market timed) ≡ ok due_db
unfolding lock_market_automatically lookup has_definition api_engine
due_eq = refl

-- The signing service refuses.
abbrev refuse : ℕ → Db → Result (Unit {0})
refuse m db = err signing_refused

abbrev refused_engine : Engine
refused_engine = api (some 9) accept accept accept refuse accept

election_defined : has_definition election.id (with_market election) ≡ true
unfolding has_definition
election_defined = refl

refused_rejects_example :
    Fails (cancel_market refused_engine election false 20 (with_market election))
    × Fails (lock_market refused_engine election 20 (with_market election))
    × Fails (lock_market_automatically refused_engine election 20 (with_market election))
unfolding api_engine
refused_rejects_example =
    refused_rejects refused_engine election 20 (with_market election) (λ x. tt) election_defined
      false refl
