-- ===== src/Refunds/Reachable.antt =====
-- The states that the handlers reach, each in a transaction of its own, in any order.
use gotrendlabs.Daemon.Releases.{refund_market_predictions-eq-api}
use gotrendlabs.Lifecycle.Refund.{RefundCounts, refund_market_predictions}
use gotrendlabs.Rewards.Referrals.{Referrals, award_referral_bonus}
use gotrendlabs.Position.Bots.{create_bot_prediction}
use gotrendlabs.Prelude.{
  ℕ, ◌≡◌, Bool, false, Option, some, List, [], Result, ok, Succeeds, Succeeds-and, ensured, refl,
  sym, ◌∙◌, none,
}
use gotrendlabs.Prelude.Table.{lookup}
use gotrendlabs.Wallet.{ensure_wallet_balance, ledger_wallet_totals}
use gotrendlabs.Wallet.Consistency.{balance_of}
use gotrendlabs.Db.{Db, Market, Prediction, sum_rows, open_predictions, MarketOption}
use gotrendlabs.Position.Validate.{PositionPayload, Preview}
use gotrendlabs.Position.Apply.{create_prediction, apply_position_action}
use gotrendlabs.Lifecycle.Engine.{Engine, daemon_engine, ensure_user_core}
use gotrendlabs.Lifecycle.Settling.{api}
use gotrendlabs.Lifecycle.Canceling.{IsCanceled, is_final, cancel_market-IsCanceled}
use gotrendlabs.Lifecycle.Signing.{Signs}
use gotrendlabs.Lifecycle.Returning.{Returns, cancel_market-IsReturned}
use gotrendlabs.Lifecycle.Transitions.{
  publish_market, cancel_market, ResolvePayload, resolve_market, lock_market,
  lock_market_automatically,
}
use gotrendlabs.Rewards.{Desk}
use gotrendlabs.Rewards.Requests.{Request, handle}
use gotrendlabs.Daemon.Cycle.{ClosedMarket, close_due_auto_markets}
use gotrendlabs.Daemon.Queue.{IsIndexed}
use gotrendlabs.Daemon.Closing.{IsClosedUp, close_due_auto_markets-Ensures}
use gotrendlabs.Refunds.Rows.{IsSafe, IsSafe-IsUnrefunded}
use gotrendlabs.Refunds.Handlers.{
  IsSafe-ensure, create_prediction-IsSafe, apply_position_action-IsSafe,
  create_bot_prediction-IsSafe,
}
use gotrendlabs.Refunds.Transitions.{
  SameCredits, IsSafe-same, publish_market-IsSafe, cancel_market-IsSafe, resolve_market-IsSafe,
  lock_market-IsSafe, lock_market_automatically-IsSafe, refund_market_predictions-IsSafe,
}
use gotrendlabs.Refunds.Credits.{IsSafe-core, handle-IsSafe, award_referral_bonus-IsSafe}

-- What the engine's read-only checks answer.
abbrev pub Check : Type 0
Check = ℕ → Db → Result (Unit {0})

-- One committed transaction. A request that raises is rolled back, and is no step.
pub data Step (db db' : Db) : Type 0 where
  opens_account : (u : ℕ) → db' ≡ ensure_user_core u db → Step db db'
  reads_wallet :
      (u : ℕ) → db' ≡ record db { wallet = ensure_wallet_balance u db.wallet } → Step db db'
  predicts :
      (slug option_id stake u now : ℕ) (p : Prediction)
      → create_prediction slug option_id stake u now db ≡ ok (p, db')
      → Step db db'
  changes_position :
      (slug : ℕ) (payload : PositionPayload) (u now : ℕ) (p : Prediction) (preview : Preview)
      → apply_position_action slug payload u now db ≡ ok (p, preview, db')
      → Step db db'
  publishes :
      (staff : Option ℕ) (a b c sign schedule : Check) (m now : ℕ)
      → publish_market (api staff a b c sign schedule) m now db ≡ ok db'
      → Step db db'
  closes :
      (staff : Option ℕ) (a b c sign schedule : Check) (row : Market) (now : ℕ)
      → lock_market (api staff a b c sign schedule) row now db ≡ ok db'
      → Step db db'
  closes_on_time :
      (e : Engine) (row : Market) (now : ℕ)
      → lock_market_automatically e row now db ≡ ok db'
      → Step db db'
  resolves :
      (staff : Option ℕ) (a b c sign schedule : Check) (m : ℕ) (payload : ResolvePayload) (now : ℕ)
      → resolve_market (api staff a b c sign schedule) m payload now db ≡ ok db'
      → Step db db'
  cancels :
      (staff : Option ℕ) (a b c sign schedule : Check) (row : Market) (has_note : Bool) (now : ℕ)
      → cancel_market (api staff a b c sign schedule) row has_note now db ≡ ok db'
      → Step db db'
  -- the daemon's run over the markets that are due; the ids of the markets are unique
  runs_daemon :
      (approved resolvable sign schedule : Check) (skips : ℕ → Bool) (now clock : ℕ)
      (closed : List ClosedMarket)
      → IsIndexed db.markets
      → close_due_auto_markets (daemon_engine approved resolvable sign schedule) skips now clock db
        ≡ ok (closed, db')
      → Step db db'
  -- `reconcile_canceled_market_refunds`, which refunds again
  reconciles :
      (approved resolvable sign schedule : Check) (m now : ℕ) (counts : RefundCounts)
      → refund_market_predictions (daemon_engine approved resolvable sign schedule) m now db
        ≡ ok (counts, db')
      → Step db db'
  -- an internal agent's prediction
  predicts_as_bot :
      (u m : ℕ) (option : MarketOption) (stake now id : ℕ)
      → create_bot_prediction u m option stake now db ≡ ok (id, db')
      → Step db db'
  -- the bonus for the referrer of a new account, in a state of the referrals with this database
  awards_referral :
      (normalize upper : ℕ → ℕ) (referral_code invitee now : ℕ) (s : Referrals)
      → s.db ≡ db
      → db' ≡ (award_referral_bonus normalize upper referral_code invitee now s).1.db
      → Step db db'
  -- a reward, a recharge review or an adjustment, at a desk with this database
  serves :
      (strip : ℕ → ℕ) (request : Request) (desk after : Desk)
      → desk.db ≡ db
      → handle strip request desk ≡ ok after
      → db' ≡ after.db
      → Step db db'
  -- any write to the other tables: users, markets and their options, settings, definitions
  writes_elsewhere : SameCredits db db' → Step db db'

pub data Reach (start : Db) : Db → Type 0 where
  here : Reach start start
  next : {db db' : Db} → Reach start db → Step db db' → Reach start db'

-- A database in which nobody has credits yet.
pub record IsNew (db : Db) : Type 0 where
  pub no_entries : db.wallet.ledger ≡ []
  pub no_balances : db.wallet.balances ≡ []
  pub no_predictions : db.predictions ≡ []

IsNew-IsSafe : (db : Db) → IsNew db → IsSafe db
unfolding balance_of ledger_wallet_totals lookup sum_rows
IsNew-IsSafe db h = record {
  backed = record {
    backed = λ u. rw (h.no_balances, h.no_entries, h.no_predictions) refl;
    consistent = record { rows = λ u b. rw h.no_balances (λ e. cc) };
    keyed = rw h.no_predictions tt;
  };
  refundable = record {
    unrefunded = λ k q. rw h.no_predictions (λ e. cc);
    numbered = rw h.no_entries tt;
  };
}

pub Step-IsSafe : (db db' : Db) → Step db db' → IsSafe db → IsSafe db'
Step-IsSafe db db' (opens_account u e) h = rw e (IsSafe-core u db h)
Step-IsSafe db db' (reads_wallet u e) h = rw e (IsSafe-ensure u db h)
Step-IsSafe db db' (predicts slug option_id stake u now p e) h =
    create_prediction-IsSafe slug option_id stake u now db h e
Step-IsSafe db db' (changes_position slug payload u now p preview e) h =
    apply_position_action-IsSafe slug payload u now db h e
Step-IsSafe db db' (publishes staff a b c sign schedule m now e) h =
    ensured IsSafe _ (publish_market-IsSafe staff a b c sign schedule now db h m) e
Step-IsSafe db db' (closes staff a b c sign schedule row now e) h =
    ensured IsSafe _ (lock_market-IsSafe (api staff a b c sign schedule) row now db h) e
Step-IsSafe db db' (closes_on_time engine row now e) h =
    ensured IsSafe _ (lock_market_automatically-IsSafe engine row now db h) e
Step-IsSafe db db' (resolves staff a b c sign schedule m payload now e) h =
    ensured IsSafe _ (resolve_market-IsSafe staff a b c sign schedule now db h m payload) e
Step-IsSafe db db' (cancels staff a b c sign schedule row has_note now e) h =
    ensured IsSafe _ (cancel_market-IsSafe staff a b c sign schedule now db h row has_note) e
Step-IsSafe db db' (runs_daemon approved resolvable sign schedule skips now clock closed indexed e)
      h =
    (ensured (IsClosedUp skips now) _
      (close_due_auto_markets-Ensures approved resolvable sign schedule skips now clock db h
        indexed)
      e).0
Step-IsSafe db db' (serves strip request desk after same e new) h =
    rw new (ensured (λ (d : Desk). IsSafe d.db) _ (handle-IsSafe strip request desk (rw same h)) e)
Step-IsSafe db db' (reconciles approved resolvable sign schedule m now counts e) h =
    refund_market_predictions-IsSafe none approved approved resolvable sign schedule now db h m
      (counts, db')
      (sym (
          refund_market_predictions-eq-api approved resolvable sign schedule approved approved
            resolvable m now db)
        ∙ e)
Step-IsSafe db db' (predicts_as_bot u m option stake now id e) h =
    ensured (λ r. IsSafe r.1) _ (create_bot_prediction-IsSafe u m option stake now db h) e
Step-IsSafe db db' (awards_referral normalize upper referral_code invitee now s same new) h =
    rw new (award_referral_bonus-IsSafe normalize upper referral_code invitee now s (rw same h))
Step-IsSafe db db' (writes_elsewhere s) h = IsSafe-same db db' s h

-- In every state that is reached from a database without credits and predictions by committed
-- transactions of these kinds: opening an account or reading a wallet, a prediction by a user or by
-- an internal agent, a reinforcement or revision, publishing, closing, resolving or canceling a
-- market, a run of the daemon's automatic close over markets with unique ids, repeating the refunds
-- of a market, a referral bonus, a reward, recharge review or adjustment by the staff, and any
-- write to other tables. There, every user's locked balance is the sum of the user's stakes in open
-- predictions, every balance row equals the totals of the ledger, the prediction ids are unique,
-- the user of every open prediction has a balance row, no refund of an open prediction was recorded
-- after its last lock, and the ledger's ids and the predictions that it refers to were given out.
pub Reach-IsSafe : {start db : Db} → IsNew start → Reach start db → IsSafe db
Reach-IsSafe {start} new here = IsNew-IsSafe start new
Reach-IsSafe new (next {db} {db'} r s) = Step-IsSafe db db' s (Reach-IsSafe new r)

-- In every state that is reached from a database without credits and predictions by committed
-- transactions of these kinds: opening an account or reading a wallet, a prediction by a user or by
-- an internal agent, a reinforcement or revision, publishing, closing, resolving or canceling a
-- market, a run of the daemon's automatic close over markets with unique ids, repeating the refunds
-- of a market, a referral bonus, a reward, recharge review or adjustment by the staff, and any
-- write to other tables. There, canceling a market of the table that is neither resolved, sealed
-- nor canceled succeeds, when the signature of its event is not refused: the market ends canceled
-- with no open prediction, every user's available balance grows by exactly the user's open stakes
-- in that market, and what is locked is still what is staked.
pub Reach-cancel_market :
    {start db : Db} (staff : Option ℕ) (a b c sign schedule : Check) (row : Market)
    (has_note : Bool) (now : ℕ)
    → IsNew start
    → Reach start db
    → is_final row.status ≡ false
    → lookup row.id db.markets ≡ some row
    → Signs sign row.id
    → Succeeds
        (λ db'. IsCanceled row.id db' × Returns (open_predictions row.id db) db.wallet db'.wallet)
        (cancel_market (api staff a b c sign schedule) row has_note now db)
Reach-cancel_market {start} {db} staff a b c sign schedule row has_note now new r open_still found
      signs =
    let h = Reach-IsSafe new r in
    let un = IsSafe-IsUnrefunded row.id db h in
    Succeeds-and (IsCanceled row.id) _ _
      (cancel_market-IsCanceled staff a b c sign schedule row now db has_note open_still h.backed un
        found signs)
      (cancel_market-IsReturned staff a b c sign schedule row now db h.backed un has_note
        open_still)
