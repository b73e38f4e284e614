-- ===== src/Daemon/Closing.antt =====
-- The daemon's run closes every market that is due and not locked by another transaction.
use gotrendlabs.Prelude.{
  ℕ, ◌≡◌, not, raise_if, lock_requires_staff, lock_wrong_status, Bool, true, false, none, some,
  List, [], ◌∷◌, ◌==◌, arith, refl, ap, inl, inr, Bool-cases, Result, Succeeds, Succeeds-bind,
  Succeeds-and, Succeeds-map, Ensures, Ensures-bind, Ensures-and, Ensures-if, ensured, succeeded,
}
use gotrendlabs.Prelude.Table.{lookup, update}
use gotrendlabs.Db.{Db, Market, MarketStatus, open_predictions}
use gotrendlabs.Lifecycle.Engine.{Engine, daemon_engine, api_engine}
use gotrendlabs.Lifecycle.Refund.{refund_market_predictions, assert_no_open_predictions}
use gotrendlabs.Lifecycle.Settling.{api}
use gotrendlabs.Lifecycle.Signing.{Signs, integrity_event-Ensures, integrity_event-Succeeds}
use gotrendlabs.Lifecycle.Canceling.{
  Refunded, IsCanceled, is_final, cancel_from-eq-cancel_unresolved, cancel_unresolved-IsCanceled,
  refund_market_predictions-IsRefunded,
}
use gotrendlabs.Lifecycle.Transitions.{
  set_market, canceled_at, locked_row, lock_row, can_lock, cancel_unresolved, cancel_market,
  lock_market_automatically,
}
use gotrendlabs.Refunds.Rows.{IsSafe, IsSafe-IsUnrefunded}
use gotrendlabs.Refunds.Transitions.{cancel_unresolved-IsSafe, IsSafe-same}
use gotrendlabs.Daemon.Cycle.{
  ClosedMarket, is_closable, must_close, due_markets, human_predictions, close_market, close_each,
  close_due_auto_markets,
}
use gotrendlabs.Daemon.Releases.{cancel_unresolved-eq-api}
use gotrendlabs.Daemon.Queue.{
  IsIndexed, IsQueued, IsQueued-update, Covers, Covers-update, due_markets-IsQueued,
  due_markets-Covers,
}

-- A row that is due is open or scheduled.
due_can_lock :
    (skips : ℕ → Bool) (now : ℕ) (row : Market)
    → must_close skips now row ≡ true
    → can_lock row.status ≡ true
due_can_lock skips now row due = ground arith

due_is_automatic :
    (skips : ℕ → Bool) (now : ℕ) (row : Market)
    → must_close skips now row ≡ true
    → row.auto_close_enabled ≡ true
due_is_automatic skips now row due = ground arith

lockable_not_final : (s : MarketStatus) → can_lock s ≡ true → is_final s ≡ false
lockable_not_final MarketStatus.draft h = refl
lockable_not_final MarketStatus.scheduled h = refl
lockable_not_final MarketStatus.opened h = refl
lockable_not_final MarketStatus.locked h = refl
lockable_not_final MarketStatus.resolved h = cc
lockable_not_final MarketStatus.sealed h = cc
lockable_not_final MarketStatus.canceled h = cc

-- The one market of the step has changed its row, by f.
abbrev Writes : Market → (Market → Market) → Db → Db → Type 0
Writes row f db db' = IsSafe db' × (db'.markets ≡ update row.id f db.markets)

module _ (approved resolvable sign schedule : ℕ → Db → Result (Unit {0})) (skips : ℕ → Bool)
    (row : Market) (db : Db) (h : IsSafe db) where
  abbrev daemon : Engine
  daemon = daemon_engine approved resolvable sign schedule

  markets-cancel_unresolved :
      (now : ℕ)
      → Ensures
          (λ (db' : Db). db'.markets ≡ update row.id (canceled_at none now) db.markets)
          (cancel_unresolved (api none approved approved resolvable sign schedule) row now db)
  unfolding cancel_unresolved set_market api_engine
  markets-cancel_unresolved now =
      Ensures-bind _
        (refund_market_predictions (api none approved approved resolvable sign schedule) row.id now
          db)
        _
        λ r refunded. Ensures-bind _ (assert_no_open_predictions row.id r.1) _ λ y none_open.
          let written =
            ap (update row.id (canceled_at none now))
              (succeeded (Refunded row.id db.markets (open_predictions row.id db) _) _
                (refund_market_predictions-IsRefunded none approved approved resolvable sign
                  schedule row.id now db h.backed (IsSafe-IsUnrefunded row.id db h))
                refunded).4 in
          integrity_event-Ensures (api none approved approved resolvable sign schedule) row.id _ _
            (λ (x : Db). x.markets ≡ update row.id (canceled_at none now) db.markets) written
            written

  cancel_due :
      (now clock : ℕ)
      → must_close skips now row ≡ true
      → Ensures (Writes row (canceled_at none clock) db) (cancel_market daemon row true clock db)
  unfolding cancel_market
  cancel_due now clock due =
      rw
        (
          cancel_from-eq-cancel_unresolved daemon row true clock db row.status
              (lockable_not_final row.status (due_can_lock skips now row due)),
          cancel_unresolved-eq-api approved resolvable sign schedule approved approved resolvable
              row clock db,
        )
        (Ensures-and _ _ (Writes row (canceled_at none clock) db) _
          (λ db' safe written. (safe, written))
          (cancel_unresolved-IsSafe none approved approved resolvable sign schedule clock db h row)
          (markets-cancel_unresolved clock))

  lock_row-Writes :
      (now : ℕ) → Ensures (Writes row (locked_row none now) db) (lock_row daemon none row now db)
  unfolding lock_row set_market
  lock_row-Writes now =
      integrity_event-Ensures daemon row.id _ _ (Writes row (locked_row none now) db)
        (
          IsSafe-same db _ (record { wallet = refl; predictions = refl; last_prediction_id = refl })
              h,
          refl,
        )
        (
          IsSafe-same db _ (record { wallet = refl; predictions = refl; last_prediction_id = refl })
              h,
          refl,
        )

  lock_due :
      (now : ℕ)
      → Ensures (Writes row (locked_row none now) db) (lock_market_automatically daemon row now db)
  unfolding lock_market_automatically
  lock_due now =
      Ensures-bind (Writes row (locked_row none now) db)
        (raise_if (not row.auto_close_enabled) lock_requires_staff) _
        λ x automatic.
          Ensures-bind (Writes row (locked_row none now) db)
            (raise_if (not (can_lock row.status)) lock_wrong_status) _
            λ y lockable. lock_row-Writes now

  -- One step of the loop: the row is closed in one of the two ways.
  abbrev Closes : ℕ → List ClosedMarket × Db → Type 0
  Closes now r =
      (f : Market → Market) × ((q : Market) → must_close skips now (f q) ≡ false)
      × Writes row f db r.1

  close_market-Closes :
      (now clock : ℕ) (closed : List ClosedMarket)
      → must_close skips now row ≡ true
      → Ensures (Closes now) (close_market daemon now clock row closed db)
  unfolding close_market
  close_market-Closes now clock closed due =
      Ensures-if (Closes now) (human_predictions row.id db == 0) _ _
        (λ nobody.
          Ensures-bind (Closes now) (cancel_market daemon row true clock db) _
            λ db' e. (canceled_at none clock, λ q. refl, ensured _ _ (cancel_due now clock due) e))
        λ somebody.
          Ensures-bind (Closes now) (lock_market_automatically daemon row now db) _
            λ db' e. (locked_row none now, λ q. refl, ensured _ _ (lock_due now) e)

  -- When no signature is refused, neither way raises.
  close_market-Succeeds :
      (now clock : ℕ) (closed : List ClosedMarket)
      → must_close skips now row ≡ true
      → lookup row.id db.markets ≡ some row
      → Signs sign row.id
      → Succeeds (λ r. Unit {0}) (close_market daemon now clock row closed db)
  unfolding close_market cancel_market lock_market_automatically lock_row daemon_engine
  close_market-Succeeds now clock closed due found signs =
      elim (Bool-cases (human_predictions row.id db == 0)) [
        | inl nobody ↦
            rw
              (
                nobody,
                cancel_from-eq-cancel_unresolved daemon row true clock db row.status
                    (lockable_not_final row.status (due_can_lock skips now row due)),
                cancel_unresolved-eq-api approved resolvable sign schedule approved approved
                    resolvable row clock db,
              )
              (Succeeds-bind (IsCanceled row.id) (λ r. Unit {0}) _ _
                (cancel_unresolved-IsCanceled none approved approved resolvable sign schedule row
                  clock db h.backed (IsSafe-IsUnrefunded row.id db h) found signs)
                λ db' k. tt)
        | inr somebody ↦
            rw (somebody, due_is_automatic skips now row due, due_can_lock skips now row due)
              (Succeeds-bind (λ x. Unit {0}) (λ r. Unit {0}) _ _
                (integrity_event-Succeeds daemon row.id _ _ (λ x. Unit {0}) signs tt tt)
                λ db' k. tt)
      ]

-- Every market of the table that is due was locked by another transaction.
abbrev pub NoneDue : (ℕ → Bool) → ℕ → Db → Type 0
NoneDue skips now db =
    (k : ℕ) (row : Market)
    → lookup k db.markets ≡ some row
    → is_closable now row ≡ true
    → skips row.id ≡ true

abbrev pub IsClosedUp : (ℕ → Bool) → ℕ → List ClosedMarket × Db → Type 0
IsClosedUp skips now r = IsSafe r.1 × NoneDue skips now r.1

module _ (approved resolvable sign schedule : ℕ → Db → Result (Unit {0})) (skips : ℕ → Bool)
    (now clock : ℕ) where
  none_missed :
      (row : Market)
      → is_closable now row ≡ true
      → (must_close skips now row ≡ true → false ≡ true)
      → skips row.id ≡ true
  none_missed row due excluded = elim (Bool-cases (skips row.id)) [
    | inl skipped ↦ skipped
    | inr free ↦ cc (excluded (rw (due, free) refl))
  ]

  close_each-IsClosedUp :
      (rows : List Market) (closed : List ClosedMarket) (db : Db)
      → IsSafe db
      → IsQueued skips now db.markets rows
      → Covers skips now db.markets rows
      → Ensures
          (IsClosedUp skips now)
          (close_each (daemon_engine approved resolvable sign schedule) now clock rows closed db)
  unfolding close_each
  close_each-IsClosedUp [] closed db h queued covers =
      (h, λ k row found due. none_missed row due (covers k row found))
  close_each-IsClosedUp (row ∷ rows) closed db h queued covers =
      Ensures-bind (IsClosedUp skips now) (close_market _ now clock row closed db) _ λ r e.
        let (f, closes, w) =
          ensured _ _
            (close_market-Closes approved resolvable sign schedule skips row db h now clock closed
              queued.1)
            e in
        close_each-IsClosedUp rows r.0 r.1 w.0
          (rw w.1 (IsQueued-update skips now row.id f db.markets rows queued.2 queued.3))
          (rw w.1 (Covers-update skips now f db.markets row rows closes covers))

  close_each-Succeeds :
      (rows : List Market) (closed : List ClosedMarket) (db : Db)
      → IsSafe db
      → IsQueued skips now db.markets rows
      → ((m : ℕ) → Signs sign m)
      → Succeeds
          (λ r. Unit {0})
          (close_each (daemon_engine approved resolvable sign schedule) now clock rows closed db)
  unfolding close_each
  close_each-Succeeds [] closed db h queued signs = tt
  close_each-Succeeds (row ∷ rows) closed db h queued signs =
      Succeeds-bind (λ r. Unit {0} × Closes approved resolvable sign schedule skips row db h now r)
        (λ r. Unit {0}) _ _
        (Succeeds-and _ _ _
          (close_market-Succeeds approved resolvable sign schedule skips row db h now clock closed
            queued.1 queued.0 (signs row.id))
          (close_market-Closes approved resolvable sign schedule skips row db h now clock closed
            queued.1))
        λ r (done, (f, closes, w)).
          close_each-Succeeds rows r.0 r.1 w.0
            (rw w.1 (IsQueued-update skips now row.id f db.markets rows queued.2 queued.3)) signs

  -- A run of the daemon that is not rolled back keeps all that about the credits, and leaves no
  -- market due but those whose rows another transaction had locked.
  pub close_due_auto_markets-Ensures :
      (db : Db)
      → IsSafe db
      → IsIndexed db.markets
      → Ensures (IsClosedUp skips now) (
          close_due_auto_markets
            (daemon_engine approved resolvable sign schedule)
            skips
            now
            clock
            db)
  unfolding close_due_auto_markets
  close_due_auto_markets-Ensures db h indexed =
      close_each-IsClosedUp (due_markets skips now db) [] db h
        (due_markets-IsQueued skips now db indexed) (due_markets-Covers skips now db indexed)

  -- A run of the daemon over a database whose markets have unique ids succeeds, when no event's
  -- signature is refused, what is locked is what is staked and every open prediction can be
  -- refunded: afterwards every market that is due for its automatic close was one whose row another
  -- transaction had locked, and all that about the credits holds again.
  pub close_due_auto_markets-IsClosedUp :
      (db : Db)
      → ((m : ℕ) → Signs sign m)
      → IsSafe db
      → IsIndexed db.markets
      → Succeeds (IsClosedUp skips now) (
          close_due_auto_markets
            (daemon_engine approved resolvable sign schedule)
            skips
            now
            clock
            db)
  unfolding close_due_auto_markets
  close_due_auto_markets-IsClosedUp db signs h indexed =
      Succeeds-map (λ r. Unit {0} × IsClosedUp skips now r) (IsClosedUp skips now) _ (λ r k. k.1)
        (Succeeds-and _ _ _
          (close_each-Succeeds (due_markets skips now db) [] db h
            (due_markets-IsQueued skips now db indexed) signs)
          (close_due_auto_markets-Ensures db h indexed))
