-- ===== src/Lifecycle/Statuses.antt =====
-- Which transitions a market's status allows, whatever the callbacks do.
use gotrendlabs.Prelude.{
  ℕ, ◌≡◌, Bool, true, false, Option, none, some, ◌⊎◌, inl, inr, refl, ap, ok, not, raise_if,
  Ensures, Ensures-bind, Ensures-map, ensured, Fails, Bool-cases, lock_requires_staff,
  raise_if-eq-ok, raise_if-not-eq-ok, ==_refl, lock_requires_daemon, lock_wrong_status,
}
use mathlib.Core.Option
use gotrendlabs.Prelude.Table.{lookup, lookup-update}
use gotrendlabs.Db.{Db, Market, MarketStatus}
use gotrendlabs.Lifecycle.Engine.{Engine}
use gotrendlabs.Lifecycle.Signing.{integrity_event-Ensures}
use gotrendlabs.Lifecycle.Transitions.{
  set_market, status_of, ResolvePayload, publish_market, publish_from, cancel_market, cancel_from,
  resolve_market, lock_row, locked_row, lock_market, lock_market_automatically, can_lock,
}

-- Sealed and canceled markets.
abbrev pub IsOver : MarketStatus → Type 0
IsOver s = (s ≡ MarketStatus.sealed) ⊎ (s ≡ MarketStatus.canceled)

lock_rejects :
    (e : Engine) (row : Market) (now : ℕ) (db : Db)
    → can_lock row.status ≡ false
    → Fails (lock_market e row now db) × Fails (lock_market_automatically e row now db)
unfolding lock_market lock_market_automatically
lock_rejects e row now db h = elim (Bool-cases row.auto_close_enabled) [
  | inl automatic ↦ rw (automatic, h) (tt, tt)
  | inr manual ↦ rw (manual, h) (tt, tt)
]

module _ (e : Engine) (row : Market) (payload : ResolvePayload) (has_note : Bool) (now : ℕ)
    (db : Db) where
  -- No transition leaves a sealed or canceled market of the table: publishing, canceling, resolving
  -- and both ways of closing it raise, whatever the engine's callbacks do.
  pub over_rejects :
      IsOver row.status
      → lookup row.id db.markets ≡ some row
      → Fails (publish_market e row.id now db)
        × Fails (cancel_market e row has_note now db)
        × Fails (resolve_market e row.id payload now db)
        × Fails (lock_market e row now db)
        × Fails (lock_market_automatically e row now db)
  unfolding publish_market publish_from cancel_market cancel_from resolve_market
  over_rejects (inl s) h =
      let locks = lock_rejects e row now db (ap can_lock s) in
      (rw (h, s) tt, rw s tt, rw (h, s) tt, locks.0, locks.1)
  over_rejects (inr s) h =
      let locks = lock_rejects e row now db (ap can_lock s) in
      (rw (h, s) tt, rw s tt, rw (h, s) tt, locks.0, locks.1)

-- The market m is closed, and no prediction and no wallet has moved.
abbrev pub IsClosed : ℕ → Db → Db → Type 0
IsClosed m db db' =
    (status_of m db' ≡ some MarketStatus.locked)
    × (db'.predictions ≡ db.predictions)
    × (db'.wallet ≡ db.wallet)

module _ (row : Market) (now : ℕ) (db : Db) (found : lookup row.id db.markets ≡ some row) where
  lock_row-IsClosed :
      (e : Engine) (staff : Option ℕ) → Ensures (IsClosed row.id db) (lock_row e staff row now db)
  unfolding lock_row set_market
  lock_row-IsClosed e staff =
      let done : Option.map (λ (r : Market). r.status)
            (lookup row.id (set_market row.id (locked_row staff now) db).markets)
          ≡ some MarketStatus.locked =
        rw (lookup-update row.id row.id (locked_row staff now) db.markets, ==_refl row.id, found)
          refl in
      integrity_event-Ensures e row.id _ _ (IsClosed row.id db) (done, refl, refl)
        (done, refl, refl)

  -- A market of the table that the staff closed was open or scheduled, without automatic close, and
  -- is locked now; no prediction and no wallet has moved.
  pub lock_market-IsClosed :
      (e : Engine) {db' : Db}
      → lock_market e row now db ≡ ok db'
      → IsClosed row.id db db' × (can_lock row.status ≡ true) × (row.auto_close_enabled ≡ false)
  unfolding lock_market
  lock_market-IsClosed e =
      ensured
        (λ x.
          IsClosed row.id db x × (can_lock row.status ≡ true) × (row.auto_close_enabled ≡ false))
        _
        (Ensures-bind _ (raise_if row.auto_close_enabled lock_requires_daemon) _ λ x manual.
          Ensures-bind _ (raise_if (not (can_lock row.status)) lock_wrong_status) _ λ y allowed.
            Ensures-map (IsClosed row.id db) _ _
              (λ x closed. (closed, raise_if-not-eq-ok _ _ allowed, raise_if-eq-ok _ _ manual))
              (lock_row-IsClosed e e.staff_id))

  -- A market of the table that the daemon closed was open or scheduled, with automatic close, and
  -- is locked now; no prediction and no wallet has moved.
  pub lock_market_automatically-IsClosed :
      (e : Engine) {db' : Db}
      → lock_market_automatically e row now db ≡ ok db'
      → IsClosed row.id db db' × (can_lock row.status ≡ true) × (row.auto_close_enabled ≡ true)
  unfolding lock_market_automatically
  lock_market_automatically-IsClosed e =
      ensured
        (λ x. IsClosed row.id db x × (can_lock row.status ≡ true) × (row.auto_close_enabled ≡ true))
        _
        (Ensures-bind _ (raise_if (not row.auto_close_enabled) lock_requires_staff) _ λ x automatic.
          Ensures-bind _ (raise_if (not (can_lock row.status)) lock_wrong_status) _ λ y allowed.
            Ensures-map (IsClosed row.id db) _ _
              (λ x closed.
                (closed, raise_if-not-eq-ok _ _ allowed, raise_if-not-eq-ok _ _ automatic))
              (lock_row-IsClosed e none))
