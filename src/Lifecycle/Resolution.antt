-- ===== src/Lifecycle/Resolution.antt =====
-- `resolve_market` as a whole, with the API's callbacks.
use gotrendlabs.Prelude.{
  ℕ, ◌≡◌, true, Option, some, List, [], ◌∷◌, ◌==◌, ◌||◌, if_either, refl, ◌∙◌, ap, Result, ok, err,
  raise_if, Ensures, Ensures-bind, Ensures-map, ensured, not, raise_if-not-eq-ok, ==_refl,
  market_not_found, resolution_state_conflict, resolution_evidence_required, winning_option_invalid,
  timezone_invalid, arith,
}
use mathlib.Core.Option
use gotrendlabs.Prelude.Table.{lookup, update, lookup-update}
use gotrendlabs.Db.{
  Db, Market, MarketOption, MarketStatus, Prediction, open_count, open_predictions, is_bot,
  set_prediction, call, admin_resolve, notify_resolved, integrity_resolved,
}
use gotrendlabs.Db.Backing.{IsBacked}
use gotrendlabs.Position.Validate.{or_raise, find_option}
use gotrendlabs.Lifecycle.Engine.{api_engine}
use gotrendlabs.Lifecycle.Settlement.{
  settled, settle_wallet, settle_prediction, settle_all, resolve_market_predictions,
}
use gotrendlabs.Lifecycle.Settling.{api, apply_delta-KeepsStakes}
use gotrendlabs.Lifecycle.Resolving.{resolve_market_predictions-closes}
use gotrendlabs.Lifecycle.Signing.{integrity_event-Ensures}
use gotrendlabs.Lifecycle.Transitions.{
  set_market, integrity_event, status_of, ResolvePayload, is_locked, resolve_market,
}

-- The market is resolved, and nothing in it is open.
abbrev pub IsResolved : ℕ → Db → Type 0
IsResolved m db =
    IsBacked db × (open_count m db.predictions ≡ 0) × (status_of m db ≡ some MarketStatus.resolved)

module _ (staff : Option ℕ) (a b c sign schedule : ℕ → Db → Result (Unit {0})) (m now : ℕ) where
  markets-settle_prediction :
      (winner : ℕ) (p : Prediction) (db : Db)
      → (settle_prediction (api staff a b c sign schedule) winner now p db).markets ≡ db.markets
  unfolding settle_prediction set_prediction
  markets-settle_prediction winner p db =
      let won = p.market_option_id == winner in
      let db1 = record db {
        wallet = settle_wallet (api staff a b c sign schedule) won p db.wallet;
        predictions = update p.id (settled won now) db.predictions;
      } in
      if_either (λ (x : Db). x.markets ≡ db.markets) (is_bot p.user_id db1) refl
        (apply_delta-KeepsStakes staff a b c sign schedule p.user_id p.probability_at_entry won
          db1).markets

  markets-settle_all :
      (winner : ℕ) (ps : List Prediction) (db : Db)
      → (settle_all (api staff a b c sign schedule) winner now ps db).markets ≡ db.markets
  unfolding settle_all
  markets-settle_all winner [] db = refl
  markets-settle_all winner (p ∷ ps) db =
      markets-settle_all winner ps _ ∙ markets-settle_prediction winner p db

  markets-resolve :
      (winner : ℕ) (db : Db)
      → (resolve_market_predictions (api staff a b c sign schedule) m winner now db).markets
        ≡ db.markets
  unfolding resolve_market_predictions
  markets-resolve winner db = markets-settle_all winner (open_predictions m db) db

  recorded-IsResolved :
      (db : Db)
      → IsResolved m db
      → Ensures (IsResolved m) (
          integrity_event
            (api staff a b c sign schedule)
            m
            (integrity_resolved m)
            (call (admin_resolve m) (call (notify_resolved m) db)))
  recorded-IsResolved db (h, n, s) =
      integrity_event-Ensures (api staff a b c sign schedule) m _ _ (IsResolved m)
        (record { backed = h.backed; consistent = h.consistent; keyed = h.keyed }, n, s)
        (record { backed = h.backed; consistent = h.consistent; keyed = h.keyed }, n, s)

  settled-IsResolved :
      (winner : ℕ) (f : Market → Market) (row : Market) (db : Db)
      → lookup m db.markets ≡ some row
      → (f row).status ≡ MarketStatus.resolved
      → IsBacked db
      → IsResolved m (
          resolve_market_predictions
            (api staff a b c sign schedule)
            m
            winner
            now
            (set_market m f db))
  unfolding set_market
  settled-IsResolved winner f row db e s h =
      let db1 = record db { markets = update m f db.markets } in
      let end =
        resolve_market_predictions-closes staff a b c sign schedule m winner now db1
          (record { backed = h.backed; consistent = h.consistent; keyed = h.keyed }) in
      (
        end.0,
        end.1,
        ap (λ t. Option.map (λ (r : Market). r.status) (lookup m t)) (markets-resolve winner db1)
            ∙ rw (lookup-update m m f db.markets, ==_refl m, e) (ap some s),
      )

  -- A market that was accepted for resolution was locked, its winning option is one of its own, and
  -- a source or a note was given; it ends resolved with no open prediction, and, if it was so
  -- before, every user's locked balance is the sum of the user's stakes in open predictions, every
  -- balance row equals the totals of the ledger, and the prediction ids are unique.
  pub resolve_market-IsResolved :
      (payload : ResolvePayload) (db : Db) {db' : Db}
      → IsBacked db
      → resolve_market (api staff a b c sign schedule) m payload now db ≡ ok db'
      → IsResolved m db'
        × (status_of m db ≡ some MarketStatus.locked)
        × ((payload.has_source_url || payload.has_note) ≡ true)
        × ((o : MarketOption) × (find_option m payload.winning_option_id db.options ≡ some o))
  unfolding resolve_market api_engine
  resolve_market-IsResolved payload db h =
      ensured
        (λ x.
          IsResolved m x
          × (status_of m db ≡ some MarketStatus.locked)
          × ((payload.has_source_url || payload.has_note) ≡ true)
          × ((o : MarketOption) × (find_option m payload.winning_option_id db.options ≡ some o)))
        _
        (Ensures-bind _ (or_raise (lookup m db.markets) (err market_not_found)) _ λ row found.
          Ensures-bind _ (raise_if (not (is_locked row.status)) resolution_state_conflict) _
            λ x locked. Ensures-bind _ (c m db) _ λ y allowed.
              Ensures-bind _
                (raise_if (not (payload.has_source_url || payload.has_note))
                  resolution_evidence_required)
                _
                λ z evidence.
                  Ensures-bind _
                    (or_raise (find_option m payload.winning_option_id db.options)
                      (err winning_option_invalid))
                    _
                    λ option chosen.
                      Ensures-bind _ (raise_if (not payload.timezone_is_known) timezone_invalid) _
                        λ v known.
                          Ensures-map (IsResolved m) _ _
                            (λ x done. (
                              done,
                              ap (Option.map (λ (r : Market). r.status)) (found_row row found)
                                  ∙ ap some
                                      (locked_status row.status (raise_if-not-eq-ok _ _ locked)),
                              raise_if-not-eq-ok _ _ evidence,
                              (option, found_option option chosen),
                            ))
                            (recorded-IsResolved _
                              (settled-IsResolved option.id _ row db (found_row row found) refl h)))
    where
      found_option :
          (o : MarketOption)
          → or_raise
              (find_option m payload.winning_option_id db.options)
              (err winning_option_invalid)
            ≡ ok o
          → find_option m payload.winning_option_id db.options ≡ some o
      found_option o e = ground arith

      found_row :
          (row : Market)
          → or_raise (lookup m db.markets) (err market_not_found) ≡ ok row
          → lookup m db.markets ≡ some row
      found_row row e = ground arith

      locked_status : (s : MarketStatus) → is_locked s ≡ true → s ≡ MarketStatus.locked
      locked_status s e = ground arith
