-- ===== src/Lifecycle/Replay.antt =====
-- Replaying a forecaster's history gives what the updates after each settlement had given.
use mathlib.Core.List.{reverse, reverse_aux}
use gotrendlabs.Prelude.{
  ℕ, ◌+◌, ◌*◌, ◌≤◌, ◌≡◌, Bool, true, false, ◌||◌, Option, some, List, [], ◌∷◌, Result, arith, refl,
  ◌∙◌, ap, inl, inr, if_either, ==_refl, Option-cases,
}
use gotrendlabs.Prelude.Lists.{length}
use gotrendlabs.Prelude.Table.{lookup, insert_new, lookup-update, lookup-insert_new}
use gotrendlabs.Db.{Db, Prediction, Reputation}
use gotrendlabs.Decimal.Bounds.{reputation_delta_bounds}
use gotrendlabs.Lifecycle.Engine.{Engine, api_engine, ensure_user_core, new_reputation}
use gotrendlabs.Lifecycle.Reputation.{
  next_score, next_streak, is_won, replay_score, leading_wins, apply_reputation_delta,
  write_reputation, resolved_of, accuracy_indicator,
}
use gotrendlabs.Lifecycle.Settling.{api}

-- The updates after the settlements of u's predictions ps, oldest first.
abbrev pub apply_each : Engine → ℕ → List Prediction → Db → Db
apply_each e u [] db = db
apply_each e u (p ∷ ps) db =
    apply_each e u ps (apply_reputation_delta e u p.probability_at_entry (is_won p.won) db)

next_streak-leading_wins :
    (p : Prediction) (newer : List Prediction)
    → next_streak (is_won p.won) (leading_wins newer) ≡ leading_wins (p ∷ newer)
unfolding next_streak leading_wins
next_streak-leading_wins p newer = ground arith

-- A reputation row is never made anew.
reputation-ensure_user_core :
    (u : ℕ) (db : Db) (r : Reputation)
    → lookup u db.reputations ≡ some r
    → lookup u (ensure_user_core u db).reputations ≡ some r
unfolding ensure_user_core
reputation-ensure_user_core u db r e = elim (Option-cases (lookup u db.users)) [
  | inl missing ↦ rw (ensure_user_core, missing) e
  | inr (user, found) ↦
      let kept : lookup u (insert_new u new_reputation db.reputations) ≡ some r =
        rw (lookup-insert_new u u new_reputation db.reputations, ==_refl u, e) refl in
      rw (ensure_user_core, found)
        (if_either (λ (x : Db). lookup u x.reputations ≡ some r)
          (user.is_staff || user.is_superuser || user.is_bot) e kept)
]

module _ (staff : Option ℕ) (a b c sign schedule : ℕ → Db → Result (Unit {0})) (u : ℕ) where
  -- The score and the streak that one update leaves in u's row.
  updated_row :
      (p : ℕ) (won : Bool) (db : Db) (r : Reputation)
      → lookup u db.reputations ≡ some r
      → (after : Reputation) × (lookup u
            (apply_reputation_delta (api staff a b c sign schedule) u p won db).reputations
          ≡ some after)
        × (after.reputation_score ≡ next_score p won r.reputation_score)
        × (after.streak ≡ next_streak won r.streak)
  unfolding apply_reputation_delta write_reputation api_engine
  updated_row p won db r e =
      let row = reputation-ensure_user_core u db r e in
      (
        record {
          reputation_score = next_score p won r.reputation_score;
          resolved_predictions_count = length (resolved_of u (ensure_user_core u db));
          accuracy_indicator = accuracy_indicator u (ensure_user_core u db);
          streak = next_streak won r.streak;
        },
        lookup-update u u _ (ensure_user_core u db).reputations ∙ rw (==_refl u, row) refl,
        refl,
        refl,
      )

  rows_after :
      (ps : List Prediction) (db : Db) (older : List Prediction) (r : Reputation)
      → lookup u db.reputations ≡ some r
      → r.streak ≡ leading_wins older
      → (after : Reputation) × (lookup u
            (apply_each (api staff a b c sign schedule) u ps db).reputations
          ≡ some after)
        × (after.reputation_score ≡ replay_score r.reputation_score ps)
        × (after.streak ≡ leading_wins (reverse_aux ps older))
  unfolding replay_score
  rows_after [] db older r e s = (r, e, refl, s)
  rows_after (p ∷ ps) db older r e s =
      let (mid, row, score, streak) = updated_row p.probability_at_entry (is_won p.won) db r e in
      let (after, found, replayed, wins) =
        rows_after ps _ (p ∷ older) mid row
          (streak ∙ ap (next_streak (is_won p.won)) s ∙ next_streak-leading_wins p older) in
      (after, found, replayed ∙ ap (λ k. replay_score k ps) score, wins)

  -- The updates after each settlement, with the API's callbacks, leave in a forecaster's reputation
  -- row, whose streak was zero, the score and the streak that a recalculation replays from the same
  -- score and the same settlements, oldest first.
  pub replay-eq-apply_each :
      (history : List Prediction) (db : Db) (r : Reputation)
      → lookup u db.reputations ≡ some r
      → r.streak ≡ 0
      → (after : Reputation) × (lookup u
            (apply_each (api staff a b c sign schedule) u history db).reputations
          ≡ some after)
        × (after.reputation_score ≡ replay_score r.reputation_score history)
        × (after.streak ≡ leading_wins (reverse history))
  unfolding leading_wins
  replay-eq-apply_each history db r e s = rows_after history db [] r e s

next_score_bounds :
    (p : ℕ) (won : Bool) (score : ℕ)
    → (next_score p won score ≤ score + 10) × (score ≤ next_score p won score + 10)
unfolding next_score
next_score_bounds p true score = omega (arith, reputation_delta_bounds p)
next_score_bounds p false score = omega (arith, reputation_delta_bounds p)

-- A history of n settlements moves the score by at most 10 n points.
pub replay_score_bounds :
    (history : List Prediction) (score : ℕ)
    → (replay_score score history ≤ score + 10 * length history)
      × (score ≤ replay_score score history + 10 * length history)
unfolding replay_score
replay_score_bounds [] score = omega arith
replay_score_bounds (p ∷ ps) score = omega (
  arith,
  replay_score_bounds ps (next_score p.probability_at_entry (is_won p.won) score),
  next_score_bounds p.probability_at_entry (is_won p.won) score,
)
