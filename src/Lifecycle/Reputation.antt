-- ===== src/Lifecycle/Reputation.antt =====
-- The reputation of a forecaster: the update after one settled prediction, and the replay of all.
use mathlib.Core.List.{reverse}
use gotrendlabs.Prelude.{
  ℕ, suc, ◌+◌, ◌-◌, Bool, true, false, Option, none, some, List, [], ◌∷◌, ◌==◌, leb, ◌&&◌,
  if◌then◌else◌,
}
use gotrendlabs.Prelude.Lists.{select, length}
use gotrendlabs.Prelude.Table.{lookup, update}
use gotrendlabs.Decimal.{reputation_gain, reputation_cost, accuracy_percent}
use gotrendlabs.Db.{Db, Prediction, Reputation, rows, is_resolved}
use gotrendlabs.Position.Write.{initial_reputation}
use gotrendlabs.Lifecycle.Engine.{Engine}

-- `max(0, score + delta)` with the rounded delta.
unfoldable pub next_score : ℕ → Bool → ℕ → ℕ
next_score p true score = score + reputation_gain p
next_score p false score = score - reputation_cost p

unfoldable pub next_streak : Bool → ℕ → ℕ
next_streak true streak = suc streak
next_streak false streak = 0

-- `won` as a condition: NULL is false.
abbrev pub is_won : Option Bool → Bool
is_won none = false
is_won (some b) = b

-- WHERE user_id = u AND status = 'resolved'
unfoldable pub resolved_of : ℕ → Db → List Prediction
resolved_of u db = select (λ p. (p.user_id == u) && is_resolved p.status) (rows db.predictions)

-- `_accuracy_indicator`
unfoldable pub accuracy_indicator : ℕ → Db → ℕ
unfolding resolved_of
accuracy_indicator u db =
    let resolved = resolved_of u db in
    accuracy_percent (length (select (λ p. is_won p.won) resolved)) (length resolved)

abbrev pub score_or_initial : Option Reputation → ℕ
score_or_initial none = initial_reputation
score_or_initial (some r) = r.reputation_score

abbrev pub streak_or_zero : Option Reputation → ℕ
streak_or_zero none = 0
streak_or_zero (some r) = r.streak

abbrev written : ℕ → ℕ → ℕ → ℕ → Reputation → Reputation
written score count accuracy streak r = record {
  reputation_score = score;
  resolved_predictions_count = count;
  accuracy_indicator = accuracy;
  streak = streak;
}

-- UPDATE gotrendlabs_user_reputations
unfoldable pub write_reputation : ℕ → ℕ → ℕ → Db → Db
unfolding resolved_of accuracy_indicator
write_reputation u score streak db = record db {
  reputations =
      update u (written score (length (resolved_of u db)) (accuracy_indicator u db) streak)
        db.reputations;
}

-- `_apply_reputation_delta`
unfoldable pub apply_reputation_delta : Engine → ℕ → ℕ → Bool → Db → Db
unfolding next_score next_streak write_reputation
apply_reputation_delta e u p won db =
    let db' = e.ensure_user_core u db in
    let r = lookup u db'.reputations in
    write_reputation u (next_score p won (score_or_initial r)) (next_streak won (streak_or_zero r))
      db'

-- ORDER BY updated_at ASC, for rows that come in id order.
unfoldable pub insert_by_updated : Prediction → List Prediction → List Prediction
insert_by_updated p [] = p ∷ []
insert_by_updated p (q ∷ qs) =
    if leb p.updated_at q.updated_at then p ∷ q ∷ qs else q ∷ insert_by_updated p qs

unfoldable pub order_by_updated : List Prediction → List Prediction
unfolding insert_by_updated
order_by_updated [] = []
order_by_updated (p ∷ ps) = insert_by_updated p (order_by_updated ps)

-- The loop over the settled predictions, oldest first.
unfoldable pub replay_score : ℕ → List Prediction → ℕ
unfolding next_score
replay_score score [] = score
replay_score score (p ∷ ps) =
    replay_score (next_score p.probability_at_entry (is_won p.won) score) ps

-- The loop over the settled predictions, newest first, that breaks at the first loss.
unfoldable pub leading_wins : List Prediction → ℕ
leading_wins [] = 0
leading_wins (p ∷ ps) = let rest = leading_wins ps in if is_won p.won then suc rest else 0

-- `_recalculate_user_reputation`
unfoldable pub recalculate_user_reputation : Engine → ℕ → Db → Db
unfolding order_by_updated replay_score leading_wins write_reputation
recalculate_user_reputation e u db =
    let db' = e.ensure_user_core u db in
    let history = order_by_updated (resolved_of u db') in
    write_reputation u (replay_score initial_reputation history) (leading_wins (reverse history))
      db'
