-- ===== src/Rewards/Kept.antt =====
-- The queues' rows that stay rewarded or reviewed, whatever request comes next.
use gotrendlabs.Lifecycle.Engine.{ensure_user_core}
use gotrendlabs.Wallet.{wallet_summary}
use gotrendlabs.Prelude.Int.{pos, ltb_ℤ}
use gotrendlabs.Db.{Db}
use mathlib.Core.Option
use gotrendlabs.Prelude.{
  ℕ, ◌≡◌, Bool, true, false, not, ◌==◌, ◌||◌, Option, none, some, List, [], ◌∷◌, Result, ok, err,
  raise_if, raise_if-not-eq-ok, Ensures, Ensures-bind, arith, refl, ==_refl, inl, inr, Bool-cases,
  already_rewarded, already_reviewed, note_required, direction_invalid, insufficient_balance, ◌&&◌,
}
use gotrendlabs.Prelude.Table.{Table, lookup, update, lookup-update}
use gotrendlabs.Rewards.{
  Item, Recharge, Desk, RewardPayload, check_amount, truthy, is_pending, is_rewarded, or_not_found,
  author_of, reward_item, refuse, admin_reward_suggestion, admin_reward_feedback,
  admin_approve_wallet_recharge, admin_reject_wallet_recharge, admin_adjust_user_wallet,
  AdjustmentPayload, AdminEvent, is_adjustment, known_user, is_debit,
}
use gotrendlabs.Rewards.Requests.{
  Request, suggestion_reward, feedback_reward, recharge_approval, recharge_rejection,
  wallet_adjustment, handle, serve, or_unchanged,
}

-- There is a row, and it has the property.
abbrev pub holds {ℓ} : {V : Type ℓ} → (V → Bool) → Option V → Bool
holds P none = false
holds P (some v) = P v

module _ {V : Type 0} (P : V → Bool) (f : V → V) (writes : (v : V) → P (f v) ≡ true) where
  written : (o : Option V) → holds P o ≡ true → holds P (Option.map f o) ≡ true
  written none h = cc
  written (some v) h = writes v

  -- An UPDATE that gives a row the property takes it from no other.
  holds-update :
      (k j : ℕ) (t : Table V)
      → holds P (lookup k t) ≡ true
      → holds P (lookup k (update j f t)) ≡ true
  holds-update k j t h = elim (Bool-cases (j == k)) [
    | inl same ↦ rw (lookup-update j k f t, same) (written (lookup k t) h)
    | inr other ↦ rw (lookup-update j k f t, other) h
  ]

  updated : (o : Option V) (v : V) → or_not_found o ≡ ok v → holds P (Option.map f o) ≡ true
  updated none v e = cc
  updated (some w) v e = writes w

  -- The row that an UPDATE finds has the property.
  pub holds-updated :
      (k : ℕ) (t : Table V) (v : V)
      → or_not_found (lookup k t) ≡ ok v
      → holds P (lookup k (update k f t)) ≡ true
  holds-updated k t v e = rw (lookup-update k k f t, ==_refl k) (updated (lookup k t) v e)

-- A row that was found has the property.
pub found_holds :
    {V : Type 0} (P : V → Bool) (o : Option V) (v : V)
    → holds P o ≡ true
    → or_not_found o ≡ ok v
    → P v ≡ true
found_holds P none v h e = cc
found_holds P (some w) v h e = ground arith

pub both_ways : {t : Bool} → t ≡ true → t ≡ false → ⊥
both_ways h k = cc

-- Any served requests keep what every request keeps.
module _ (strip : ℕ → ℕ) (K : Desk → Bool)
    (keeps : (request : Request) (desk : Desk)
      → K desk ≡ true
      → Ensures (λ after. K after ≡ true) (handle strip request desk)) where
  kept :
      (r : Result Desk) (desk : Desk)
      → K desk ≡ true
      → Ensures (λ after. K after ≡ true) r
      → K (or_unchanged strip r desk) ≡ true
  kept (ok after) desk h e = e
  kept (err x) desk h e = h

  pub serve-keeps :
      (requests : List Request) (desk : Desk) → K desk ≡ true → K (serve strip requests desk) ≡ true
  unfolding serve
  serve-keeps [] desk h = h
  serve-keeps (request ∷ requests) desk h =
      serve-keeps requests _ (kept (handle strip request desk) desk h (keeps request desk h))

-- The suggestion has been paid for.
abbrev pub has_reward : ℕ → Desk → Bool
has_reward id desk = holds (λ (r : Item). truthy r.reward_gtl) (lookup id desk.suggestions)

-- The recharge request has been reviewed.
abbrev pub is_reviewed : ℕ → Desk → Bool
is_reviewed id desk = holds (λ (r : Recharge). not (is_pending r.status)) (lookup id desk.recharges)

pub amount_truthy :
    (limit amount : ℕ) → check_amount limit amount ≡ ok tt → truthy (some amount) ≡ true
amount_truthy limit amount h = let range = raise_if-not-eq-ok _ _ h in ground arith

suggestion_reward-keeps :
    (id staff now k : ℕ) (payload : RewardPayload) (desk : Desk)
    → has_reward k desk ≡ true
    → Ensures
        (λ after. has_reward k after ≡ true)
        (admin_reward_suggestion staff now id payload desk)
unfolding admin_reward_suggestion
suggestion_reward-keeps id staff now k payload desk h =
    let P = λ (after : Desk). has_reward k after ≡ true in
    Ensures-bind P (check_amount 10000 payload.amount_gtl) _ λ _ positive.
      Ensures-bind P (or_not_found (lookup id desk.suggestions)) _ λ row _.
        Ensures-bind P (author_of row.author_id) _ λ author _.
          Ensures-bind P (raise_if (truthy row.reward_gtl) already_rewarded) _ λ _ _.
            holds-update (λ (r : Item). truthy r.reward_gtl) (reward_item staff now payload)
              (λ v. amount_truthy 10000 payload.amount_gtl positive) k id desk.suggestions h

module _ (staff now id k : ℕ) (payload : RewardPayload) (desk : Desk) where
  suggestion_reward-reviewed :
      is_reviewed k desk ≡ true
      → Ensures
          (λ after. is_reviewed k after ≡ true)
          (admin_reward_suggestion staff now id payload desk)
  unfolding admin_reward_suggestion
  suggestion_reward-reviewed h =
      let P = λ (after : Desk). is_reviewed k after ≡ true in
      Ensures-bind P (check_amount 10000 payload.amount_gtl) _ λ _ _.
        Ensures-bind P (or_not_found (lookup id desk.suggestions)) _ λ row _.
          Ensures-bind P (author_of row.author_id) _ λ author _.
            Ensures-bind P (raise_if (truthy row.reward_gtl) already_rewarded) _ λ _ _. h

  feedback_reward-keeps :
      (K : Desk → Bool)
      → ((db : Db) (feedbacks : Table Item) (events : List AdminEvent)
          → K (record desk { db = db; feedbacks = feedbacks; events = events }) ≡ true)
      → Ensures (λ after. K after ≡ true) (admin_reward_feedback staff now id payload desk)
  unfolding admin_reward_feedback
  feedback_reward-keeps K h =
      let P = λ (after : Desk). K after ≡ true in
      Ensures-bind P (check_amount 10000 payload.amount_gtl) _ λ _ _.
        Ensures-bind P (or_not_found (lookup id desk.feedbacks)) _ λ row _.
          Ensures-bind P (author_of row.author_id) _ λ author _.
            Ensures-bind P
              (raise_if (is_rewarded row.status || truthy row.reward_gtl) already_rewarded) _
              λ _ _. h _ _ _

module _ (strip : ℕ → ℕ) (staff now id k : ℕ) (desk : Desk) where
  recharge_approval-keeps :
      (payload : RewardPayload)
      → is_reviewed k desk ≡ true
      → Ensures
          (λ after. is_reviewed k after ≡ true)
          (admin_approve_wallet_recharge strip staff now id payload desk)
  unfolding admin_approve_wallet_recharge
  recharge_approval-keeps payload h =
      let P = λ (after : Desk). is_reviewed k after ≡ true in
      Ensures-bind P (check_amount 10000 payload.amount_gtl) _ λ _ _.
        Ensures-bind P (or_not_found (lookup id desk.recharges)) _ λ row _.
          Ensures-bind P (raise_if (not (is_pending row.status)) already_reviewed) _ λ _ _.
            holds-update (λ (r : Recharge). not (is_pending r.status)) _ (λ v. refl) k id
              desk.recharges h

  recharge_approval-rewarded :
      (payload : RewardPayload)
      → has_reward k desk ≡ true
      → Ensures
          (λ after. has_reward k after ≡ true)
          (admin_approve_wallet_recharge strip staff now id payload desk)
  unfolding admin_approve_wallet_recharge
  recharge_approval-rewarded payload h =
      let P = λ (after : Desk). has_reward k after ≡ true in
      Ensures-bind P (check_amount 10000 payload.amount_gtl) _ λ _ _.
        Ensures-bind P (or_not_found (lookup id desk.recharges)) _ λ row _.
          Ensures-bind P (raise_if (not (is_pending row.status)) already_reviewed) _ λ _ _. h

  recharge_rejection-keeps :
      (note : ℕ)
      → is_reviewed k desk ≡ true
      → Ensures
          (λ after. is_reviewed k after ≡ true)
          (admin_reject_wallet_recharge strip staff now id note desk)
  unfolding admin_reject_wallet_recharge
  recharge_rejection-keeps note h =
      let P = λ (after : Desk). is_reviewed k after ≡ true in
      Ensures-bind P (raise_if (strip note == 0) note_required) _ λ _ _.
        Ensures-bind P (or_not_found (lookup id desk.recharges)) _ λ row _.
          Ensures-bind P (raise_if (not (is_pending row.status)) already_reviewed) _ λ _ _.
            holds-update (λ (r : Recharge). not (is_pending r.status))
              (refuse (strip note) staff now) (λ v. refl) k id desk.recharges h

  recharge_rejection-rewarded :
      (note : ℕ)
      → has_reward k desk ≡ true
      → Ensures
          (λ after. has_reward k after ≡ true)
          (admin_reject_wallet_recharge strip staff now id note desk)
  unfolding admin_reject_wallet_recharge
  recharge_rejection-rewarded note h =
      let P = λ (after : Desk). has_reward k after ≡ true in
      Ensures-bind P (raise_if (strip note == 0) note_required) _ λ _ _.
        Ensures-bind P (or_not_found (lookup id desk.recharges)) _ λ row _.
          Ensures-bind P (raise_if (not (is_pending row.status)) already_reviewed) _ λ _ _. h

-- An adjustment leaves the queues alone.
adjustment-keeps :
    (strip : ℕ → ℕ) (staff u : ℕ) (payload : AdjustmentPayload) (desk : Desk) (K : Desk → Bool)
    → ((db : Db) (events : List AdminEvent) → K (record desk { db = db; events = events }) ≡ true)
    → Ensures (λ after. K after ≡ true) (admin_adjust_user_wallet strip staff u payload desk)
unfolding admin_adjust_user_wallet
adjustment-keeps strip staff u payload desk K h =
    let P = λ (after : Desk). K after ≡ true in
    Ensures-bind P (check_amount 1000000 payload.amount_gtl) _ λ _ _.
      Ensures-bind P (raise_if (strip payload.note == 0) note_required) _ λ _ _.
        Ensures-bind P (raise_if (not (is_adjustment payload.direction)) direction_invalid) _ λ _ _.
          Ensures-bind P (known_user (lookup u desk.db.users)) _ λ user _.
            Ensures-bind P
              (raise_if
                (is_debit payload.direction
                  && ltb_ℤ (wallet_summary u (ensure_user_core u desk.db).wallet).0.available_gtl
                      (pos payload.amount_gtl))
                insufficient_balance)
              _ λ _ _. h _ _

module _ (strip : ℕ → ℕ) (k : ℕ) where
  pub handle-has_reward :
      (request : Request) (desk : Desk)
      → has_reward k desk ≡ true
      → Ensures (λ after. has_reward k after ≡ true) (handle strip request desk)
  unfolding handle
  handle-has_reward (suggestion_reward staff now id payload) desk h =
      suggestion_reward-keeps id staff now k payload desk h
  handle-has_reward (feedback_reward staff now id payload) desk h =
      feedback_reward-keeps staff now id k payload desk (has_reward k) (λ db feedbacks events. h)
  handle-has_reward (recharge_approval staff now id payload) desk h =
      recharge_approval-rewarded strip staff now id k desk payload h
  handle-has_reward (recharge_rejection staff now id note) desk h =
      recharge_rejection-rewarded strip staff now id k desk note h
  handle-has_reward (wallet_adjustment staff u payload) desk h =
      adjustment-keeps strip staff u payload desk (has_reward k) (λ db events. h)

  pub handle-is_reviewed :
      (request : Request) (desk : Desk)
      → is_reviewed k desk ≡ true
      → Ensures (λ after. is_reviewed k after ≡ true) (handle strip request desk)
  unfolding handle
  handle-is_reviewed (suggestion_reward staff now id payload) desk h =
      suggestion_reward-reviewed staff now id k payload desk h
  handle-is_reviewed (feedback_reward staff now id payload) desk h =
      feedback_reward-keeps staff now id k payload desk (is_reviewed k) (λ db feedbacks events. h)
  handle-is_reviewed (recharge_approval staff now id payload) desk h =
      recharge_approval-keeps strip staff now id k desk payload h
  handle-is_reviewed (recharge_rejection staff now id note) desk h =
      recharge_rejection-keeps strip staff now id k desk note h
  handle-is_reviewed (wallet_adjustment staff u payload) desk h =
      adjustment-keeps strip staff u payload desk (is_reviewed k) (λ db events. h)
