-- ===== src/Refunds/Superseding.antt =====
-- The stakes that a revision releases are those of the rows that it supersedes.
use gotrendlabs.Prelude.{
  ℕ, ◌≤◌, ◌<◌, ◌≡◌, Bool, true, false, not, ◌&&◌, Option, none, some, List, [], ◌∷◌, arith, ◌==◌,
  refl, ◌∙◌, ap, sym, if◌then◌else◌, inl, inr, Bool-cases, ==_iff,
}
use mathlib.Core.Option
use gotrendlabs.Prelude.Lists.{All}
use gotrendlabs.Prelude.Table.{Table, lookup}
use gotrendlabs.Wallet.{Wallet, prediction_refund, release, prediction}
use gotrendlabs.Db.{Db, Prediction, is_of, is_open}
use gotrendlabs.Db.Backing.{IsKeyed}
use gotrendlabs.Lifecycle.Pending.{IsPending, select-IsPending}
use gotrendlabs.Position.Queries.{insert_by_created, order_by_created, active_positions}
use gotrendlabs.Position.Apply.{release_stakes, supersede, superseded}
use gotrendlabs.Refunds.Entries.{Spares, Spares-refl, Spares-trans, Spares-weaken, record-Spares}
use gotrendlabs.Refunds.Rows.{IsRefundable, opened_or, lookup-IsKeyed}

-- Rows of the table that pass a test.
abbrev AreListed : (Prediction → Bool) → Table Prediction → List Prediction → Type 0
AreListed test t ps = All (λ r. (lookup r.id t ≡ some r) × (test r ≡ true)) ps

module _ (test : Prediction → Bool) (t : Table Prediction) where
  AreListed-of_pending : (ps : List Prediction) → IsPending test t ps → AreListed test t ps
  AreListed-of_pending [] h = tt
  AreListed-of_pending (p ∷ ps) h = ((h.0, h.1), AreListed-of_pending ps h.3)

  AreListed-insert :
      (p : Prediction) (ps : List Prediction)
      → AreListed test t (p ∷ ps)
      → AreListed test t (insert_by_created p ps)
  unfolding insert_by_created
  AreListed-insert p [] h = h
  AreListed-insert p (q ∷ qs) h = ground (arith, AreListed-insert p qs)

  AreListed-order :
      (ps : List Prediction) → AreListed test t ps → AreListed test t (order_by_created ps)
  unfolding order_by_created
  AreListed-order [] h = tt
  AreListed-order (p ∷ ps) h =
      AreListed-insert p (order_by_created ps) (h.0, AreListed-order ps h.1)

-- WHERE user_id = u AND market_id = m AND status = 'open'
abbrev is_active : ℕ → ℕ → Prediction → Bool
is_active u m p = is_of u m p && is_open p.status

abbrev active_or : ℕ → ℕ → Option Prediction → Bool
active_or u m none = false
active_or u m (some r) = is_active u m r

active_positions-AreListed :
    (u m : ℕ) (db : Db)
    → IsKeyed db.last_prediction_id db.predictions
    → AreListed (is_active u m) db.predictions (active_positions u m db)
unfolding active_positions
active_positions-AreListed u m db k = AreListed-order (is_active u m) db.predictions _ (
    AreListed-of_pending (is_active u m) db.predictions _
      (select-IsPending (is_active u m) db.last_prediction_id db.predictions k))

abbrev OtherThan : List Prediction → ℕ → Type 0
OtherThan ps k = All (λ r. (r.id == k) ≡ false) ps

release_stakes-Spares :
    (n u : ℕ) (ps : List Prediction) (w : Wallet)
    → All (λ r. r.id ≤ n) ps
    → Spares n (OtherThan ps) w (release_stakes u ps w)
unfolding release_stakes
release_stakes-Spares n u [] w h = Spares-refl n _ w
release_stakes-Spares n u (p ∷ ps) w h =
    Spares-trans
      (Spares-weaken (λ k s. s.0)
        (record-Spares u prediction_refund p.stake_amount release (prediction p.id) none w n h.0))
      (Spares-weaken (λ k s. s.1) (release_stakes-Spares n u ps _ h.1))

module _ (u m new now : ℕ) where
  lookup-supersede :
      (j : ℕ) (t : Table Prediction)
      → lookup j (supersede u m new now t)
        ≡ Option.map
            (λ p. if is_active u m p && not (p.id == new) then superseded new now p else p)
            (lookup j t)
  unfolding supersede lookup
  lookup-supersede j [] = refl
  lookup-supersede j ((i, p) ∷ t) = ground (arith, lookup-supersede j t)

  -- An open row was there before, and was not to be superseded.
  kept_row :
      (o : Option Prediction) (q : Prediction)
      → Option.map (λ p. if is_active u m p && not (p.id == new) then superseded new now p else p) o
        ≡ some q
      → is_open q.status ≡ true
      → (o ≡ some q) × ((is_active u m q && not (q.id == new)) ≡ false)
  kept_row none q e opened = cc
  kept_row (some p) q e opened =
      let (same, kept) = not_taken (is_active u m p && not (p.id == new)) p q e opened in
      (same, ap test_or (sym same) ∙ kept)
    where
      not_taken :
          (c : Bool) (p q : Prediction)
          → some (if c then superseded new now p else p) ≡ some q
          → is_open q.status ≡ true
          → (some p ≡ some q) × (c ≡ false)
      not_taken false p q e opened = (e, refl)
      not_taken true p q e opened = cc (ap opened_or e, opened)

      test_or : Option Prediction → Bool
      test_or none = false
      test_or (some r) = is_active u m r && not (r.id == new)

  other_listed :
      (n k : ℕ) (q : Prediction) (t : Table Prediction) (ps : List Prediction)
      → n < new
      → (q.id ≡ k) × (k ≤ n)
      → lookup k t ≡ some q
      → (is_active u m q && not (q.id == new)) ≡ false
      → AreListed (is_active u m) t ps
      → OtherThan ps k
  other_listed n k q t [] l id found kept h = tt
  other_listed n k q t (r ∷ ps) l id found kept h = (
    elim (Bool-cases (r.id == k)) [
      | inl same ↦
          let here : some r ≡ some q =
            sym h.0.0 ∙ ap (λ i. lookup i t) ((==_iff r.id k).0 same) ∙ found in
          let active : is_active u m q ≡ true = ap (active_or u m) (sym here) ∙ h.0.1 in
          let old : (q.id == new) ≡ false = ground (arith, l, id.0, id.1) in
          cc (kept, ap (λ b. b && not (q.id == new)) active, ap not old)
      | inr other ↦ other
    ],
    other_listed n k q t ps l id found kept h.1,
  )

  listed_within :
      (n : ℕ) (t : Table Prediction) (ps : List Prediction)
      → IsKeyed n t
      → AreListed (is_active u m) t ps
      → All (λ r. r.id ≤ n) ps
  listed_within n t [] k h = tt
  listed_within n t (p ∷ ps) k h =
      ((lookup-IsKeyed n p.id p t k h.0.0).1, listed_within n t ps k h.1)

  -- The stakes of the superseded rows are released, and the rows are closed.
  IsRefundable-supersede :
      (n : ℕ) (w : Wallet) (t : Table Prediction) (ps : List Prediction)
      → IsKeyed n t
      → n < new
      → AreListed (is_active u m) t ps
      → IsRefundable n w t
      → IsRefundable n (release_stakes u ps w) (supersede u m new now t)
  IsRefundable-supersede n w t ps keyed l listed h =
      let s = release_stakes-Spares n u ps w (listed_within n t ps keyed listed) in
      record {
        unrefunded = λ k q found opened.
            let (before, kept) =
              kept_row (lookup k t) q (sym (lookup-supersede k t) ∙ found) opened in
            let r = h.unrefunded k q before opened in
            (
              s.rows q.user_id r.0,
              s.kept k
                  (other_listed n k q t ps l (lookup-IsKeyed n k q t keyed before) before kept
                    listed)
                  r.1,
            );
        numbered = s.numbered h.numbered;
      }

-- The first half of a revision.
pub active_positions-IsRefundable :
    (u m new now : ℕ) (db : Db)
    → IsKeyed db.last_prediction_id db.predictions
    → db.last_prediction_id < new
    → IsRefundable db.last_prediction_id db.wallet db.predictions
    → IsRefundable db.last_prediction_id
        (release_stakes u (active_positions u m db) db.wallet)
        (supersede u m new now db.predictions)
active_positions-IsRefundable u m new now db keyed l h =
    IsRefundable-supersede u m new now db.last_prediction_id db.wallet db.predictions _ keyed l
      (active_positions-AreListed u m db keyed) h
