-- ===== src/Refunds/Rows.antt =====
-- That a cancellation can refund every open prediction, and what writes to the rows do to that.
use gotrendlabs.Prelude.{
  ℕ, suc, Option, none, ◌≤◌, ◌≡◌, true, false, Bool-cases, ==_iff, some, List, [], ◌∷◌, ◌++◌, ◌⊎◌,
  inl, inr, arith, ◌==◌, ◌∙◌, ap, sym, Bool, if◌then◌else◌,
}
use mathlib.Core.Option
use gotrendlabs.Prelude.Lists.{All}
use gotrendlabs.Prelude.Table.{Table, lookup, update, lookup-update}
use gotrendlabs.Wallet.{Wallet, prediction}
use gotrendlabs.Db.{Db, Prediction, is_open, open_predictions}
use gotrendlabs.Db.Backing.{IsKeyed, IsBacked}
use gotrendlabs.Lifecycle.Refund.{has_refund}
use gotrendlabs.Lifecycle.Refunding.{has_row, IsUnrefunded}
use gotrendlabs.Lifecycle.Pending.{IsPending, is_open_in, select-IsPending}
use gotrendlabs.Refunds.Entries.{AreNumbered, AreNumbered-mono, Spares, Unnamed}

-- With n predictions so far: the user of every open row has a balance row, no refund of the row was
-- recorded after its last lock, and the ledger knows of no later prediction.
pub record IsRefundable (n : ℕ) (w : Wallet) (t : Table Prediction) : Type 0 where
  pub unrefunded :
      (k : ℕ) (q : Prediction)
      → lookup k t ≡ some q
      → is_open q.status ≡ true
      → (has_row q.user_id w ≡ true) × (has_refund k w.ledger ≡ false)
  pub numbered : AreNumbered n w.last_id w.ledger

-- The invariant of the handlers that move credits.
pub record IsSafe (db : Db) : Type 0 where
  pub backed : IsBacked db
  pub refundable : IsRefundable db.last_prediction_id db.wallet db.predictions

-- Entries about no prediction change nothing.
pub IsRefundable-same :
    (n : ℕ) (w w' : Wallet) (t : Table Prediction)
    → Spares n (λ k. Unit {0}) w w'
    → IsRefundable n w t
    → IsRefundable n w' t
IsRefundable-same n w w' t s h = record {
  unrefunded = λ k q found opened.
      let u = h.unrefunded k q found opened in (s.rows q.user_id u.0, s.kept k tt u.1);
  numbered = s.numbered h.numbered;
}

-- What stands in a row that was written.
written_row :
    (k j : ℕ) (f : Prediction → Prediction) (q : Prediction) (t : Table Prediction)
    → (k == j) ≡ true
    → lookup j (update k f t) ≡ some q
    → Option.map f (lookup j t) ≡ some q
written_row k j f q t same found =
    ap (λ b. if b then Option.map f (lookup j t) else lookup j t) (sym same)
    ∙ sym (lookup-update k j f t)
    ∙ found

abbrev pub opened_or : Option Prediction → Bool
opened_or none = false
opened_or (some r) = is_open r.status

written_closed :
    (f : Prediction → Prediction) (q : Prediction)
    → ((p : Prediction) → is_open (f p).status ≡ false)
    → (o : Option Prediction) → Option.map f o ≡ some q
    → is_open q.status ≡ false
written_closed f q closes none e = cc
written_closed f q closes (some p) e = ap opened_or (sym e) ∙ closes p

module _ (n k : ℕ) (f : Prediction → Prediction) (w w' : Wallet) (t : Table Prediction)
    (s : Spares n (Unnamed (prediction k)) w w') (h : IsRefundable n w t) where
  others-IsUnrefunded :
      (j : ℕ) (q : Prediction)
      → (k == j) ≡ false
      → lookup j (update k f t) ≡ some q
      → is_open q.status ≡ true
      → (has_row q.user_id w' ≡ true) × (has_refund j w'.ledger ≡ false)
  others-IsUnrefunded j q other found opened =
      let before : lookup j t ≡ some q = ground (arith, lookup-update k j f t) in
      let u = h.unrefunded j q before opened in (s.rows q.user_id u.0, s.kept j other u.1)

  -- A row is closed, with entries about it alone.
  pub IsRefundable-close :
      ((q : Prediction) → is_open (f q).status ≡ false) → IsRefundable n w' (update k f t)
  IsRefundable-close closes = record {
    unrefunded = λ j q found opened. elim (Bool-cases (k == j)) [
      | inl same ↦
          cc (written_closed f q closes (lookup j t) (written_row k j f q t same found), opened)
      | inr other ↦ others-IsUnrefunded j q other found opened
    ];
    numbered = s.numbered h.numbered;
  }

  -- A row is opened, its stake locked by the last of the entries about it.
  pub IsRefundable-reopen :
      (p : Prediction)
      → lookup k t ≡ some p
      → (f p).user_id ≡ p.user_id
      → has_row p.user_id w' ≡ true
      → has_refund k w'.ledger ≡ false
      → IsRefundable n w' (update k f t)
  IsRefundable-reopen p there same_user row unrefunded = record {
    unrefunded = λ j q found opened. elim (Bool-cases (k == j)) [
      | inl same ↦
          let key = (==_iff k j).0 same in
          let here : lookup j t ≡ some p = ap (λ i. lookup i t) (sym key) ∙ there in
          let new : f p ≡ q = cc (written_row k j f q t same found, here) in
          (
            ap (λ u. has_row u w') (ap (λ r. r.user_id) (sym new) ∙ same_user) ∙ row,
            ap (λ i. has_refund i w'.ledger) (sym key) ∙ unrefunded,
          )
      | inr other ↦ others-IsUnrefunded j q other found opened
    ];
    numbered = s.numbered h.numbered;
  }

-- A row is found under its own id, which was given out.
pub lookup-IsKeyed :
    (n j : ℕ) (q : Prediction) (t : Table Prediction)
    → IsKeyed n t
    → lookup j t ≡ some q
    → (q.id ≡ j) × (j ≤ n)
unfolding lookup
lookup-IsKeyed n j q [] h e = cc
lookup-IsKeyed n j q ((k, p) ∷ t) h e = ground (arith, lookup-IsKeyed n j q t h.3)

lookup-append_cases :
    (j k : ℕ) (p q : Prediction) (t : Table Prediction)
    → lookup j (t ++ (k, p) ∷ []) ≡ some q
    → (lookup j t ≡ some q) ⊎ (((k == j) ≡ true) × (p ≡ q))
unfolding lookup
lookup-append_cases j k p q [] e = ground arith
lookup-append_cases j k p q ((i, r) ∷ t) e = ground (arith, lookup-append_cases j k p q t)

-- A row is appended under the next id, its stake locked by the last of the entries about it.
pub IsRefundable-append :
    (n : ℕ) (p : Prediction) (w w' : Wallet) (t : Table Prediction)
    → IsKeyed n t
    → p.id ≡ suc n
    → Spares p.id (Unnamed (prediction p.id)) w w'
    → has_row p.user_id w' ≡ true
    → has_refund p.id w'.ledger ≡ false
    → IsRefundable n w t
    → IsRefundable p.id w' (t ++ (p.id, p) ∷ [])
IsRefundable-append n p w w' t keyed next s row unrefunded h = record {
  unrefunded = λ j q found opened. elim (lookup-append_cases j p.id p q t found) [
    | inl before ↦
        let low = (lookup-IsKeyed n j q t keyed before).1 in
        let other : (p.id == j) ≡ false = ground arith in
        let u = h.unrefunded j q before opened in (s.rows q.user_id u.0, s.kept j other u.1)
    | inr (same, new) ↦ (
      ap (λ (r : Prediction). has_row r.user_id w') (sym new) ∙ row,
      ap (λ i. has_refund i w'.ledger) (sym ((==_iff p.id j).0 same)) ∙ unrefunded,
    )
  ];
  numbered =
      let low : n ≤ p.id = omega (arith, next) in
      let last : w.last_id ≤ w.last_id = omega arith in
      s.numbered (AreNumbered-mono n p.id w.last_id w.last_id w.ledger low last h.numbered);
}

IsUnrefunded-rows :
    (test : Prediction → Bool) (n : ℕ) (w : Wallet) (t : Table Prediction) (ps : List Prediction)
    → ((p : Prediction) → test p ≡ true → is_open p.status ≡ true)
    → IsRefundable n w t
    → IsPending test t ps
    → All (IsUnrefunded w) ps
IsUnrefunded-rows test n w t [] opened h pending = tt
IsUnrefunded-rows test n w t (p ∷ ps) opened h pending = (
  h.unrefunded p.id p pending.0 (opened p pending.1),
  IsUnrefunded-rows test n w t ps opened h pending.3,
)

-- What cancellation asks of the open predictions of a market.
pub IsSafe-IsUnrefunded :
    (m : ℕ) (db : Db) → IsSafe db → All (IsUnrefunded db.wallet) (open_predictions m db)
unfolding open_predictions
IsSafe-IsUnrefunded m db h =
    IsUnrefunded-rows (is_open_in m) db.last_prediction_id db.wallet db.predictions _
      (λ p e. ground arith) h.refundable
      (select-IsPending (is_open_in m) db.last_prediction_id db.predictions h.backed.keyed)
