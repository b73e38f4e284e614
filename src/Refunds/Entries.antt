-- ===== src/Refunds/Entries.antt =====
-- What new ledger entries do to the refunds that were recorded.
use gotrendlabs.Prelude.{
  ℕ, suc, ◌≤◌, ◌<◌, ◌≡◌, true, false, Option, List, [], ◌∷◌, arith, ◌==◌, max, refl, ◌∙◌, ap,
  if_either, ==_refl, if◌then◌else◌, ◌||◌,
}
use gotrendlabs.Prelude.Lists.{any, All}
use gotrendlabs.Wallet.{
  Wallet, LedgerEntry, Direction, lock, EntryType, Reference, prediction, auth_register,
  referral_reward, admin_user_adjustment, suggestion, feedback, wallet_recharge_request,
  record_wallet_entry, insert_entry, ensure_wallet_balance,
}
use gotrendlabs.Wallet.Consistency.{
  ledger-ensure_wallet_balance, last_id-ensure_wallet_balance, lookup-ensure_wallet_balance,
  lookup-record_wallet_entry,
}
use gotrendlabs.Lifecycle.Refund.{
  refers_to, is_refund_after, last_lock, has_refund, is_lock, is_release,
}
use gotrendlabs.Lifecycle.Refunding.{is_some, has_row, has_refund-cons}

-- A reference to a prediction is to one of the first n.
abbrev pub IsWithin : ℕ → Reference → Type 0
IsWithin n (prediction k) = k ≤ n
IsWithin n _ = Unit

-- No entry has an id above the last one given out, or is about a prediction above n.
abbrev pub AreNumbered : ℕ → ℕ → List LedgerEntry → Type 0
AreNumbered n last es = All (λ e. (e.id ≤ last) × IsWithin n e.reference) es

pub IsWithin-mono : (n m : ℕ) (r : Reference) → n ≤ m → IsWithin n r → IsWithin m r
IsWithin-mono n m (prediction k) le h = omega (arith, le, h)
IsWithin-mono n m (auth_register k) le h = tt
IsWithin-mono n m (referral_reward k) le h = tt
IsWithin-mono n m (admin_user_adjustment k) le h = tt
IsWithin-mono n m (suggestion k) le h = tt
IsWithin-mono n m (feedback k) le h = tt
IsWithin-mono n m (wallet_recharge_request k) le h = tt

pub AreNumbered-mono :
    (n m last next : ℕ) (es : List LedgerEntry)
    → n ≤ m
    → last ≤ next
    → AreNumbered n last es
    → AreNumbered m next es
AreNumbered-mono n m last next [] le l h = tt
AreNumbered-mono n m last next (e ∷ es) le l h =
    let low : e.id ≤ next = omega (arith, l, h.0.0) in
    ((low, IsWithin-mono n m e.reference le h.0.1), AreNumbered-mono n m last next es le l h.1)

-- Room for one more entry.
pub AreNumbered-next :
    (n last : ℕ) (es : List LedgerEntry) → AreNumbered n last es → AreNumbered n (suc last) es
AreNumbered-next n last es h =
    let same : n ≤ n = omega arith in
    let le : last ≤ suc last = omega arith in AreNumbered-mono n n last (suc last) es same le h

within-other : (n k : ℕ) (r : Reference) → IsWithin n r → n < k → refers_to k r ≡ false
within-other n k (prediction j) h l = ground arith
within-other n k (auth_register j) h l = refl
within-other n k (referral_reward j) h l = refl
within-other n k (admin_user_adjustment j) h l = refl
within-other n k (suggestion j) h l = refl
within-other n k (feedback j) h l = refl
within-other n k (wallet_recharge_request j) h l = refl

any_fresh :
    (n last k after : ℕ) (es : List LedgerEntry)
    → AreNumbered n last es
    → n < k
    → any (is_refund_after k after) es ≡ false
any_fresh n last k after [] h l = refl
any_fresh n last k after (e ∷ es) h l =
    rw (within-other n k e.reference h.0.1 l) (any_fresh n last k after es h.1 l)

-- A prediction whose id was not given out yet has no refund.
pub has_refund_fresh :
    (n last k : ℕ) (es : List LedgerEntry) → AreNumbered n last es → n < k → has_refund k es ≡ false
unfolding has_refund
has_refund_fresh n last k es h l = any_fresh n last k (last_lock k es) es h l

any_late :
    (n last k after : ℕ) (es : List LedgerEntry)
    → AreNumbered n last es
    → last ≤ after
    → any (is_refund_after k after) es ≡ false
any_late n last k after [] h l = refl
any_late n last k after (e ∷ es) h l = ground (arith, h.0.0, any_late n last k after es h.1 l)

last_lock-lock :
    (k : ℕ) (e : LedgerEntry) (es : List LedgerEntry)
    → refers_to k e.reference ≡ true
    → e.direction ≡ lock
    → last_lock k (e ∷ es) ≡ max e.id (last_lock k es)
unfolding last_lock
last_lock-lock k e es about locks = rw (about, ap is_lock locks) refl

lock_no_refund :
    (k after : ℕ) (e : LedgerEntry) → e.direction ≡ lock → is_refund_after k after e ≡ false
lock_no_refund k after e locks = rw (ap is_release locks) (ground arith)

-- A lock of the prediction as the newest entry puts all refunds before it.
pub has_refund-lock :
    (n last k : ℕ) (e : LedgerEntry) (es : List LedgerEntry)
    → AreNumbered n last es
    → last < e.id
    → refers_to k e.reference ≡ true
    → e.direction ≡ lock
    → has_refund k (e ∷ es) ≡ false
unfolding has_refund
has_refund-lock n last k e es h l about locks =
    let newest = max e.id (last_lock k es) in
    let late : last ≤ newest = omega (arith, l) in
    ap (λ b. b || any (is_refund_after k (last_lock k (e ∷ es))) es)
      (lock_no_refund k (last_lock k (e ∷ es)) e locks)
    ∙ ap (λ a. any (is_refund_after k a) es) (last_lock-lock k e es about locks)
    ∙ any_late n last k newest es h late

-- The wallet gets entries that leave the predictions in S as refundable as they were, while n is the
-- last prediction.
pub record Spares (n : ℕ) (S : ℕ → Type 0) (w w' : Wallet) : Type 0 where
  pub rows : (u : ℕ) → has_row u w ≡ true → has_row u w' ≡ true
  pub numbered : AreNumbered n w.last_id w.ledger → AreNumbered n w'.last_id w'.ledger
  pub kept : (k : ℕ) → S k → has_refund k w.ledger ≡ false → has_refund k w'.ledger ≡ false

pub Spares-refl : (n : ℕ) (S : ℕ → Type 0) (w : Wallet) → Spares n S w w
Spares-refl n S w = record { rows = λ u r. r; numbered = λ h. h; kept = λ k s r. r }

pub Spares-trans :
    {n : ℕ} {S : ℕ → Type 0} {w w1 w2 : Wallet}
    → Spares n S w w1
    → Spares n S w1 w2
    → Spares n S w w2
Spares-trans h k = record {
  rows = λ u r. k.rows u (h.rows u r);
  numbered = λ r. k.numbered (h.numbered r);
  kept = λ i s r. k.kept i s (h.kept i s r);
}

pub Spares-weaken :
    {n : ℕ} {S T : ℕ → Type 0} {w w' : Wallet}
    → ((k : ℕ) → T k → S k)
    → Spares n S w w'
    → Spares n T w w'
Spares-weaken f h = record {
  rows = h.rows;
  numbered = h.numbered;
  kept = λ k s r. h.kept k (f k s) r;
}

-- The predictions that a reference is not to.
abbrev pub Unnamed : Reference → ℕ → Type 0
Unnamed r k = refers_to k r ≡ false

pub ensure-Spares :
    (n : ℕ) (S : ℕ → Type 0) (u : ℕ) (w : Wallet) → Spares n S w (ensure_wallet_balance u w)
ensure-Spares n S u w = record {
  rows = λ j r.
      ap is_some (lookup-ensure_wallet_balance u j w)
      ∙ if_either (λ o. is_some o ≡ true) (u == j) refl r;
  numbered = λ h. rw (ledger-ensure_wallet_balance u w, last_id-ensure_wallet_balance u w) h;
  kept = λ k s r. ap (has_refund k) (ledger-ensure_wallet_balance u w) ∙ r;
}

module _ (u : ℕ) (t : EntryType) (amount : ℕ) (d : Direction) (r : Reference) (by : Option ℕ)
    (w : Wallet) where
  -- Whoever gets an entry has a balance row, and no row goes away.
  pub has_row-record :
      (j : ℕ)
      → has_row j (record_wallet_entry u t amount d r by w) ≡ (if u == j then true else has_row j w)
  has_row-record j = ap is_some (lookup-record_wallet_entry u t amount d r by w j) ∙ (ground arith)

  AreNumbered-record :
      (n : ℕ)
      → IsWithin n r
      → AreNumbered n w.last_id w.ledger
      → AreNumbered n
          (record_wallet_entry u t amount d r by w).last_id
          (record_wallet_entry u t amount d r by w).ledger
  unfolding record_wallet_entry insert_entry
  AreNumbered-record n within h =
      let v = ensure_wallet_balance u w in
      let le : suc v.last_id ≤ suc v.last_id = omega arith in
      (
        (le, within),
        AreNumbered-next n v.last_id v.ledger ((ensure-Spares n (λ k. Unit) u w).numbered h),
      )

  has_refund-record :
      (k : ℕ)
      → refers_to k r ≡ false
      → has_refund k (record_wallet_entry u t amount d r by w).ledger ≡ has_refund k w.ledger
  unfolding record_wallet_entry insert_entry
  has_refund-record k other =
      has_refund-cons k _ _ other ∙ ap (has_refund k) (ledger-ensure_wallet_balance u w)

  -- An entry spares every prediction that it is not about.
  pub record-Spares :
      (n : ℕ) → IsWithin n r → Spares n (Unnamed r) w (record_wallet_entry u t amount d r by w)
  record-Spares n within = record {
    rows = λ j row. has_row-record j ∙ if_either (λ b. b ≡ true) (u == j) refl row;
    numbered = AreNumbered-record n within;
    kept = λ k other none. has_refund-record k other ∙ none;
  }

-- After a lock the prediction has no refund.
pub has_refund-record_lock :
    (n k u : ℕ) (t : EntryType) (amount : ℕ) (by : Option ℕ) (w : Wallet)
    → AreNumbered n w.last_id w.ledger
    → has_refund k (record_wallet_entry u t amount lock (prediction k) by w).ledger ≡ false
unfolding record_wallet_entry insert_entry
has_refund-record_lock n k u t amount by w h =
    has_refund-lock n w.last_id k _ _ (rw ledger-ensure_wallet_balance h)
      (rw last_id-ensure_wallet_balance (omega arith)) (==_refl k) refl
