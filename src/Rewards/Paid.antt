-- ===== src/Rewards/Paid.antt =====
-- Every row of the queues is paid once, as it says; the wallets stay backed and solvent.
use gotrendlabs.Prelude.{
  ℕ, ◌+◌, ◌≡◌, Bool, true, false, Option, none, some, ◌==◌, ◌||◌, if◌then◌else◌, ok, arith, refl,
  sym, ap, ◌∙◌, inl, inr, ==_iff, Bool-cases,
}
use mathlib.Core.Option
use gotrendlabs.Prelude.Table.{Table, lookup, update, lookup-update}
use gotrendlabs.Wallet.{
  credit, EntryType, Reference, suggestion, feedback, wallet_recharge_request, available_case,
  locked_case,
}
use gotrendlabs.Wallet.Effects.{available_of}
use gotrendlabs.Db.Backing.{IsBacked}
use gotrendlabs.Rewards.{
  Item, Recharge, RechargeStatus, pending, approved, rejected, Desk, truthy, is_pending,
  or_not_found, credit_user,
}
use gotrendlabs.Rewards.Entries.{
  same_reference, paid, paid-record_wallet_entry, IsSolvent, record_wallet_entry-IsBacked,
  record_wallet_entry-IsSolvent, credit_fits,
}

-- What a row says that it was paid.
abbrev pub or_zero : Option ℕ → ℕ
or_zero none = 0
or_zero (some n) = n

abbrev pub reward_of : Option Item → ℕ
reward_of none = 0
reward_of (some row) = or_zero row.reward_gtl

abbrev pub granted : RechargeStatus → Option ℕ → ℕ
granted approved amount = or_zero amount
granted _ amount = 0

abbrev pub recharge_of : Option Recharge → ℕ
recharge_of none = 0
recharge_of (some row) = granted row.status row.amount_gtl

pub record IsSound (desk : Desk) : Type 0 where
  pub backed : IsBacked desk.db
  pub solvent : IsSolvent desk.db.wallet
  pub suggestions :
      (j : ℕ) → paid (suggestion j) desk.db.wallet.ledger ≡ reward_of (lookup j desk.suggestions)
  pub feedbacks :
      (j : ℕ) → paid (feedback j) desk.db.wallet.ledger ≡ reward_of (lookup j desk.feedbacks)
  pub recharges :
      (j : ℕ)
      → paid (wallet_recharge_request j) desk.db.wallet.ledger
        ≡ recharge_of (lookup j desk.recharges)

-- The rows that a payment leaves, and the sum of the payments.
module _ {V : Type 0} (amount_of : Option V → ℕ) (nothing : amount_of none ≡ 0) where
  pub paid_row :
      (id j amount before after : ℕ) (f : V → V) (row : V) (t : Table V)
      → lookup id t ≡ some row
      → amount_of (some row) ≡ 0
      → amount_of (some (f row)) ≡ amount
      → before ≡ amount_of (lookup j t)
      → after ≡ (if id == j then amount else 0) + before
      → after ≡ amount_of (lookup j (update id f t))
  paid_row id j amount before after f row t known zero set was now =
      let to = lookup-update id j f t in
      elim (Bool-cases (id == j)) [
        | inl same ↦
            let here : lookup j t ≡ some row =
              ap (λ k. lookup k t) (sym ((==_iff _ _).0 same)) ∙ known in
            now
            ∙ ap (λ b. (if b then amount else 0) + before) same
            ∙ omega (arith, was, ap amount_of here, zero)
            ∙ sym set
            ∙ sym (
                ap amount_of (
                  to
                  ∙ ap (λ b. if b then Option.map f (lookup j t) else lookup j t) same
                  ∙ ap (Option.map f) here))
        | inr other ↦
            now
            ∙ ap (λ b. (if b then amount else 0) + before) other
            ∙ omega (arith, was)
            ∙ sym (
                ap amount_of
                  (to ∙ ap (λ b. if b then Option.map f (lookup j t) else lookup j t) other))
      ]

pub truthy_zero : (o : Option ℕ) → truthy o ≡ false → or_zero o ≡ 0
truthy_zero none h = refl
truthy_zero (some n) h = ground arith

pub either_truthy : (a b : Bool) → (a || b) ≡ false → b ≡ false
either_truthy false b h = h
either_truthy true b h = cc

pub pending_zero : (s : RechargeStatus) (o : Option ℕ) → is_pending s ≡ true → granted s o ≡ 0
pending_zero pending o h = refl
pending_zero approved o h = cc
pending_zero rejected o h = cc

pub or_not_found-eq-ok : {V : Type 0} (o : Option V) (v : V) → or_not_found o ≡ ok v → o ≡ some v
or_not_found-eq-ok none v h = cc
or_not_found-eq-ok (some w) v h = cc

module _ (u : ℕ) (t : EntryType) (amount : ℕ) (ref : Reference) (staff : ℕ) (desk : Desk)
    (h : IsSound desk) where
  pub credited-IsBacked : IsBacked (credit_user u t amount ref staff desk.db)
  unfolding locked_case
  credited-IsBacked =
      record_wallet_entry-IsBacked u t amount credit ref (some staff) desk.db refl h.backed

  pub credited-IsSolvent : IsSolvent (credit_user u t amount ref staff desk.db).wallet
  unfolding available_case
  credited-IsSolvent =
      record_wallet_entry-IsSolvent u t amount credit ref (some staff) desk.db.wallet
        (credit_fits amount (available_of u desk.db.wallet) (h.solvent u)) h.solvent

  pub credited_paid :
      (r : Reference)
      → paid r (credit_user u t amount ref staff desk.db).wallet.ledger
        ≡ (if same_reference ref r then amount else 0) + paid r desk.db.wallet.ledger
  credited_paid r = paid-record_wallet_entry u t amount credit ref (some staff) r desk.db.wallet

  -- Payments for other rows leave a sum alone.
  pub credited_other :
      (r : Reference)
      → same_reference ref r ≡ false
      → paid r (credit_user u t amount ref staff desk.db).wallet.ledger
        ≡ paid r desk.db.wallet.ledger
  credited_other r other =
      credited_paid r
      ∙ ap (λ b. (if b then amount else 0) + paid r desk.db.wallet.ledger) other
      ∙ omega arith
