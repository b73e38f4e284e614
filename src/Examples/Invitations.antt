-- ===== src/Examples/Invitations.antt =====
-- An account that was invited with the code 77 of the user 5.
use gotrendlabs.Lifecycle.Engine.{ensure_user_core}
use gotrendlabs.Prelude.{ℕ, ◌≡◌, true, false, none, some, List, [], ◌∷◌, refl}
use gotrendlabs.Prelude.Table.{lookup, update, insert_new}
use gotrendlabs.Wallet.{record_wallet_entry, ensure_wallet_balance}
use gotrendlabs.Rewards.Referrals.{Referrals, referrer_of, award_referral_bonus}
use gotrendlabs.Rewards.Invitations.{Registration, register_each, award_referral_bonus-once}
use gotrendlabs.Examples.{started}

abbrev as_written : ℕ → ℕ
as_written code = code

abbrev referrals : Referrals
referrals = record {
  db = started;
  codes = record { referrer_id = 5; code = 77 } ∷ [];
  accounts = (5, record { is_active = true; status_is_active = true; is_bot = false }) ∷ [];
  rewards = [];
  last_reward_id = 0;
  referral_bonus_gtl = none;
}

abbrev registrations : List Registration
registrations = record { referral_code = 77; invitee = 8; now = 20 } ∷ []

bonus_paid : (award_referral_bonus as_written as_written 77 6 10 referrals).0 ≡ some 2
unfolding award_referral_bonus referrer_of lookup record_wallet_entry ensure_user_core update
    insert_new ensure_wallet_balance
bonus_paid = refl

award_referral_bonus-once_example :
    let later =
      register_each as_written as_written registrations
        (award_referral_bonus as_written as_written 77 6 10 referrals).1 in
    award_referral_bonus as_written as_written 77 6 30 later ≡ (none, later)
award_referral_bonus-once_example =
    award_referral_bonus-once as_written as_written 77 77 6 10 30 registrations referrals bonus_paid
