-- ===== src/Rewards/Referrals.antt =====
-- `_award_referral_bonus` of `apps/api/backend_api/main.py`: the bonus for an invitation, at the
-- registration of the invited user. Normalising a code and its upper case are parameters; codes and
-- times are numbers, 0 the empty code.
use gotrendlabs.Prelude.{
  ℕ, suc, Bool, not, ◌&&◌, ◌||◌, Option, none, some, List, [], ◌∷◌, ◌==◌, if◌then◌else◌,
}
use gotrendlabs.Prelude.Lists.{any}
use gotrendlabs.Prelude.Table.{Table, lookup}
use gotrendlabs.Wallet.{credit, reward_referral, referral_reward, record_wallet_entry}
use gotrendlabs.Db.{Db, with_wallet}

-- A row of gotrendlabs_referral_codes.
pub record ReferralCode : Type 0 where
  pub referrer_id : ℕ
  pub code : ℕ

-- The columns of the referrer's account that are read.
pub record Account : Type 0 where
  pub is_active : Bool
  pub status_is_active : Bool
  pub is_bot : Bool

-- A row of gotrendlabs_referral_rewards.
pub record ReferralReward : Type 0 where
  pub id : ℕ
  pub referrer_id : ℕ
  pub invitee_id : ℕ
  pub reward_gtl : ℕ
  pub ledger_entry_id : Option ℕ
  pub rewarded_at : Option ℕ

pub record Referrals : Type 0 where
  pub db : Db
  pub codes : List ReferralCode
  pub accounts : Table Account
  pub rewards : List ReferralReward
  pub last_reward_id : ℕ
  pub referral_bonus_gtl : Option ℕ

-- `_site_referral_bonus`
abbrev pub site_referral_bonus : Option ℕ → ℕ
site_referral_bonus none = 200
site_referral_bonus (some bonus) = bonus

-- `_is_referral_eligible_user`
abbrev pub is_referral_eligible : Account → Bool
is_referral_eligible a = a.status_is_active && not a.is_bot

abbrev active_account : ℕ → Option Account → Option (ℕ × Account)
active_account referrer none = none
active_account referrer (some a) =
    if a.is_active && a.status_is_active then some (referrer, a) else none

-- The SELECT of the referrer; a code is unique.
unfoldable pub referrer_of : (ℕ → ℕ) → ℕ → List ReferralCode → Table Account → Option (ℕ × Account)
referrer_of upper code [] accounts = none
referrer_of upper code (c ∷ cs) accounts =
    let rest = referrer_of upper code cs accounts in
    if upper c.code == code
    then active_account c.referrer_id (lookup c.referrer_id accounts)
    else rest

-- A reward row of the invited user.
abbrev pub is_invited : ℕ → List ReferralReward → Bool
is_invited invitee rewards = any (λ r. r.invitee_id == invitee) rewards

-- The INSERT, the credit and the UPDATE of the row.
unfoldable pub pay_referrer : ℕ → ℕ → ℕ → ℕ → Referrals → Option ℕ × Referrals
pay_referrer referrer invitee bonus now s =
    let id = suc s.last_reward_id in
    let db =
      with_wallet
        (record_wallet_entry referrer reward_referral bonus credit (referral_reward id) none)
        s.db in
    (
      some db.wallet.last_id,
      record s {
        db = db;
        rewards =
            record {
              id = id;
              referrer_id = referrer;
              invitee_id = invitee;
              reward_gtl = bonus;
              ledger_entry_id = some db.wallet.last_id;
              rewarded_at = some now;
            }
            ∷ s.rewards;
        last_reward_id = id;
      },
    )

unfoldable pub award_to : ℕ → ℕ → ℕ → Option (ℕ × Account) → Referrals → Option ℕ × Referrals
unfolding pay_referrer
award_to invitee bonus now none s = (none, s)
award_to invitee bonus now (some (referrer, account)) s =
    if not (is_referral_eligible account) || (referrer == invitee)
    then (none, s)
    else if is_invited invitee s.rewards
    then (none, s)
    else pay_referrer referrer invitee bonus now s

-- `_award_referral_bonus`
unfoldable pub award_referral_bonus :
    (ℕ → ℕ) → (ℕ → ℕ) → ℕ → ℕ → ℕ → Referrals → Option ℕ × Referrals
unfolding award_to referrer_of
award_referral_bonus normalize upper referral_code invitee now s =
    let code = normalize referral_code in
    let bonus = site_referral_bonus s.referral_bonus_gtl in
    if (code == 0) || (bonus == 0)
    then (none, s)
    else award_to invitee bonus now (referrer_of upper code s.codes s.accounts) s
