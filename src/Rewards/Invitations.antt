-- ===== src/Rewards/Invitations.antt =====
-- An invited account pays its referrer once.
use gotrendlabs.Prelude.{
  ℕ, ◌≡◌, true, Option, none, some, List, [], ◌∷◌, ◌==◌, ◌||◌, not, if_either, refl, arith, ==_refl,
  inl, inr, Bool-cases,
}
use gotrendlabs.Rewards.Referrals.{
  Account, Referrals, is_invited, is_referral_eligible, site_referral_bonus, pay_referrer, award_to,
  award_referral_bonus,
}

-- A registration: the code, the invited user and the time.
pub record Registration : Type 0 where
  pub referral_code : ℕ
  pub invitee : ℕ
  pub now : ℕ

module _ (normalize upper : ℕ → ℕ) where
  -- Registrations, one after the other.
  pub register_each : List Registration → Referrals → Referrals
  register_each [] s = s
  register_each (r ∷ rs) s =
      register_each rs (award_referral_bonus normalize upper r.referral_code r.invitee r.now s).1

  award_to-is_invited :
      (k invitee bonus now : ℕ) (o : Option (ℕ × Account)) (s : Referrals)
      → is_invited k s.rewards ≡ true
      → is_invited k (award_to invitee bonus now o s).1.rewards ≡ true
  unfolding award_to pay_referrer
  award_to-is_invited k invitee bonus now none s h = h
  award_to-is_invited k invitee bonus now (some (referrer, account)) s h =
      if_either (λ (r : Option ℕ × Referrals). is_invited k r.1.rewards ≡ true)
        (not (is_referral_eligible account) || (referrer == invitee)) h
        (if_either (λ (r : Option ℕ × Referrals). is_invited k r.1.rewards ≡ true)
          (is_invited invitee s.rewards) h (ground arith))

  award-is_invited :
      (k code invitee now : ℕ) (s : Referrals)
      → is_invited k s.rewards ≡ true
      → is_invited k (award_referral_bonus normalize upper code invitee now s).1.rewards ≡ true
  unfolding award_referral_bonus
  award-is_invited k code invitee now s h =
      if_either (λ (r : Option ℕ × Referrals). is_invited k r.1.rewards ≡ true)
        ((normalize code == 0) || (site_referral_bonus s.referral_bonus_gtl == 0)) h
        (award_to-is_invited k invitee _ now _ s h)

  register_each-is_invited :
      (k : ℕ) (rs : List Registration) (s : Referrals)
      → is_invited k s.rewards ≡ true
      → is_invited k (register_each rs s).rewards ≡ true
  unfolding register_each
  register_each-is_invited k [] s h = h
  register_each-is_invited k (r ∷ rs) s h =
      register_each-is_invited k rs _ (award-is_invited k r.referral_code r.invitee r.now s h)

  -- What a paid bonus leaves.
  award_to-pays :
      (invitee bonus now : ℕ) (o : Option (ℕ × Account)) (s : Referrals) {entry : ℕ}
      → (award_to invitee bonus now o s).0 ≡ some entry
      → is_invited invitee (award_to invitee bonus now o s).1.rewards ≡ true
  unfolding award_to pay_referrer
  award_to-pays invitee bonus now none s e = cc
  award_to-pays invitee bonus now (some (referrer, account)) s e = ground (arith, ==_refl invitee)

  award-pays :
      (code invitee now : ℕ) (s : Referrals) {entry : ℕ}
      → (award_referral_bonus normalize upper code invitee now s).0 ≡ some entry
      → is_invited invitee (award_referral_bonus normalize upper code invitee now s).1.rewards
        ≡ true
  unfolding award_referral_bonus
  award-pays code invitee now s e =
      elim (Bool-cases ((normalize code == 0) || (site_referral_bonus s.referral_bonus_gtl == 0))) [
        | inl off ↦ cc (off, e)
        | inr on ↦ rw on (award_to-pays invitee _ now _ s (rw on at e))
      ]

  award_to-again :
      (invitee bonus now : ℕ) (o : Option (ℕ × Account)) (s : Referrals)
      → is_invited invitee s.rewards ≡ true
      → award_to invitee bonus now o s ≡ (none, s)
  unfolding award_to
  award_to-again invitee bonus now none s h = refl
  award_to-again invitee bonus now (some (referrer, account)) s h =
      if_either (λ r. r ≡ (none, s)) (not (is_referral_eligible account) || (referrer == invitee))
        refl (rw h refl)

  award-again :
      (code invitee now : ℕ) (s : Referrals)
      → is_invited invitee s.rewards ≡ true
      → award_referral_bonus normalize upper code invitee now s ≡ (none, s)
  unfolding award_referral_bonus
  award-again code invitee now s h =
      if_either (λ r. r ≡ (none, s))
        ((normalize code == 0) || (site_referral_bonus s.referral_bonus_gtl == 0)) refl
        (award_to-again invitee _ now _ s h)

  -- An account whose registration paid a bonus pays none again: after any further registrations, one
  -- after the other, another award for the same invited user writes nothing, whatever its code.
  pub award_referral_bonus-once :
      (code code' invitee now now' : ℕ) (rs : List Registration) (s : Referrals) {entry : ℕ}
      → (award_referral_bonus normalize upper code invitee now s).0 ≡ some entry
      → let later = register_each rs (award_referral_bonus normalize upper code invitee now s).1 in
        award_referral_bonus normalize upper code' invitee now' later ≡ (none, later)
  award_referral_bonus-once code code' invitee now now' rs s paid =
      award-again code' invitee now' _
        (register_each-is_invited invitee rs _ (award-pays code invitee now s paid))
