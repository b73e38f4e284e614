-- ===== src/Integrity/Commitments/Loop.antt =====
-- A new commitment in the loop of `verify_market_integrity_records`, wherever the query's order puts
-- it behind the user's other predictions.
use gotrendlabs.Prelude.{
  ℕ, ◌≡◌, ◌≢◌, Bool, true, false, not, ◌&&◌, Option, none, some, List, [], ◌∷◌, ◌++◌, ◌==◌, Result,
  ok, err, ◌>>=◌, refl, sym, ap, ◌∙◌, Bool-cases, inl, inr, ==_iff,
}
use gotrendlabs.Prelude.Lists.{All}
use gotrendlabs.Prelude.Table.{lookup}
use gotrendlabs.Db.{Prediction}
use gotrendlabs.Integrity.Store.{Bytes, IntegrityDb, Crypto, public_key_der_for}
use gotrendlabs.Integrity.CommitmentStore.{CommitmentPayload, Commitment, Definition, Environment}
use gotrendlabs.Integrity.Commitments.Checking.{
  check_with_key, check_commitment, Progress, no_progress, check_row, check_rows,
}

-- The rows of the query: predictions, with their commitments.
abbrev pub Row : Type 0
Row = Prediction × Option Commitment

bind-eq :
    {A B : Type 0} (m : Result A) (f g : A → Result B)
    → ((a : A) → f a ≡ g a)
    → (m >>= f) ≡ (m >>= g)
bind-eq (ok a) f g h = h a
bind-eq (err e) f g h = refl

bind_assoc :
    {A B D : Type 0} (m : Result A) (f : A → Result B) (g : B → Result D)
    → (m >>= f >>= g) ≡ (m >>= λ a. f a >>= g)
bind_assoc (ok a) f g = refl
bind_assoc (err e) f g = refl

bind-ok-eq :
    {A B D F : Type 0} (m : Result A) (f g : A → B) (k : B → Result D) (l : D → Result F)
    → ((a : A) → (k (f a) >>= l) ≡ (k (g a) >>= l))
    → (m >>= (λ a. ok (f a)) >>= k >>= l) ≡ (m >>= (λ a. ok (g a)) >>= k >>= l)
bind-ok-eq (ok a) f g k l h = h a
bind-ok-eq (err e) f g k l h = refl

and_true : (b : Bool) → (b && true) ≡ b
and_true true = refl
and_true false = refl

-- No commitment is missing or invalid.
abbrev pub accepts : Progress → Result Bool
accepts progress = ok (progress.commitments_valid && not progress.missing_commitment)

-- What the loop has found is the same, and so is the last commitment of each user but one.
record Agrees (user : ℕ) (s t : Progress) : Type 0 where
  valid : s.commitments_valid ≡ t.commitments_valid
  missing : s.missing_commitment ≡ t.missing_commitment
  others :
      (other : ℕ) → other ≢ user → lookup other s.previous_by_user ≡ lookup other t.previous_by_user

module _ (C : Crypto) (E : Environment) (commitment_json : CommitmentPayload → Bytes)
    (market_slug : ℕ) (definition : Option Definition) where
  abbrev pub loop : IntegrityDb → List Row → Progress → Result Progress
  loop = check_rows C E commitment_json market_slug definition

  abbrev step : IntegrityDb → Prediction → Option Commitment → Progress → Result Progress
  step = check_row C E commitment_json market_slug definition

  abbrev verdict_of : IntegrityDb → Prediction → Option Commitment → Commitment → Result Bool
  verdict_of db p previous c =
      check_commitment C E commitment_json p market_slug definition previous c db

  -- The verdict of the loop on the commitments of a market.
  unfoldable pub commitments_are_valid : IntegrityDb → List Row → Result Bool
  commitments_are_valid db rows = loop db rows no_progress >>= accepts

  abbrev advanced : Prediction → Commitment → Progress → Bool → Progress
  advanced p c progress valid = record progress {
    previous_by_user = (p.user_id, c) ∷ progress.previous_by_user;
    commitments_valid = progress.commitments_valid && valid;
  }

  check_rows-append :
      (db : IntegrityDb) (before rest : List Row) (s : Progress)
      → loop db (before ++ rest) s ≡ (loop db before s >>= loop db rest)
  unfolding check_rows
  check_rows-append db [] rest s = refl
  check_rows-append db ((p, o) ∷ before) rest s =
      bind-eq (step db p o s) (loop db (before ++ rest)) (λ t. loop db before t >>= loop db rest)
        (check_rows-append db before rest)
      ∙ sym (bind_assoc (step db p o s) (loop db before) (loop db rest))

  -- The keys are all that the loop reads of the ledger.
  module _ (db db' : IntegrityDb)
      (keys : (key_id : ℕ) → public_key_der_for C db key_id ≡ public_key_der_for C db' key_id) where
    step-keys :
        (p : Prediction) (o : Option Commitment) (s : Progress) → step db p o s ≡ step db' p o s
    unfolding check_commitment
    step-keys p none s = refl
    step-keys p (some c) s =
        let previous = lookup p.user_id s.previous_by_user in
        ap
          (λ key.
            check_with_key C E commitment_json p market_slug definition previous c key >>= λ valid.
            ok (advanced p c s valid))
          (keys c.key_id)

    check_rows-keys : (rows : List Row) (s : Progress) → loop db rows s ≡ loop db' rows s
    unfolding check_rows
    check_rows-keys [] s = refl
    check_rows-keys ((p, o) ∷ rows) s =
        bind-eq (step db p o s) (loop db rows) (loop db' rows) (check_rows-keys rows)
        ∙ ap (λ m. m >>= loop db' rows) (step-keys p o s)

  advanced-Agrees :
      (user : ℕ) (p : Prediction) (c : Commitment) (s t : Progress) (valid : Bool)
      → Agrees user s t
      → Agrees user (advanced p c s valid) (advanced p c t valid)
  unfolding lookup
  advanced-Agrees user p c s t valid h = record {
    valid = ap (λ b. b && valid) h.valid;
    missing = h.missing;
    others = λ other different. elim (Bool-cases (p.user_id == other)) [
      | inl same ↦ rw same refl
      | inr new ↦ rw new (h.others other different)
    ];
  }

  check_rows-Agrees :
      (user : ℕ) (db : IntegrityDb) (rows : List Row) (s t : Progress)
      → All (λ r. r.0.user_id ≢ user) rows
      → Agrees user s t
      → (loop db rows s >>= accepts) ≡ (loop db rows t >>= accepts)
  unfolding check_rows
  check_rows-Agrees user db [] s t others h =
      ap (λ b. ok (b && not s.missing_commitment)) h.valid
      ∙ ap (λ b. ok (t.commitments_valid && not b)) h.missing
  check_rows-Agrees user db ((p, none) ∷ rows) s t others h =
      check_rows-Agrees user db rows
        (record s { commitments_valid = false; missing_commitment = true })
        (record t { commitments_valid = false; missing_commitment = true }) others.1
        (record { valid = refl; missing = refl; others = h.others })
  check_rows-Agrees user db ((p, some c) ∷ rows) s t others h =
      bind-ok-eq (verdict_of db p (lookup p.user_id s.previous_by_user) c) (advanced p c s)
        (advanced p c t) (loop db rows) accepts
        (λ valid.
          check_rows-Agrees user db rows (advanced p c s valid) (advanced p c t valid) others.1
            (advanced-Agrees user p c s t valid h))
      ∙ ap
          (λ previous.
            verdict_of db p previous c
            >>= (λ valid. ok (advanced p c t valid))
            >>= loop db rows
            >>= accepts)
          (h.others p.user_id others.0)

  -- The progress after a valid commitment of the user.
  committed-Agrees :
      (p : Prediction) (c : Commitment) (s : Progress) → Agrees p.user_id (advanced p c s true) s
  unfolding lookup
  committed-Agrees p c s = record {
    valid = and_true s.commitments_valid;
    missing = refl;
    others = λ other different. elim (Bool-cases (p.user_id == other)) [
      | inl same ↦ elim (different (sym ((==_iff p.user_id other).0 same))) [ ]
      | inr new ↦ rw new refl
    ];
  }

  -- A commitment that the check accepts after the rows before it, followed by rows of other users
  -- only, leaves the verdict of the loop what it was, also when the ledger has grown since.
  pub check_rows-insert :
      (db db' : IntegrityDb) (before after : List Row) (p : Prediction) (c : Commitment)
      (s : Progress)
      → ((key_id : ℕ) → public_key_der_for C db key_id ≡ public_key_der_for C db' key_id)
      → loop db before no_progress ≡ ok s
      → verdict_of db' p (lookup p.user_id s.previous_by_user) c ≡ ok true
      → All (λ r. r.0.user_id ≢ p.user_id) after
      → commitments_are_valid db' (before ++ (p, some c) ∷ after)
        ≡ commitments_are_valid db (before ++ after)
  unfolding check_rows commitments_are_valid
  check_rows-insert db db' before after p c s keys run checked others =
      let here = sym (check_rows-keys db db' keys before no_progress) ∙ run in
      ap (λ m. m >>= accepts)
        (check_rows-append db' before ((p, some c) ∷ after) no_progress
          ∙ ap (λ m. m >>= loop db' ((p, some c) ∷ after)) here)
      ∙ ap (λ m. m >>= (λ valid. ok (advanced p c s valid)) >>= loop db' after >>= accepts) checked
      ∙ check_rows-Agrees p.user_id db' after (advanced p c s true) s others
          (committed-Agrees p c s)
      ∙ ap (λ m. m >>= accepts)
          (sym (check_rows-keys db db' keys after s)
            ∙ sym
                (check_rows-append db before after no_progress ∙ ap (λ m. m >>= loop db after) run))
