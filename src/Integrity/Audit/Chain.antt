-- ===== src/Integrity/Audit/Chain.antt =====
-- What the verification promises: every event follows the one before it, and is signed.
use gotrendlabs.Prelude.{
  ℕ, suc, ◌+◌, ◌≡◌, true, false, none, List, [], ◌∷◌, if◌then◌else◌, ok, ◌>>=◌, Ensures,
  Ensures-bind, Succeeds, Succeeds-map, arith, refl, sym, ap, ◌∙◌, ==_iff, Bool-cases, Option-cases,
  inl, inr, Ensures-map,
}
use mathlib.Core.Path.{subst}
use gotrendlabs.Prelude.Lists.{length}
use gotrendlabs.Integrity.Store.{Bytes, Event, IntegrityDb, Crypto, public_key_der_for}
use gotrendlabs.Integrity.Ledger.{head_after, ledger_event_is_valid}
use gotrendlabs.Integrity.Audit.{
  Scan, pass_event, fail_event, go_on, event_follows, scan_event, scan_events,
}

-- A scan that met no failure.
pub record IsClean (scan : Scan) : Type 0 where
  pub valid : scan.valid ≡ true
  pub none_invalid : scan.first_invalid_sequence ≡ none
  pub verified : suc scan.last_verified_sequence ≡ scan.expected_sequence
  pub hash : scan.last_verified_hash ≡ scan.previous_hash

-- A scan that went on over a number of events.
pub record IsAfter (scan : Scan) (events : List Event) (r : Scan) : Type 0 where
  pub clean : IsClean r
  pub expected : r.expected_sequence ≡ scan.expected_sequence + length events
  pub count : r.verified_event_count ≡ scan.verified_event_count + length events
  pub head :
      record { sequence = r.last_verified_sequence; event_hash = r.last_verified_hash }
      ≡ head_after
          (record { sequence = scan.last_verified_sequence; event_hash = scan.last_verified_hash })
          events

module _ (C : Crypto) (db : IntegrityDb) where
  -- An event stands at a place of the chain, and its key vouches for it.
  pub record Follows (n hash : ℕ) (event : Event) : Type 0 where
    pub key : Bytes
    pub known : public_key_der_for C db event.key_id ≡ ok key
    pub place : event.sequence ≡ n
    pub link : event.previous_event_hash ≡ hash
    pub signed : ledger_event_is_valid C event key ≡ true

  -- A chain from a sequence number and the hash before it.
  abbrev pub Chained : ℕ → ℕ → List Event → Type 0
  Chained n hash [] = Unit
  Chained n hash (event ∷ events) = Follows n hash event × Chained (suc n) event.event_hash events

  pub event_follows-Follows :
      (scan : Scan) (event : Event) (f : Follows scan.expected_sequence scan.previous_hash event)
      → event_follows C scan event f.key ≡ true
  unfolding event_follows
  event_follows-Follows scan event f =
      let p = (==_iff event.sequence scan.expected_sequence).1 f.place in
      let l = (==_iff event.previous_event_hash scan.previous_hash).1 f.link in
      let s = f.signed in ground arith

  pub Follows-event_follows :
      (scan : Scan) (event : Event) (key : Bytes)
      → public_key_der_for C db event.key_id ≡ ok key
      → event_follows C scan event key ≡ true
      → Follows scan.expected_sequence scan.previous_hash event
  unfolding event_follows
  Follows-event_follows scan event key k h = record {
    key = key;
    known = k;
    place = (==_iff _ _).0 (ground arith);
    link = (==_iff _ _).0 (ground arith);
    signed = ground arith;
  }

  -- One event that follows, in a clean scan.
  scan_event-clean :
      (scan : Scan) (event : Event) (key : Bytes)
      → event_follows C scan event key ≡ true
      → IsClean scan
      → scan_event C scan event key ≡ go_on event (pass_event none event scan)
  unfolding scan_event
  scan_event-clean scan event key t clean =
      ap
        (λ b.
          go_on event (
            if b then pass_event scan.first_invalid_sequence event scan else fail_event event scan))
        t
      ∙ ap (λ o. go_on event (pass_event o event scan)) clean.none_invalid

  scan_event-valid :
      (scan : Scan) (event : Event) (key : Bytes)
      → (scan_event C scan event key).valid ≡ true
      → (event_follows C scan event key ≡ true) × (scan.valid ≡ true)
  unfolding scan_event
  scan_event-valid scan event key h = elim (Bool-cases (event_follows C scan event key)) [
    | inl t ↦ elim (Option-cases scan.first_invalid_sequence) [
      | inl o ↦ (
        t,
        sym (ap (λ o. (pass_event o event scan).valid) o)
            ∙ sym (
                ap
                  (λ b.
                    (if b
                      then pass_event scan.first_invalid_sequence event scan
                      else fail_event event scan).valid)
                  t)
            ∙ h,
      )
      | inr o ↦ (
        t,
        sym (ap (λ o. (pass_event o event scan).valid) o.1)
            ∙ sym (
                ap
                  (λ b.
                    (if b
                      then pass_event scan.first_invalid_sequence event scan
                      else fail_event event scan).valid)
                  t)
            ∙ h,
      )
    ]
    | inr f ↦ absurd (cc)
  ]

  next_IsClean :
      (scan : Scan) (event : Event)
      → IsClean scan
      → IsClean (go_on event (pass_event none event scan))
  next_IsClean scan event clean = record {
    valid = clean.valid;
    none_invalid = clean.none_invalid;
    verified = omega arith;
    hash = refl;
  }

  IsAfter-cons :
      (scan : Scan) (event : Event) (events : List Event) (r : Scan)
      → event.sequence ≡ scan.expected_sequence
      → IsAfter (go_on event (pass_event none event scan)) events r
      → IsAfter scan (event ∷ events) r
  IsAfter-cons scan event events r place after = record {
    clean = after.clean;
    expected = omega (arith, after.expected);
    count = omega (arith, after.count);
    head = after.head;
  }

  pub scan_events-Chained :
      (events : List Event) (scan : Scan)
      → IsClean scan
      → Chained scan.expected_sequence scan.previous_hash events
      → Succeeds (IsAfter scan events) (scan_events C db events scan)
  unfolding scan_events
  scan_events-Chained [] scan clean chained = record {
    clean = clean;
    expected = omega arith;
    count = omega arith;
    head = refl;
  }
  scan_events-Chained (event ∷ events) scan clean chained =
      let f = chained.0 in
      let next = go_on event (pass_event none event scan) in
      let rest =
        scan_events-Chained events next (next_IsClean scan event clean)
          (subst (λ n. Chained n event.event_hash events) (omega (arith, f.place)) chained.1) in
      subst (Succeeds (IsAfter scan (event ∷ events)))
        (sym (
          ap (λ k. k >>= λ key. scan_events C db events (scan_event C scan event key)) f.known
          ∙ ap (scan_events C db events)
              (scan_event-clean scan event f.key (event_follows-Follows scan event f) clean)))
        (Succeeds-map (IsAfter next events) (IsAfter scan (event ∷ events))
          (scan_events C db events next) (λ r after. IsAfter-cons scan event events r f.place after)
          rest)

  -- A scan that has failed stays so.
  scan_events-failed :
      (events : List Event) (scan : Scan)
      → scan.valid ≡ false
      → Ensures (λ r. r.valid ≡ false) (scan_events C db events scan)
  unfolding scan_events
  scan_events-failed [] scan h = h
  scan_events-failed (event ∷ events) scan h =
      Ensures-bind (λ r. r.valid ≡ false) (public_key_der_for C db event.key_id)
        (λ key. scan_events C db events (scan_event C scan event key))
        (λ key known. elim (Bool-cases (scan_event C scan event key).valid) [
          | inl t ↦ absurd (ground (arith, scan_event-valid scan event key t))
          | inr f ↦ scan_events-failed events (scan_event C scan event key) f
        ])

  -- A scan that ends valid has met a chain.
  pub scan_events-valid :
      (events : List Event) (scan : Scan)
      → Ensures
          (λ r. r.valid ≡ true → Chained scan.expected_sequence scan.previous_hash events)
          (scan_events C db events scan)
  unfolding scan_events scan_event
  scan_events-valid [] scan = λ h. tt
  scan_events-valid (event ∷ events) scan =
      Ensures-bind
        (λ r. r.valid ≡ true → Chained scan.expected_sequence scan.previous_hash (event ∷ events))
        (public_key_der_for C db event.key_id)
        (λ key. scan_events C db events (scan_event C scan event key))
        (λ key known. elim (Bool-cases (scan_event C scan event key).valid) [
          | inl t ↦
              let f =
                Follows-event_follows scan event key known (scan_event-valid scan event key t).0 in
              Ensures-map
                (λ r. r.valid ≡ true → Chained (event.sequence + 1) event.event_hash events)
                (λ r.
                  r.valid ≡ true
                  → Chained scan.expected_sequence scan.previous_hash (event ∷ events))
                (scan_events C db events (scan_event C scan event key))
                (λ r chained h. (
                  f,
                  subst (λ n. Chained n event.event_hash events) (omega (arith, f.place))
                      (chained h),
                ))
                (scan_events-valid events (scan_event C scan event key))
          | inr f ↦
              Ensures-map (λ r. r.valid ≡ false)
                (λ r.
                  r.valid ≡ true
                  → Chained scan.expected_sequence scan.previous_hash (event ∷ events))
                (scan_events C db events (scan_event C scan event key)) (λ r bad h. absurd (cc))
                (scan_events-failed events (scan_event C scan event key) f)
        ])
