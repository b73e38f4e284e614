-- ===== src/Integrity/Audit/Segments.antt =====
-- The verification of a range of the ledger finds exactly the chains.
use mathlib.Core.Path.{subst}
use gotrendlabs.Prelude.{
  ℕ, suc, ◌+◌, ◌≤◌, ◌<◌, ◌≡◌, ◌↔◌, true, none, List, [], ◌∷◌, ok, ◌>>=◌, Ensures, Ensures-bind,
  ensured, Succeeds, Succeeds-bind, Succeeds-map, Ensures-Succeeds, arith, refl, sym, ap, ◌∙◌,
}
use gotrendlabs.Prelude.Lists.{length}
use gotrendlabs.Integrity.Store.{Event, IntegrityDb, Crypto}
use gotrendlabs.Integrity.Ledger.{Head, head_after, ledger_head}
use gotrendlabs.Integrity.Audit.{
  Scan, new_scan, scan_events, check_end, segment, verify_segment, verify_integrity_ledger_chain,
}
use gotrendlabs.Integrity.Audit.Chain.{
  Chained, IsClean, IsAfter, scan_events-Chained, scan_events-valid,
}

-- Rows with growing sequences above a number.
abbrev pub IsAscending : ℕ → List Event → Type 0
IsAscending n [] = Unit
IsAscending n (event ∷ events) = (n < event.sequence) × IsAscending event.sequence events

pub head_IsLast :
    (events : List Event) (head : Head)
    → IsAscending head.sequence events
    → head.sequence ≤ (head_after head events).sequence
head_IsLast [] head h = omega arith
head_IsLast (event ∷ events) head h = omega (
  arith,
  h.0,
  head_IsLast events (record { sequence = event.sequence; event_hash = event.event_hash }) h.1,
)

-- A range that holds every row is all of them.
pub segment-all :
    (events : List Event) (start through : ℕ) (head : Head)
    → start ≤ suc head.sequence
    → IsAscending head.sequence events
    → (head_after head events).sequence ≤ through
    → segment start through events ≡ events
unfolding segment
segment-all [] start through head s h e = refl
segment-all (event ∷ events) start through head s h e =
    let next : Head = record { sequence = event.sequence; event_hash = event.event_hash } in
    let last = head_IsLast events next h.1 in
    let lower = h.0 in
    let rest = segment-all events start through next (omega (arith, h.0)) h.1 e in ground arith

-- The sequence of the last event of a chain.
pub Chained-head :
    (C : Crypto) (db : IntegrityDb) (events : List Event) (n : ℕ) (head : Head)
    → suc head.sequence ≡ n
    → Chained C db n head.event_hash events
    → suc (head_after head events).sequence ≡ n + length events
Chained-head C db [] n head h chained = omega arith
Chained-head C db (event ∷ events) n head h chained =
    let rest =
      Chained-head C db events (suc n)
        (record { sequence = event.sequence; event_hash = event.event_hash })
        (ap suc chained.0.place) chained.1 in
    omega (arith, rest)

pub Chained-IsAscending :
    (C : Crypto) (db : IntegrityDb) (events : List Event) (n hash : ℕ)
    → Chained C db (suc n) hash events
    → IsAscending n events
Chained-IsAscending C db [] n hash chained = tt
Chained-IsAscending C db (event ∷ events) n hash chained =
    let place = chained.0.place in
    (
      omega (arith, place),
      subst (λ k. IsAscending k events) (sym place)
          (Chained-IsAscending C db events (suc n) event.event_hash chained.1),
    )

new_scan-IsClean : (n hash : ℕ) → IsClean (new_scan (suc n) hash)
unfolding new_scan
new_scan-IsClean n hash = record {
  valid = refl;
  none_invalid = refl;
  verified = omega arith;
  hash = refl;
}

check_end-valid :
    (through : ℕ) (scan : Scan) → (check_end through scan).valid ≡ true → scan.valid ≡ true
unfolding check_end
check_end-valid through scan h = ground arith

check_end-past :
    (through : ℕ) (scan : Scan)
    → suc through ≡ scan.expected_sequence
    → check_end through scan ≡ scan
unfolding check_end
check_end-past through scan h = ground arith

module _ (C : Crypto) (db : IntegrityDb) where
  -- What the report of a chain says.
  pub record IsVerified (n hash : ℕ) (events : List Event) (r : Scan) : Type 0 where
    pub valid : r.valid ≡ true
    pub none_invalid : r.first_invalid_sequence ≡ none
    pub count : r.verified_event_count ≡ length events
    pub head :
        record { sequence = r.last_verified_sequence; event_hash = r.last_verified_hash }
        ≡ head_after (record { sequence = n; event_hash = hash }) events

  -- The verification of the rows after a number, up to the last of them.
  pub verify_segment-Chained :
      (n through hash : ℕ) (events : List Event)
      → segment (suc n) through db.events ≡ events
      → suc through ≡ suc n + length events
      → Chained C db (suc n) hash events
      → Succeeds (IsVerified n hash events) (verify_segment C db (suc n) through hash)
  unfolding verify_segment new_scan
  verify_segment-Chained n through hash events rows size chained =
      subst
        (λ l.
          Succeeds (IsVerified n hash events)
            (scan_events C db l (new_scan (suc n) hash) >>= λ scan. ok (check_end through scan)))
        (sym rows)
        (Succeeds-bind (IsAfter (new_scan (suc n) hash) events) (IsVerified n hash events)
          (scan_events C db events (new_scan (suc n) hash)) (λ scan. ok (check_end through scan))
          (scan_events-Chained C db events (new_scan (suc n) hash) (new_scan-IsClean n hash)
            chained)
          (λ r after.
            subst (IsVerified n hash events)
              (sym (check_end-past through r (size ∙ sym after.expected)))
              (record {
                valid = after.clean.valid;
                none_invalid = after.clean.none_invalid;
                count = omega (arith, after.count);
                head =
                    after.head
                    ∙ ap (λ k. head_after (record { sequence = k; event_hash = hash }) events)
                        (omega arith);
              })))

  -- A verification that passes has met a chain.
  pub verify_segment-valid :
      (n through hash : ℕ)
      → Ensures
          (λ r. r.valid ≡ true → Chained C db n hash (segment n through db.events))
          (verify_segment C db n through hash)
  unfolding verify_segment new_scan
  verify_segment-valid n through hash =
      let events = segment n through db.events in
      let P = λ (r : Scan). r.valid ≡ true → Chained C db n hash events in
      Ensures-bind P (scan_events C db events (new_scan n hash))
        (λ scan. ok (check_end through scan))
        (λ r e h.
          ensured P (scan_events C db events (new_scan n hash))
            (scan_events-valid C db events (new_scan n hash)) e (check_end-valid through r h))

  -- The report is valid exactly when the rows of the range are a chain that reaches its end.
  pub verify_segment_iff :
      (n through hash : ℕ) (events : List Event)
      → segment (suc n) through db.events ≡ events
      → (Chained C db (suc n) hash events → suc through ≡ suc n + length events)
      → Succeeds (λ r. r.valid ≡ true) (verify_segment C db (suc n) through hash)
        ↔ Chained C db (suc n) hash events
  verify_segment_iff n through hash events rows size = (
    λ passed. subst (Chained C db (suc n) hash) rows (
        Ensures-Succeeds (λ r. r.valid ≡ true)
          (Chained C db (suc n) hash (segment (suc n) through db.events))
          (verify_segment C db (suc n) through hash) (verify_segment-valid (suc n) through hash)
          passed),
    λ chained.
        Succeeds-map (IsVerified n hash events) (λ r. r.valid ≡ true)
          (verify_segment C db (suc n) through hash) (λ r v. v.valid)
          (verify_segment-Chained n through hash events rows (size chained) chained),
  )

-- The verification of the whole ledger, whose rows the database holds in the order of their positive
-- sequences, succeeds and reports a valid ledger exactly when the events are a chain that starts at 1
-- with no previous hash.
pub verify_integrity_ledger_chain-Chained :
    (C : Crypto) (db : IntegrityDb)
    → IsAscending 0 db.events
    → Succeeds (λ r. r.valid ≡ true) (verify_integrity_ledger_chain C db)
      ↔ Chained C db 1 0 db.events
unfolding verify_integrity_ledger_chain ledger_head
verify_integrity_ledger_chain-Chained C db ascending =
    let start : Head = record { sequence = 0; event_hash = 0 } in
    verify_segment_iff C db 0 (ledger_head db).sequence 0 db.events
      (segment-all db.events 1 (ledger_head db).sequence start (omega arith) ascending
        (omega arith))
      (Chained-head C db db.events 1 start refl)
