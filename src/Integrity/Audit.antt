-- ===== src/Integrity/Audit.antt =====
-- The verification of the chain: `_verify_integrity_ledger_segment` and
-- `verify_integrity_ledger_chain`. A set of market ids is a list. The cache of public keys is left
-- out: the table does not change during the loop.
pub mod Chain
pub mod Segments
pub mod Incremental
use gotrendlabs.Prelude.{
  ℕ, ◌+◌, ◌-◌, Bool, true, false, not, ◌&&◌, Option, none, some, List, [], ◌∷◌, ◌==◌, leb,
  if◌then◌else◌, Result, ok, err, ◌>>=◌,
}
use gotrendlabs.Prelude.Lists.{select, any}
use gotrendlabs.Integrity.Store.{Bytes, Event, IntegrityDb, Crypto, public_key_der_for}
use gotrendlabs.Integrity.Ledger.{Head, ledger_head, ledger_event_is_valid}

-- The local variables of the loop.
pub record Scan : Type 0 where
  pub valid : Bool
  pub invalid_market_ids : List ℕ
  pub first_invalid_sequence : Option ℕ
  pub last_verified_sequence : ℕ
  pub last_verified_hash : ℕ
  pub verified_event_count : ℕ
  pub previous_hash : ℕ
  pub expected_sequence : ℕ

unfoldable pub new_scan : ℕ → ℕ → Scan
new_scan start_sequence expected_previous_hash = record {
  valid = true;
  invalid_market_ids = [];
  first_invalid_sequence = none;
  last_verified_sequence = start_sequence - 1;
  last_verified_hash = expected_previous_hash;
  verified_event_count = 0;
  previous_hash = expected_previous_hash;
  expected_sequence = start_sequence;
}

abbrev pub add_market : Option ℕ → List ℕ → List ℕ
add_market none ids = ids
add_market (some id) ids = if any (λ i. i == id) ids then ids else id ∷ ids

abbrev pub or_first : Option ℕ → ℕ → Option ℕ
or_first none n = some n
or_first (some m) n = some m

-- An event fails.
abbrev pub fail_event : Event → Scan → Scan
fail_event event scan = record scan {
  valid = false;
  invalid_market_ids = add_market event.market_id scan.invalid_market_ids;
  first_invalid_sequence = or_first scan.first_invalid_sequence scan.expected_sequence;
}

-- An event passes: it counts only before the first that fails.
abbrev pub pass_event : Option ℕ → Event → Scan → Scan
pass_event (some first) event scan = scan
pass_event none event scan = record scan {
  last_verified_sequence = event.sequence;
  last_verified_hash = event.event_hash;
  verified_event_count = scan.verified_event_count + 1;
}

abbrev pub go_on : Event → Scan → Scan
go_on event scan = record scan {
  previous_hash = event.event_hash;
  expected_sequence = event.sequence + 1;
}

module _ (C : Crypto) where
  -- `valid_event`
  unfoldable pub event_follows : Scan → Event → Bytes → Bool
  event_follows scan event public_key_der =
      (event.sequence == scan.expected_sequence)
      && (event.previous_event_hash == scan.previous_hash)
      && ledger_event_is_valid C event public_key_der

  -- The body of the loop.
  unfoldable pub scan_event : Scan → Event → Bytes → Scan
  scan_event scan event public_key_der = go_on event (
      if event_follows scan event public_key_der
      then pass_event scan.first_invalid_sequence event scan
      else fail_event event scan)

  unfoldable pub scan_events : IntegrityDb → List Event → Scan → Result Scan
  scan_events db [] scan = ok scan
  scan_events db (event ∷ events) scan = public_key_der_for C db event.key_id >>= λ public_key_der.
      scan_events db events (scan_event scan event public_key_der)

-- The events that are missing at the end.
unfoldable pub check_end : ℕ → Scan → Scan
check_end through_sequence scan =
    if leb scan.expected_sequence through_sequence
    then record scan {
      valid = false;
      first_invalid_sequence = or_first scan.first_invalid_sequence scan.expected_sequence;
    }
    else scan

-- The rows between two sequences.
unfoldable pub segment : ℕ → ℕ → List Event → List Event
segment start_sequence through_sequence =
    select (λ event. leb start_sequence event.sequence && leb event.sequence through_sequence)

module _ (C : Crypto) where
  -- `_verify_integrity_ledger_segment`
  unfoldable pub verify_segment : IntegrityDb → ℕ → ℕ → ℕ → Result Scan
  unfolding new_scan scan_events check_end segment
  verify_segment db start_sequence through_sequence expected_previous_hash = do
    let events = segment start_sequence through_sequence db.events
    scan ← scan_events C db events (new_scan start_sequence expected_previous_hash)
    ok (check_end through_sequence scan)

  -- `verify_integrity_ledger_chain`, before the names of the report
  unfoldable pub verify_integrity_ledger_chain : IntegrityDb → Result Scan
  unfolding verify_segment ledger_head
  verify_integrity_ledger_chain db = verify_segment db 1 (ledger_head db).sequence 0
