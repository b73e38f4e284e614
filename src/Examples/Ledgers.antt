-- ===== src/Examples/Ledgers.antt =====
-- A ledger of two events with a toy digest, and a tree over three leaves.
use gotrendlabs.Prelude.{
  ℕ, suc, ◌+◌, ◌*◌, ◌≡◌, ◌↔◌, ◌⊎◌, true, none, some, List, [], ◌∷◌, ◌++◌, refl, map, Result, ok,
  err, Ensures, Succeeds, arith,
}
use gotrendlabs.Prelude.Table.{lookup, insert_new}
use gotrendlabs.Integrity.Merkle.{Hash}
use gotrendlabs.Integrity.Merkle.Binding.{Collision, build_merkle-binds}
use gotrendlabs.Integrity.Store.{Event, IntegrityDb}
use gotrendlabs.Integrity.Ledger.{
  Entry, Head, ledger_head, head_after, event_payload, append_ledger_event,
}
use gotrendlabs.Integrity.Ledger.Append.{
  IsIntact, append_ledger_event-Succeeds, append_ledger_event-IsIntact,
}
use gotrendlabs.Integrity.Ledger.Binding.{DigestCollision, content, ledger_head-binds}
use gotrendlabs.Integrity.Audit.{verify_segment, verify_integrity_ledger_chain}
use gotrendlabs.Integrity.Audit.Chain.{Chained}
use gotrendlabs.Integrity.Audit.Segments.{
  Chained-IsAscending, verify_integrity_ledger_chain-Chained,
}
use gotrendlabs.Integrity.Audit.Incremental.{verify_segment-incremental}
use gotrendlabs.Examples.Toys.{toy, toy_digest, encode, toy-IsSigner, toy-IsCanonical}

abbrev no_events : IntegrityDb
no_events = record { events = []; keys = [] }

no_events-IsIntact : IsIntact toy no_events
unfolding lookup
no_events-IsIntact = record { chained = tt; same_key = λ row e. cc; same_fingerprint = λ row e. cc }

abbrev publication : Entry
publication = record {
  event_type = 21;
  entity_type = 31;
  entity_identifier = 7;
  market_id = some 1;
  payload_reference = 41;
  payload_hash = 51;
  occurred_at = 100;
  correlation_id = none;
  causation_id = none;
  payload_snapshot = none;
}

abbrev pub closing : Entry
closing = record publication { event_type = 22; payload_hash = 52; occurred_at = 200 }

abbrev after : IntegrityDb → Result (IntegrityDb × Event) → IntegrityDb
after db (err e) = db
after db (ok (next, event)) = next

abbrev pub one_event : IntegrityDb
one_event = after no_events (append_ledger_event toy publication no_events)

abbrev pub two_events : IntegrityDb
two_events = after one_event (append_ledger_event toy closing one_event)

after-IsIntact :
    (db : IntegrityDb) (r : Result (IntegrityDb × Event))
    → IsIntact toy db
    → Ensures (λ r. IsIntact toy r.0) r
    → IsIntact toy (after db r)
after-IsIntact db (err e) h k = h
after-IsIntact db (ok r) h k = k

one_event-IsIntact : IsIntact toy one_event
one_event-IsIntact =
    after-IsIntact no_events (append_ledger_event toy publication no_events) no_events-IsIntact
      (append_ledger_event-IsIntact toy toy-IsSigner publication no_events no_events-IsIntact)

pub two_events-IsIntact : IsIntact toy two_events
two_events-IsIntact =
    after-IsIntact one_event (append_ledger_event toy closing one_event) one_event-IsIntact
      (append_ledger_event-IsIntact toy toy-IsSigner closing one_event one_event-IsIntact)

append_ledger_event-Succeeds_example :
    Succeeds
      (λ r. IsIntact toy r.0 × (r.0.events ≡ one_event.events ++ r.1 ∷ []))
      (append_ledger_event toy closing one_event)
append_ledger_event-Succeeds_example =
    append_ledger_event-Succeeds toy toy-IsSigner closing one_event
      (toy_digest (encode (event_payload toy closing (ledger_head one_event)))) one_event-IsIntact
      refl

verify_integrity_ledger_chain-Chained_example :
    Succeeds (λ r. r.valid ≡ true) (verify_integrity_ledger_chain toy two_events)
    ↔ Chained toy two_events 1 0 two_events.events
verify_integrity_ledger_chain-Chained_example =
    verify_integrity_ledger_chain-Chained toy two_events
      (Chained-IsAscending toy two_events two_events.events 0 0 two_events-IsIntact.chained)

-- The toy ledger is reported valid.
two_events_verify : Succeeds (λ r. r.valid ≡ true) (verify_integrity_ledger_chain toy two_events)
two_events_verify = verify_integrity_ledger_chain-Chained_example.1 two_events-IsIntact.chained

ledger_head-binds_example :
    (map (content toy) two_events.events ≡ map (content toy) two_events.events)
    ⊎ DigestCollision toy
ledger_head-binds_example =
    ledger_head-binds toy toy-IsCanonical two_events two_events two_events-IsIntact.chained
      two_events-IsIntact.chained refl

abbrev pub tail_of : List Event → List Event
tail_of [] = []
tail_of (event ∷ events) = events

abbrev first_event : List Event
first_event = one_event.events

abbrev first_head : Head
first_head = head_after (record { sequence = 0; event_hash = 0 }) first_event

verify_segment-incremental_example :
    Succeeds
      (λ r. r.valid ≡ true)
      (verify_segment toy two_events
        (suc first_head.sequence)
        (ledger_head two_events).sequence
        first_head.event_hash)
    ↔ Chained toy two_events 1 0 two_events.events
unfolding append_ledger_event lookup insert_new ledger_head
verify_segment-incremental_example =
    verify_segment-incremental toy two_events first_event (tail_of two_events.events) first_head
      refl refl (two_events-IsIntact.chained.0, tt) (omega arith, tt)

abbrev toy_hash : Hash
toy_hash = record { node = λ a b. a * 3 + b * 5 + 1; empty = 0 }

abbrev leaves : List ℕ
leaves = 11 ∷ 12 ∷ 13 ∷ []

build_merkle-binds_example : (leaves ≡ leaves) ⊎ Collision toy_hash
build_merkle-binds_example = build_merkle-binds toy_hash leaves leaves refl refl
