-- ===== src/Examples/Audits.antt =====
-- The first audit of the toy ledger, and one that is incremental.
use gotrendlabs.Prelude.{ℕ, [], ◌∷◌, refl, Succeeds}
use mathlib.Core.Path.{subst}
use mathlib.Core.Option.{some_inj}
use gotrendlabs.Prelude.{List, ◌≡◌, false, Option, none, some, Result, ok, err, Ensures}
use gotrendlabs.Prelude.Table.{lookup, insert_new}
use gotrendlabs.Integrity.Ledger.{append_ledger_event, ledger_event_is_valid}
use gotrendlabs.Integrity.Audit.{verify_integrity_ledger_chain, scan_event, event_follows}
use gotrendlabs.Integrity.Audit.Segments.{Chained-IsAscending}
use gotrendlabs.Integrity.Checkpoints.Status.{Report}
use gotrendlabs.Integrity.Checkpoints.Sound.{audit_integrity_ledger-IsKept}
use gotrendlabs.Integrity.Checkpoints.Honest.{IsPrefix, IsKept}
use gotrendlabs.Integrity.History.{
  Request, appends, audits, IsSoundLedger, serve_all, serve_all-IsSoundLedger,
}
use gotrendlabs.Integrity.Store.{Bytes, public_key_der_for}
use gotrendlabs.Integrity.Checkpoints.{
  full, Value, null, number, text, numbers, CheckpointPayload, Checkpoint, AuditDb,
  latest_checkpoint,
}
use gotrendlabs.Integrity.Checkpoints.Auditing.{audit_from, audit_integrity_ledger}
use gotrendlabs.Integrity.Checkpoints.Full.{IsAudited, audit_from-IsAudited}
use gotrendlabs.Examples.Toys.{toy, toy-IsSigner}
use gotrendlabs.Examples.Ledgers.{closing, one_event, two_events, tail_of, two_events-IsIntact}

abbrev weight : Value → ℕ
weight null = 0
weight (number n) = n
weight (text n) = n
weight (numbers ns) = 0

abbrev toy_json : CheckpointPayload → Bytes
toy_json [] = []
toy_json ((key, value) ∷ rest) = weight value ∷ toy_json rest

abbrev unaudited : AuditDb
unaudited = record { ledger = two_events; checkpoints = [] }

audit_from-IsAudited_example :
    Succeeds (IsAudited toy toy_json two_events) (audit_from toy toy_json full 1 0 500 unaudited)
unfolding latest_checkpoint
audit_from-IsAudited_example =
    audit_from-IsAudited toy toy_json toy-IsSigner (λ digest. (digest, refl)) 500 unaudited
      two_events-IsIntact tt

-- One event was audited, then the second was appended.
abbrev state_of : AuditDb → Result (AuditDb × Report) → AuditDb
state_of db (err e) = db
state_of db (ok r) = r.0

abbrev audited : AuditDb
audited =
    let before : AuditDb = record { ledger = one_event; checkpoints = [] } in
    state_of before (audit_from toy toy_json full 1 0 500 before)

abbrev grown : AuditDb
grown = record { ledger = two_events; checkpoints = audited.checkpoints }

-- A checkpoint, if there is one, vouches for the first events.
abbrev IsVouched : Option Checkpoint → Type 0
IsVouched none = Unit
IsVouched (some c) = IsPrefix toy toy_json c two_events

vouched :
    (o : Option Checkpoint)
    → IsVouched o
    → (c : Checkpoint) → o ≡ some c
    → IsPrefix toy toy_json c two_events
vouched none h c e = cc
vouched (some d) h c e = subst (λ x. IsPrefix toy toy_json x two_events) (some_inj.0 e) h

grown-IsVouched : IsVouched (latest_checkpoint grown)
unfolding latest_checkpoint audit_from append_ledger_event lookup insert_new
    verify_integrity_ledger_chain public_key_der_for scan_event event_follows ledger_event_is_valid
grown-IsVouched = record {
  old = one_event.events;
  new = tail_of two_events.events;
  rows = refl;
  chained = (two_events-IsIntact.chained.0, tt);
  head = refl;
}

audit_integrity_ledger-IsKept_example :
    Ensures (IsKept toy toy_json grown) (audit_integrity_ledger toy toy_json 600 false grown)
audit_integrity_ledger-IsKept_example =
    audit_integrity_ledger-IsKept toy toy_json 600 false grown
      (Chained-IsAscending toy two_events two_events.events 0 0 two_events-IsIntact.chained)
      (record { vouches = λ c e valid. vouched (latest_checkpoint grown) grown-IsVouched c e })

-- The two events are audited, and a third one is appended and audited.
unaudited-IsSoundLedger : IsSoundLedger toy toy_json unaudited
unfolding latest_checkpoint
unaudited-IsSoundLedger = record {
  intact = two_events-IsIntact;
  honest = record { vouches = λ c e valid. cc };
}

abbrev ledger_requests : List Request
ledger_requests = audits 500 false ∷ appends closing ∷ audits 600 false ∷ []

serve_all-IsSoundLedger_example :
    IsSoundLedger toy toy_json (serve_all toy toy_json ledger_requests unaudited)
serve_all-IsSoundLedger_example =
    serve_all-IsSoundLedger toy toy_json toy-IsSigner ledger_requests unaudited
      unaudited-IsSoundLedger
