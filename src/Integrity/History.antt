-- ===== src/Integrity/History.antt =====
-- Any sequence of appends and audits, each in a transaction of its own.
use mathlib.Core.List.{append_assoc}
use gotrendlabs.Prelude.{
  ℕ, Bool, List, [], ◌∷◌, ◌++◌, Result, ok, err, Ensures, Ensures-bind, Ensures-and, ◌>>=◌, ap, ◌∙◌,
  ensured,
}
use gotrendlabs.Integrity.Store.{Bytes, Event, IntegrityDb, Crypto, IsSigner}
use gotrendlabs.Integrity.Ledger.{Entry, append_ledger_event}
use gotrendlabs.Integrity.Ledger.Append.{IsIntact, Chained-keys, append_ledger_event-IsIntact}
use gotrendlabs.Integrity.Audit.Segments.{Chained-IsAscending}
use gotrendlabs.Integrity.Ledger.Extending.{Extends, append_ledger_event-Extends}
use gotrendlabs.Integrity.Checkpoints.{CheckpointPayload, AuditDb, latest_checkpoint}
use gotrendlabs.Integrity.Checkpoints.Auditing.{audit_integrity_ledger}
use gotrendlabs.Integrity.Checkpoints.Honest.{IsHonest, IsKept}
use gotrendlabs.Integrity.Checkpoints.Intact.{KeepsIntact, audit_integrity_ledger-IsIntact}
use gotrendlabs.Integrity.Checkpoints.Sound.{audit_integrity_ledger-IsKept}

-- A request to the ledger.
pub data Request : Type 0 where
  appends : Entry → Request
  audits : ℕ → Bool → Request

module _ (C : Crypto) (checkpoint_json : CheckpointPayload → Bytes) where
  -- A ledger of the service, with a latest checkpoint that vouches for its first events.
  pub record IsSoundLedger (db : AuditDb) : Type 0 where
    pub intact : IsIntact C db.ledger
    pub honest : IsHonest C checkpoint_json db

  audit-IsSoundLedger :
      (now : ℕ) (force_full : Bool) (db : AuditDb)
      → IsSoundLedger db
      → Ensures
          (λ r. IsSoundLedger r.0)
          (audit_integrity_ledger C checkpoint_json now force_full db)
  audit-IsSoundLedger now force_full db h =
      Ensures-and (IsKept C checkpoint_json db) (KeepsIntact C checkpoint_json)
        (λ r. IsSoundLedger r.0) (audit_integrity_ledger C checkpoint_json now force_full db)
        (λ r k i. record { intact = i; honest = k.1 })
        (audit_integrity_ledger-IsKept C checkpoint_json now force_full db
          (Chained-IsAscending C db.ledger db.ledger.events 0 0 h.intact.chained) h.honest)
        (audit_integrity_ledger-IsIntact C checkpoint_json now force_full db h.intact)

  -- The append of an entry, with the checkpoints as they are.
  unfoldable pub append : Entry → AuditDb → Result AuditDb
  append entry db = append_ledger_event C entry db.ledger >>= λ r.
      ok (record { ledger = r.0; checkpoints = db.checkpoints })

  -- An appended event leaves the checkpoints standing where they stood.
  extended-IsHonest :
      (db : AuditDb) (r : IntegrityDb × Event)
      → Extends C db.ledger r
      → IsHonest C checkpoint_json db
      → IsHonest C checkpoint_json (record { ledger = r.0; checkpoints = db.checkpoints })
  unfolding latest_checkpoint
  extended-IsHonest db r x h = record {
    vouches = λ c latest valid.
        let p = h.vouches c latest valid in
        record {
          old = p.old;
          new = p.new ++ r.1 ∷ [];
          rows = x.0 ∙ ap (λ l. l ++ r.1 ∷ []) p.rows ∙ append_assoc p.old p.new (r.1 ∷ []);
          chained = Chained-keys C db.ledger r.0 x.1 p.old 1 0 p.chained;
          head = p.head;
        };
  }

  append-IsSoundLedger :
      IsSigner C
      → (entry : Entry) (db : AuditDb) → IsSoundLedger db
      → Ensures IsSoundLedger (append entry db)
  unfolding append
  append-IsSoundLedger law entry db h =
      Ensures-bind IsSoundLedger (append_ledger_event C entry db.ledger) _ λ r e. record {
        intact =
            ensured (λ (x : IntegrityDb × Event). IsIntact C x.0) _
              (append_ledger_event-IsIntact C law entry db.ledger h.intact) e;
        honest =
            extended-IsHonest db r
              (ensured (Extends C db.ledger) _ (append_ledger_event-Extends C entry db.ledger) e)
              h.honest;
      }

  -- One request to the ledger; one that raises is rolled back.
  abbrev pub committed : {A : Type 0} → (A → AuditDb) → Result A → AuditDb → AuditDb
  committed f (err e) db = db
  committed f (ok a) db = f a

  unfoldable pub serve_one : Request → AuditDb → AuditDb
  unfolding append
  serve_one (appends entry) db = committed (λ a. a) (append entry db) db
  serve_one (audits now force_full) db =
      committed (λ r. r.0) (audit_integrity_ledger C checkpoint_json now force_full db) db

  unfoldable pub serve_all : List Request → AuditDb → AuditDb
  unfolding serve_one
  serve_all [] db = db
  serve_all (request ∷ requests) db = serve_all requests (serve_one request db)

  committed-IsSoundLedger :
      {A : Type 0} (f : A → AuditDb) (r : Result A) (db : AuditDb)
      → IsSoundLedger db
      → Ensures (λ a. IsSoundLedger (f a)) r
      → IsSoundLedger (committed f r db)
  committed-IsSoundLedger f (err e) db h k = h
  committed-IsSoundLedger f (ok a) db h k = k

  serve_one-IsSoundLedger :
      IsSigner C
      → (request : Request) (db : AuditDb) → IsSoundLedger db
      → IsSoundLedger (serve_one request db)
  unfolding serve_one
  serve_one-IsSoundLedger law (appends entry) db h =
      committed-IsSoundLedger (λ a. a) (append entry db) db h (append-IsSoundLedger law entry db h)
  serve_one-IsSoundLedger law (audits now force_full) db h =
      committed-IsSoundLedger (λ r. r.0)
        (audit_integrity_ledger C checkpoint_json now force_full db) db h
        (audit-IsSoundLedger now force_full db h)

  -- After any sequence of appended entries and audits, whether they succeed or fail, with a signer
  -- whose signatures verify: from a ledger of the service whose latest checkpoint, unless its status
  -- is invalid, stands at the end of a chain of the first events, the requests lead to such a ledger
  -- again.
  pub serve_all-IsSoundLedger :
      IsSigner C
      → (requests : List Request) (db : AuditDb) → IsSoundLedger db
      → IsSoundLedger (serve_all requests db)
  unfolding serve_all
  serve_all-IsSoundLedger law [] db h = h
  serve_all-IsSoundLedger law (request ∷ requests) db h =
      serve_all-IsSoundLedger law requests (serve_one request db)
        (serve_one-IsSoundLedger law request db h)
