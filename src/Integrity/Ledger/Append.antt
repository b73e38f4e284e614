-- ===== src/Integrity/Ledger/Append.antt =====
-- `append_ledger_event` continues the chain.
use mathlib.Core.Path.{subst}
use gotrendlabs.Prelude.{
  ℕ, suc, ◌+◌, ◌≡◌, Bool, true, not, ◌&&◌, Option, none, some, List, [], ◌∷◌, ◌++◌, ◌==◌,
  if◌then◌else◌, Result, ok, ◌>>=◌, ◌>>◌, raise_if, Ensures, Succeeds, arith, refl, sym, ap, ◌∙◌,
  ==_refl, ==_iff, Bool-cases, Option-cases, inl, inr, signing_key_mismatch,
}
use mathlib.Core.Option.{some_inj}
use gotrendlabs.Prelude.Table.{lookup, insert_new, or_else, lookup-insert_new}
use gotrendlabs.Integrity.Store.{
  Bytes, Value, null, number, text, object, same_value, or_null, Event, SigningKey, IntegrityDb,
  Crypto, IsSigner, foreign_key, registered_key, public_key_der_for,
}
use gotrendlabs.Integrity.Ledger.{
  Entry, Signature, Head, ledger_head, signed_by, sign_payload, event_payload, event_row,
  has_fingerprint, signing_key, remember_public_key, append_ledger_event, envelope_is_valid,
  metadata_is_valid, ledger_event_is_valid,
}
use gotrendlabs.Integrity.Audit.Chain.{Chained}
use gotrendlabs.Integrity.Audit.Segments.{Chained-head}
use gotrendlabs.Integrity.Audit.Incremental.{Chained-append}

same_value_refl : (v : Value) → same_value v v ≡ true
same_value_refl null = refl
same_value_refl (number n) = ==_refl n
same_value_refl (text s) = ==_refl s
same_value_refl (object x) = ==_refl x

infixl 3 ◌and◌
pub ◌and◌ : {a b : Bool} → a ≡ true → b ≡ true → (a && b) ≡ true
h and k = cc

module _ (C : Crypto) where
  -- A ledger that the service wrote: its events are a chain, and the key registered under the
  -- signer's name is the signer's.
  pub record IsIntact (db : IntegrityDb) : Type 0 where
    pub chained : Chained C db 1 0 db.events
    pub same_key :
        (row : SigningKey) → lookup C.key_id db.keys ≡ some row → row.public_key_der ≡ C.public_key
    pub same_fingerprint :
        (row : SigningKey)
        → lookup C.key_id db.keys ≡ some row
        → row.key_fingerprint ≡ C.sha256_hex C.public_key

  -- The columns of a row that was just appended agree with what was signed.
  event_row-metadata :
      (entry : Entry) (previous : Head) (canonical : Bytes) (digest : ℕ) (signed : Signature)
      → metadata_is_valid C (event_row C entry previous canonical digest signed) ≡ true
  unfolding metadata_is_valid event_row event_payload
  event_row-metadata entry previous canonical digest signed =
      same_value_refl (text previous.event_hash)
      and same_value_refl (number (previous.sequence + 1))
      and refl
      and same_value_refl (text entry.event_type)
      and same_value_refl (text entry.entity_type)
      and same_value_refl (text entry.entity_identifier)
      and same_value_refl (or_null number entry.market_id)
      and same_value_refl (text entry.payload_hash)
      and same_value_refl (text entry.payload_reference)
      and same_value_refl (text (C.json_default entry.occurred_at))
      and same_value_refl (or_null text entry.correlation_id)
      and same_value_refl (or_null text entry.causation_id)

  -- The signature of the process over a digest.
  abbrev pub signature_of : ℕ → Signature
  signature_of value = record {
    value = value;
    algorithm = 2;
    key_id = C.key_id;
    key_fingerprint = C.sha256_hex C.public_key;
    public_key_der = C.public_key;
  }

  event_row-envelope :
      IsSigner C
      → (entry : Entry) (previous : Head) (value : ℕ)
      → C.sign (C.sha256_hex (C.canonical_json (event_payload C entry previous))) ≡ some value
      → envelope_is_valid C
          (event_row C entry previous
            (C.canonical_json (event_payload C entry previous))
            (C.sha256_hex (C.canonical_json (event_payload C entry previous)))
            (signature_of value))
          C.public_key
        ≡ true
  unfolding envelope_is_valid event_row
  event_row-envelope law entry previous value h =
      ==_refl (C.sha256_hex (C.canonical_json (event_payload C entry previous)))
      and ==_refl (C.sha256_hex (C.canonical_json (event_payload C entry previous)))
      and refl
      and ==_refl entry.occurred_at
      and refl
      and ==_refl (C.sha256_hex C.public_key)
      and law.verifies (C.sha256_hex (C.canonical_json (event_payload C entry previous))) value h

  -- To register the signer's key changes no key that is looked up.
  registered_key-or_else :
      (key_id : ℕ) (o : Option SigningKey) (v : SigningKey)
      → v.public_key_der ≡ C.public_key
      → C.key_id ≡ key_id
      → registered_key C key_id (some (or_else o v)) ≡ registered_key C key_id o
  registered_key-or_else key_id none v h e = ground arith
  registered_key-or_else key_id (some row) v h e = refl

  pub public_key_der_for-insert :
      (db : IntegrityDb) (v : SigningKey) (events : List Event)
      → v.public_key_der ≡ C.public_key
      → (key_id : ℕ)
      → public_key_der_for C db key_id
        ≡ public_key_der_for C
            (record { events = events; keys = insert_new C.key_id v db.keys })
            key_id
  unfolding public_key_der_for
  public_key_der_for-insert db v events h key_id =
      let found = lookup-insert_new C.key_id key_id v db.keys in
      elim (Bool-cases (C.key_id == key_id)) [
        | inl same ↦ sym (
            ap (registered_key C key_id) (
              found
              ∙ ap
                  (λ b.
                    if b then some (or_else (lookup key_id db.keys) v) else lookup key_id db.keys)
                  same)
            ∙ registered_key-or_else key_id (lookup key_id db.keys) v h ((==_iff _ _).0 same))
        | inr different ↦ sym (
            ap (registered_key C key_id) (
              found
              ∙ ap
                  (λ b.
                    if b then some (or_else (lookup key_id db.keys) v) else lookup key_id db.keys)
                  different))
      ]

  -- A chain does not depend on more than the keys of its events.
  pub Chained-keys :
      (db db' : IntegrityDb)
      → ((key_id : ℕ) → public_key_der_for C db key_id ≡ public_key_der_for C db' key_id)
      → (events : List Event) (n hash : ℕ) → Chained C db n hash events
      → Chained C db' n hash events
  Chained-keys db db' keys [] n hash c = tt
  Chained-keys db db' keys (event ∷ events) n hash c =
      let f = c.0 in
      (
        record {
          key = f.key;
          known = sym (keys event.key_id) ∙ f.known;
          place = f.place;
          link = f.link;
          signed = f.signed;
        },
        Chained-keys db db' keys events (suc n) event.event_hash c.1,
      )

  pub own_key :
      (db : IntegrityDb) → IsIntact db → public_key_der_for C db C.key_id ≡ ok C.public_key
  unfolding public_key_der_for
  own_key db intact = elim (Option-cases (lookup C.key_id db.keys)) [
    | inl missing ↦
        ap (registered_key C C.key_id) missing
        ∙ ap (λ b. if b then ok C.public_key else foreign_key C C.key_id) (==_refl C.key_id)
    | inr found ↦ ap (registered_key C C.key_id) found.1 ∙ ap ok (intact.same_key found.0 found.1)
  ]

  -- The row that is registered, or was before, has the signer's fingerprint.
  pub known_fingerprint :
      (db : IntegrityDb) (v : SigningKey)
      → IsIntact db
      → v.key_fingerprint ≡ C.sha256_hex C.public_key
      → has_fingerprint
          (C.sha256_hex C.public_key)
          (lookup C.key_id (insert_new C.key_id v db.keys))
        ≡ true
  known_fingerprint db v intact h =
      let found =
        lookup-insert_new C.key_id C.key_id v db.keys
        ∙ ap
            (λ b. if b then some (or_else (lookup C.key_id db.keys) v) else lookup C.key_id db.keys)
            (==_refl C.key_id) in
      ap (has_fingerprint (C.sha256_hex C.public_key)) found
      ∙ elim (Option-cases (lookup C.key_id db.keys)) [
        | inl missing ↦
            ap (λ o. (or_else o v).key_fingerprint == C.sha256_hex C.public_key) missing
            ∙ (==_iff _ _).1 h
        | inr row ↦
            ap (λ o. (or_else o v).key_fingerprint == C.sha256_hex C.public_key) row.1
            ∙ (==_iff _ _).1 (intact.same_fingerprint row.0 row.1)
      ]

  -- What is written when the signer answers.
  abbrev appended : Entry → IntegrityDb → ℕ → IntegrityDb × Event
  appended entry db value =
      let previous = ledger_head db in
      let canonical = C.canonical_json (event_payload C entry previous) in
      let event =
        event_row C entry previous canonical (C.sha256_hex canonical) (signature_of value) in
      (
        record {
          events = db.events ++ event ∷ [];
          keys = insert_new C.key_id (signing_key (signature_of value) entry.occurred_at) db.keys;
        },
        event,
      )

  -- The request, given the answer of the signer.
  abbrev pub finish : Entry → IntegrityDb → Option ℕ → Result (IntegrityDb × Event)
  finish entry db answer = do
    let previous = ledger_head db
    s ← signed_by C answer (C.canonical_json (event_payload C entry previous))
    known ← remember_public_key s.2 entry.occurred_at db
    let event = event_row C entry previous s.0 s.1 s.2
    ok (record { events = known.events ++ event ∷ []; keys = known.keys }, event)

  append_ledger_event-eq :
      (entry : Entry) (db : IntegrityDb) (value : ℕ)
      → IsIntact db
      → C.sign (C.sha256_hex (C.canonical_json (event_payload C entry (ledger_head db))))
        ≡ some value
      → append_ledger_event C entry db ≡ ok (appended entry db value)
  unfolding append_ledger_event sign_payload remember_public_key
  append_ledger_event-eq entry db value intact h =
      let previous = ledger_head db in
      let canonical = C.canonical_json (event_payload C entry previous) in
      let event =
        event_row C entry previous canonical (C.sha256_hex canonical) (signature_of value) in
      let row = signing_key (signature_of value) entry.occurred_at in
      let inserted : IntegrityDb = record {
        events = db.events;
        keys = insert_new C.key_id row db.keys;
      } in
      ap (finish entry db) h
      ∙ ap
          (λ b. raise_if (not b) signing_key_mismatch >> ok inserted >>= λ known.
            ok (record { events = known.events ++ event ∷ []; keys = known.keys }, event))
          (known_fingerprint db row intact refl)

  pub lookup-same :
      (db : IntegrityDb) (v row : SigningKey)
      → IsIntact db
      → v.public_key_der ≡ C.public_key
      → v.key_fingerprint ≡ C.sha256_hex C.public_key
      → lookup C.key_id (insert_new C.key_id v db.keys) ≡ some row
      → (row.public_key_der ≡ C.public_key) × (row.key_fingerprint ≡ C.sha256_hex C.public_key)
  lookup-same db v row intact k f h =
      let found =
        lookup-insert_new C.key_id C.key_id v db.keys
        ∙ ap
            (λ b. if b then some (or_else (lookup C.key_id db.keys) v) else lookup C.key_id db.keys)
            (==_refl C.key_id) in
      elim (Option-cases (lookup C.key_id db.keys)) [
        | inl missing ↦
            let same : v ≡ row =
              some_inj.0 (sym (ap (λ o. some (or_else o v)) missing) ∙ sym found ∙ h) in
            (sym (ap (λ r. r.public_key_der) same) ∙ k, sym (ap (λ r. r.key_fingerprint) same) ∙ f)
        | inr old ↦
            let same : old.0 ≡ row =
              some_inj.0 (sym (ap (λ o. some (or_else o v)) old.1) ∙ sym found ∙ h) in
            (
              sym (ap (λ r. r.public_key_der) same) ∙ intact.same_key old.0 old.1,
              sym (ap (λ r. r.key_fingerprint) same) ∙ intact.same_fingerprint old.0 old.1,
            )
      ]

  appended-IsIntact :
      IsSigner C
      → (entry : Entry) (db : IntegrityDb) (value : ℕ) → IsIntact db
      → C.sign (C.sha256_hex (C.canonical_json (event_payload C entry (ledger_head db))))
        ≡ some value
      → IsIntact (appended entry db value).0
  unfolding event_row ledger_event_is_valid ledger_head
  appended-IsIntact law entry db value intact h =
      let start : Head = record { sequence = 0; event_hash = 0 } in
      let after = appended entry db value in
      let row = signing_key (signature_of value) entry.occurred_at in
      let canonical = C.canonical_json (event_payload C entry (ledger_head db)) in
      let keys = public_key_der_for-insert db row after.0.events refl in
      let old = Chained-keys db after.0 keys db.events 1 0 intact.chained in
      record {
        chained = (Chained-append C after.0 db.events (after.1 ∷ []) 1 start old).1 (
          record {
            key = C.public_key;
            known = sym (keys C.key_id) ∙ own_key db intact;
            place = omega (arith, Chained-head C db db.events 1 start refl intact.chained);
            link = refl;
            signed =
                event_row-envelope law entry (ledger_head db) value h
                and event_row-metadata entry (ledger_head db) canonical (C.sha256_hex canonical)
                    (signature_of value);
          },
          tt,
        );
        same_key = λ r e. (lookup-same db row r intact refl refl e).0;
        same_fingerprint = λ r e. (lookup-same db row r intact refl refl e).1;
      }

  -- An entry that is appended to a ledger of the service, with a signer that answers: the request
  -- succeeds, the entry is one event more at the end, and the ledger is a ledger of the service.
  pub append_ledger_event-Succeeds :
      IsSigner C
      → (entry : Entry) (db : IntegrityDb) (value : ℕ) → IsIntact db
      → C.sign (C.sha256_hex (C.canonical_json (event_payload C entry (ledger_head db))))
        ≡ some value
      → Succeeds
          (λ r. IsIntact r.0 × (r.0.events ≡ db.events ++ r.1 ∷ []))
          (append_ledger_event C entry db)
  append_ledger_event-Succeeds law entry db value intact h =
      subst (Succeeds (λ r. IsIntact r.0 × (r.0.events ≡ db.events ++ r.1 ∷ [])))
        (sym (append_ledger_event-eq entry db value intact h))
        (appended-IsIntact law entry db value intact h, refl)

  -- Whether or not the signer answers: what the request returns is a ledger of the service.
  pub append_ledger_event-IsIntact :
      IsSigner C
      → (entry : Entry) (db : IntegrityDb) → IsIntact db
      → Ensures (λ r. IsIntact r.0) (append_ledger_event C entry db)
  unfolding append_ledger_event sign_payload
  append_ledger_event-IsIntact law entry db intact =
      elim (Option-cases
        (C.sign (C.sha256_hex (C.canonical_json (event_payload C entry (ledger_head db)))))) [
          | inl refused ↦
              subst (Ensures (λ r. IsIntact r.0)) (sym (ap (finish entry db) refused)) tt
          | inr answered ↦
              subst (Ensures (λ r. IsIntact r.0))
                (sym (append_ledger_event-eq entry db answered.0 intact answered.1))
                (appended-IsIntact law entry db answered.0 intact answered.1)
        ]
