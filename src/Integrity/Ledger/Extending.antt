-- ===== src/Integrity/Ledger/Extending.antt =====
-- What an append leaves of the ledger: the events before it and the keys that are looked up.
use gotrendlabs.Prelude.{
  ℕ, ◌≡◌, Bool, true, false, not, Option, none, some, [], ◌∷◌, ◌++◌, ok, Error, raise_if, ◌>>◌,
  Ensures, Ensures-bind, refl, signing_key_mismatch,
}
use gotrendlabs.Prelude.Table.{lookup, insert_new}
use gotrendlabs.Integrity.Store.{Event, IntegrityDb, Crypto, public_key_der_for}
use gotrendlabs.Integrity.Ledger.{
  Entry, sign_payload, signing_key, event_payload, ledger_head, remember_public_key,
  has_fingerprint, append_ledger_event,
}
use gotrendlabs.Integrity.Ledger.Append.{
  finish as finish_append, signature_of, public_key_der_for-insert,
}

after_guard : {A : Type 0} (b : Bool) (e : Error) (x y : A) → (raise_if b e >> ok x) ≡ ok y → y ≡ x
after_guard true e x y h = cc
after_guard false e x y h = cc

module _ (C : Crypto) where
  -- What an append does to the rows and to the keys that are looked up.
  abbrev pub Extends : IntegrityDb → IntegrityDb × Event → Type 0
  Extends db r =
      (r.0.events ≡ db.events ++ r.1 ∷ [])
      × ((key_id : ℕ) → public_key_der_for C db key_id ≡ public_key_der_for C r.0 key_id)

  appended-Extends :
      (entry : Entry) (db : IntegrityDb) (answer : Option ℕ)
      → Ensures (Extends db) (finish_append C entry db answer)
  unfolding remember_public_key
  appended-Extends entry db none = tt
  appended-Extends entry db (some value) =
      let row = signing_key (signature_of C value) entry.occurred_at in
      Ensures-bind (Extends db) (remember_public_key (signature_of C value) entry.occurred_at db) _
        λ known e.
          let same =
            after_guard
              (not (
                has_fingerprint (C.sha256_hex C.public_key)
                  (lookup C.key_id (insert_new C.key_id row db.keys))))
              signing_key_mismatch _ known e in
          rw same (refl, public_key_der_for-insert C db row _ refl)

  pub append_ledger_event-Extends :
      (entry : Entry) (db : IntegrityDb) → Ensures (Extends db) (append_ledger_event C entry db)
  unfolding append_ledger_event sign_payload
  append_ledger_event-Extends entry db =
      appended-Extends entry db
        (C.sign (C.sha256_hex (C.canonical_json (event_payload C entry (ledger_head db)))))
