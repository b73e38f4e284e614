-- ===== src/Integrity/Ledger/Keys.antt =====
-- The registration of the signer's key, by `remember_public_key`, leaves a ledger of the service.
use gotrendlabs.Prelude.{
  ◌≡◌, ap, ℕ, Bool, true, false, ok, Ensures, raise_if, not, ◌>>◌, signing_key_mismatch, refl,
}
use gotrendlabs.Prelude.Table.{lookup, insert_new}
use gotrendlabs.Integrity.Store.{IntegrityDb, Crypto}
use gotrendlabs.Integrity.Ledger.{signing_key, remember_public_key, has_fingerprint}
use gotrendlabs.Integrity.Ledger.Append.{
  IsIntact, signature_of, Chained-keys, public_key_der_for-insert, lookup-same, known_fingerprint,
}

passed_guard :
    {A : Type 0} (P : A → Type 0) (b : Bool) (x : A)
    → P x
    → Ensures P (raise_if (not b) signing_key_mismatch >> ok x)
passed_guard P true x h = h
passed_guard P false x h = tt

module _ (C : Crypto) where
  -- The ledger with the signer's key registered.
  abbrev pub with_key : ℕ → ℕ → IntegrityDb → IntegrityDb
  with_key value now db = record {
    events = db.events;
    keys = insert_new C.key_id (signing_key (signature_of C value) now) db.keys;
  }

  pub with_key-IsIntact :
      (value now : ℕ) (db : IntegrityDb) → IsIntact C db → IsIntact C (with_key value now db)
  with_key-IsIntact value now db intact =
      let row = signing_key (signature_of C value) now in
      record {
        chained =
            Chained-keys C db (with_key value now db)
              (public_key_der_for-insert C db row db.events refl) db.events 1 0 intact.chained;
        same_key = λ r e. (lookup-same C db row r intact refl refl e).0;
        same_fingerprint = λ r e. (lookup-same C db row r intact refl refl e).1;
      }

  pub remember_public_key-IsIntact :
      (value now : ℕ) (db : IntegrityDb)
      → IsIntact C db
      → Ensures (IsIntact C) (remember_public_key (signature_of C value) now db)
  unfolding remember_public_key
  remember_public_key-IsIntact value now db intact =
      passed_guard (IsIntact C)
        (has_fingerprint (C.sha256_hex C.public_key) (lookup C.key_id (with_key value now db).keys))
        (with_key value now db) (with_key-IsIntact value now db intact)

  -- The signer's key can always be registered in a ledger of the service.
  pub remember_public_key-eq :
      (value now : ℕ) (db : IntegrityDb)
      → IsIntact C db
      → remember_public_key (signature_of C value) now db ≡ ok (with_key value now db)
  unfolding remember_public_key
  remember_public_key-eq value now db intact =
      ap (λ b. raise_if (not b) signing_key_mismatch >> ok (with_key value now db))
        (known_fingerprint C db (signing_key (signature_of C value) now) intact refl)
