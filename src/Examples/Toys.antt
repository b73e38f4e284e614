-- ===== src/Examples/Toys.antt =====
-- A toy digest, and a canonical text that can be read back.
use mathlib.Core.Option.{some_inj}
use gotrendlabs.Prelude.{
  ℕ, ◌+◌, ◌*◌, ◌≡◌, false, none, some, [], ◌∷◌, ◌==◌, ==_iff, refl, sym, ap, ◌∙◌, if◌then◌else◌,
}
use gotrendlabs.Integrity.Store.{
  Bytes, Key, Value, null, number, text, object, Payload, Crypto, IsSigner, get_or,
}
use gotrendlabs.Integrity.Ledger.Binding.{IsCanonical}

-- A text of four numbers for each entry of an object.
abbrev key_code : Key → ℕ × ℕ
key_code Key.causation_id = (0, 0)
key_code Key.correlation_id = (1, 0)
key_code Key.entity_identifier = (2, 0)
key_code Key.entity_type = (3, 0)
key_code Key.event_type = (4, 0)
key_code Key.market_id = (5, 0)
key_code Key.occurred_at = (6, 0)
key_code Key.payload_hash = (7, 0)
key_code Key.payload_reference = (8, 0)
key_code Key.payload_snapshot = (9, 0)
key_code Key.previous_event_hash = (10, 0)
key_code Key.protocol_version = (11, 0)
key_code Key.sequence = (12, 0)
key_code (Key.other n) = (13, n)

abbrev key_of : ℕ → ℕ → Key
key_of code n =
    if code == 0
    then Key.causation_id
    else if code == 1
    then Key.correlation_id
    else if code == 2
    then Key.entity_identifier
    else if code == 3
    then Key.entity_type
    else if code == 4
    then Key.event_type
    else if code == 5
    then Key.market_id
    else if code == 6
    then Key.occurred_at
    else if code == 7
    then Key.payload_hash
    else if code == 8
    then Key.payload_reference
    else if code == 9
    then Key.payload_snapshot
    else if code == 10
    then Key.previous_event_hash
    else if code == 11
    then Key.protocol_version
    else if code == 12
    then Key.sequence
    else Key.other n

key_of-key_code : (k : Key) → key_of (key_code k).0 (key_code k).1 ≡ k
key_of-key_code Key.causation_id = refl
key_of-key_code Key.correlation_id = refl
key_of-key_code Key.entity_identifier = refl
key_of-key_code Key.entity_type = refl
key_of-key_code Key.event_type = refl
key_of-key_code Key.market_id = refl
key_of-key_code Key.occurred_at = refl
key_of-key_code Key.payload_hash = refl
key_of-key_code Key.payload_reference = refl
key_of-key_code Key.payload_snapshot = refl
key_of-key_code Key.previous_event_hash = refl
key_of-key_code Key.protocol_version = refl
key_of-key_code Key.sequence = refl
key_of-key_code (Key.other n) = refl

abbrev value_code : Value → ℕ × ℕ
value_code null = (0, 0)
value_code (number n) = (1, n)
value_code (text n) = (2, n)
value_code (object n) = (3, n)

abbrev value_of : ℕ → ℕ → Value
value_of code n =
    if code == 0
    then null
    else if code == 1
    then number n
    else if code == 2
    then text n
    else object n

value_of-value_code : (v : Value) → value_of (value_code v).0 (value_code v).1 ≡ v
value_of-value_code null = refl
value_of-value_code (number n) = refl
value_of-value_code (text n) = refl
value_of-value_code (object n) = refl

abbrev pub encode : Payload → Bytes
encode [] = []
encode ((k, v) ∷ rest) =
    (key_code k).0 ∷ (key_code k).1 ∷ (value_code v).0 ∷ (value_code v).1 ∷ encode rest

abbrev decode : Bytes → Payload
decode (a ∷ b ∷ c ∷ d ∷ rest) = (key_of a b, value_of c d) ∷ decode rest
decode _ = []

decode-encode : (p : Payload) → decode (encode p) ≡ p
decode-encode [] = refl
decode-encode ((k, v) ∷ rest) =
    let first = key_of-key_code k in
    let second = value_of-value_code v in let others = decode-encode rest in cc

abbrev pub toy_digest : Bytes → ℕ
toy_digest [] = 7
toy_digest (n ∷ rest) = n * 3 + toy_digest rest + 1

abbrev pub toy : Crypto
toy = record {
  sha256_hex = toy_digest;
  canonical_json = encode;
  json_default = λ t. t;
  verify_signed_hash = λ digest signature key. digest == signature;
  sign = λ digest. some digest;
  key_id = 9;
  public_key = 4 ∷ [];
  is_ephemeral = λ key. false;
  kms_public_key = λ key. none;
}

pub toy-IsSigner : IsSigner toy
toy-IsSigner = record {
  verifies = λ digest signature h. (==_iff digest signature).1 (some_inj.0 h);
}

pub toy-IsCanonical : IsCanonical toy
toy-IsCanonical = record {
  reads = λ p q same default key.
      ap (get_or default key) (sym (decode-encode p) ∙ ap decode same ∙ decode-encode q);
}
