-- ===== src/Integrity/Ledger/Binding.antt =====
-- The head of the ledger commits to its history, as long as nobody has found a collision of the hash.
use gotrendlabs.Prelude.{
  ℕ, suc, ◌≡◌, ◌≢◌, ◌⊎◌, inl, inr, Bool, true, false, Option, none, some, ◌&&◌, List, [], ◌∷◌,
  arith, refl, sym, ap, ◌∙◌, map, ==_iff,
}
use gotrendlabs.Prelude.Lists.{length}
use native.Mathlib.Decide.{ℕ_discrete}
use gotrendlabs.Integrity.Store.{
  Bytes, Key, Value, null, number, text, object, same_value, or_null, Payload, get_or, Event,
  IntegrityDb, Crypto,
}
use gotrendlabs.Integrity.Ledger.{
  Head, head_after, ledger_head, get, envelope_is_valid, metadata_is_valid, ledger_event_is_valid,
}
use gotrendlabs.Integrity.Audit.Chain.{Chained}
use gotrendlabs.Integrity.Audit.Segments.{Chained-head}

Bytes-discrete : Discrete Bytes
Bytes-discrete = hlevel (ℕ_discrete)

-- Two different texts with one digest.
pub record DigestCollision (C : Crypto) : Type 0 where
  pub first : Bytes
  pub second : Bytes
  pub same : C.sha256_hex first ≡ C.sha256_hex second
  pub differ : first ≢ second

-- What the code relies on: objects with one canonical text have the same values.
pub record IsCanonical (C : Crypto) : Type 0 where
  pub reads :
      (p q : Payload)
      → C.canonical_json p ≡ C.canonical_json q
      → (default : Value) (key : Key) → get_or default key p ≡ get_or default key q

-- What an event says: all that its signed object repeats but the sequence, the link and the constant
-- version. The time is the text that `_json_default` makes of it.
pub record Content : Type 0 where
  pub event_hash : ℕ
  pub event_type : ℕ
  pub entity_type : ℕ
  pub entity_identifier : ℕ
  pub market_id : Option ℕ
  pub payload_reference : ℕ
  pub payload_hash : ℕ
  pub occurred_at : ℕ
  pub correlation_id : Option ℕ
  pub causation_id : Option ℕ

abbrev pub content : Crypto → Event → Content
content C event = record {
  event_hash = event.event_hash;
  event_type = event.event_type;
  entity_type = event.entity_type;
  entity_identifier = event.entity_identifier;
  market_id = event.market_id;
  payload_reference = event.payload_reference;
  payload_hash = event.payload_hash;
  occurred_at = C.json_default event.occurred_at;
  correlation_id = event.correlation_id;
  causation_id = event.causation_id;
}

same_value-eq : (v w : Value) → same_value v w ≡ true → v ≡ w
same_value-eq null w h = ground arith
same_value-eq (number m) w h = ground arith
same_value-eq (text s) w h = ground arith
same_value-eq (object x) w h = ground arith

-- Two columns that equal one value of the signed object are equal.
same_text : {v w : Value} {s t : ℕ} → v ≡ text s → w ≡ text t → v ≡ w → s ≡ t
same_text h k e = cc

or_null_inj :
    (f : ℕ → Value) (a b : Option ℕ)
    → ((m n : ℕ) → f m ≡ f n → m ≡ n)
    → ((m : ℕ) → f m ≢ null)
    → or_null f a ≡ or_null f b
    → a ≡ b
or_null_inj f none none inj some_value e = refl
or_null_inj f none (some n) inj some_value e = absurd (some_value n (sym e))
or_null_inj f (some m) none inj some_value e = absurd (some_value m e)
or_null_inj f (some m) (some n) inj some_value e = ap some (inj m n e)

number_or_null_inj : (a b : Option ℕ) → or_null number a ≡ or_null number b → a ≡ b
number_or_null_inj a b = or_null_inj number a b (λ m n e. cc) (λ m e. cc)

text_or_null_inj : (a b : Option ℕ) → or_null text a ≡ or_null text b → a ≡ b
text_or_null_inj a b = or_null_inj text a b (λ m n e. cc) (λ m e. cc)

both : {a b : Bool} → (a && b) ≡ true → (a ≡ true) × (b ≡ true)
both {a = true} h = (refl, h)
both {a = false} h = cc

-- The columns that the signed object repeats.
record Says (C : Crypto) (event : Event) : Type 0 where
  link : get_or (text 0) Key.previous_event_hash event.payload_json ≡ text event.previous_event_hash
  event_type : get Key.event_type event.payload_json ≡ text event.event_type
  entity_type : get Key.entity_type event.payload_json ≡ text event.entity_type
  entity_identifier : get Key.entity_identifier event.payload_json ≡ text event.entity_identifier
  market_id : get Key.market_id event.payload_json ≡ or_null number event.market_id
  payload_hash : get Key.payload_hash event.payload_json ≡ text event.payload_hash
  payload_reference : get Key.payload_reference event.payload_json ≡ text event.payload_reference
  occurred_at : get Key.occurred_at event.payload_json ≡ text (C.json_default event.occurred_at)
  correlation_id : get Key.correlation_id event.payload_json ≡ or_null text event.correlation_id
  causation_id : get Key.causation_id event.payload_json ≡ or_null text event.causation_id

module _ (C : Crypto) where
  valid-Says :
      (event : Event) (key : Bytes) → ledger_event_is_valid C event key ≡ true → Says C event
  unfolding ledger_event_is_valid metadata_is_valid
  valid-Says event key h =
      let causation = both (both h).1 in
      let correlation = both causation.0 in
      let time = both correlation.0 in
      let reference = both time.0 in
      let hash = both reference.0 in
      let market = both hash.0 in
      let identifier = both market.0 in
      let entity = both identifier.0 in
      let kind = both entity.0 in
      record {
        link = same_value-eq _ _ (both (both kind.0).0).0;
        event_type = same_value-eq _ _ kind.1;
        entity_type = same_value-eq _ _ entity.1;
        entity_identifier = same_value-eq _ _ identifier.1;
        market_id = same_value-eq _ _ market.1;
        payload_hash = same_value-eq _ _ hash.1;
        payload_reference = same_value-eq _ _ reference.1;
        occurred_at = same_value-eq _ _ time.1;
        correlation_id = same_value-eq _ _ correlation.1;
        causation_id = same_value-eq _ _ causation.1;
      }

  valid-digest :
      (event : Event) (key : Bytes)
      → ledger_event_is_valid C event key ≡ true
      → C.sha256_hex (C.canonical_json event.payload_json) ≡ event.event_hash
  unfolding ledger_event_is_valid envelope_is_valid
  valid-digest event key h =
      (==_iff _ _).0 (both (both (both (both (both (both (both h).0).0).0).0).0).0).1

  same_payload :
      (e f : Event) (k j : Bytes)
      → ledger_event_is_valid C e k ≡ true
      → ledger_event_is_valid C f j ≡ true
      → e.event_hash ≡ f.event_hash
      → (C.canonical_json e.payload_json ≡ C.canonical_json f.payload_json) ⊎ DigestCollision C
  same_payload e f k j h i same =
      let first = C.canonical_json e.payload_json in
      let second = C.canonical_json f.payload_json in
      elim (Bytes-discrete first second) [
        | yes equal ↦ inl equal
        | no differ ↦ inr (record {
          first = first;
          second = second;
          same = valid-digest e k h ∙ same ∙ sym (valid-digest f j i);
          differ = differ;
        })
      ]

  same_content :
      IsCanonical C
      → (e f : Event) → Says C e
      → Says C f
      → e.event_hash ≡ f.event_hash
      → C.canonical_json e.payload_json ≡ C.canonical_json f.payload_json
      → (content C e ≡ content C f) × (e.previous_event_hash ≡ f.previous_event_hash)
  same_content law e f h i hash payload =
      let at = law.reads _ _ payload null in
      let kind = same_text h.event_type i.event_type (at Key.event_type) in
      let entity = same_text h.entity_type i.entity_type (at Key.entity_type) in
      let identifier =
        same_text h.entity_identifier i.entity_identifier (at Key.entity_identifier) in
      let market = number_or_null_inj _ _ (sym h.market_id ∙ at Key.market_id ∙ i.market_id) in
      let reference =
        same_text h.payload_reference i.payload_reference (at Key.payload_reference) in
      let digest = same_text h.payload_hash i.payload_hash (at Key.payload_hash) in
      let time = same_text h.occurred_at i.occurred_at (at Key.occurred_at) in
      let correlation =
        text_or_null_inj _ _ (sym h.correlation_id ∙ at Key.correlation_id ∙ i.correlation_id) in
      let causation =
        text_or_null_inj _ _ (sym h.causation_id ∙ at Key.causation_id ∙ i.causation_id) in
      (cc, same_text h.link i.link (law.reads _ _ payload (text 0) Key.previous_event_hash))

  -- Chains of one length that end with one hash say the same, and started from one hash.
  same_history :
      IsCanonical C
      → (db db' : IntegrityDb) (es fs : List Event) (n m : ℕ) (head head' : Head)
      → length es ≡ length fs
      → Chained C db n head.event_hash es
      → Chained C db' m head'.event_hash fs
      → (head_after head es).event_hash ≡ (head_after head' fs).event_hash
      → ((map (content C) es ≡ map (content C) fs) × (head.event_hash ≡ head'.event_hash))
        ⊎ DigestCollision C
  same_history law db db' [] [] n m head head' size c d e = inl (refl, e)
  same_history law db db' [] (f ∷ fs) n m head head' size c d e = absurd (omega arith)
  same_history law db db' (x ∷ es) [] n m head head' size c d e = absurd (omega arith)
  same_history law db db' (x ∷ es) (y ∷ fs) n m head head' size c d e =
      let f = c.0 in
      let g = d.0 in
      let first : Head = record { sequence = x.sequence; event_hash = x.event_hash } in
      let second : Head = record { sequence = y.sequence; event_hash = y.event_hash } in
      elim (same_history law db db' es fs (suc n) (suc m) first second (omega arith) c.1 d.1 e) [
        | inr found ↦ inr found
        | inl rest ↦ elim (same_payload x y f.key g.key f.signed g.signed rest.1) [
          | inr found ↦ inr found
          | inl payload ↦
              let same =
                same_content law x y (valid-Says x f.key f.signed) (valid-Says y g.key g.signed)
                  rest.1 payload in
              inl (cc, sym f.link ∙ same.1 ∙ g.link)
        ]
      ]

  -- Two ledgers that are chains from 1 and have one head, its sequence and its hash, record the
  -- same events in the same order, or SHA-256 has a collision, when canonical JSON determines the
  -- values: each event has the same hash, type, entity with its type, market, payload with its
  -- reference, time as JSON writes it, and correlation and causation ids.
  pub ledger_head-binds :
      IsCanonical C
      → (db db' : IntegrityDb) → Chained C db 1 0 db.events
      → Chained C db' 1 0 db'.events
      → ledger_head db ≡ ledger_head db'
      → (map (content C) db.events ≡ map (content C) db'.events) ⊎ DigestCollision C
  unfolding ledger_head
  ledger_head-binds law db db' c d e =
      let start : Head = record { sequence = 0; event_hash = 0 } in
      let size = Chained-head C db db.events 1 start refl c in
      let size' = Chained-head C db' db'.events 1 start refl d in
      elim (same_history law db db' db.events db'.events 1 1 start start
        (omega (arith, size, size', ap (λ h. h.sequence) e)) c d (ap (λ h. h.event_hash) e)) [
          | inl same ↦ inl same.0
          | inr found ↦ inr found
        ]
