-- ===== src/Integrity/Audit/Incremental.antt =====
-- The audit of the events since a checkpoint.
use mathlib.Core.Path.{subst}
use gotrendlabs.Prelude.{
  ℕ, suc, ◌+◌, ◌≤◌, ◌≡◌, ◌↔◌, true, List, [], ◌∷◌, ◌++◌, Succeeds, Succeeds-map, arith, refl, sym,
  ap, ◌∙◌,
}
use gotrendlabs.Prelude.Lists.{length}
use gotrendlabs.Integrity.Store.{Event, IntegrityDb, Crypto}
use gotrendlabs.Integrity.Ledger.{Head, head_after, ledger_head}
use gotrendlabs.Integrity.Audit.{segment, verify_segment}
use gotrendlabs.Integrity.Audit.Chain.{Chained}
use gotrendlabs.Integrity.Audit.Segments.{
  IsVerified, verify_segment-Chained, IsAscending, head_IsLast, segment-all, Chained-head,
  Chained-IsAscending, verify_segment_iff,
}

abbrev head_of : Event → Head
head_of event = record { sequence = event.sequence; event_hash = event.event_hash }

pub head_after-append :
    (old new : List Event) (head : Head)
    → head_after head (old ++ new) ≡ head_after (head_after head old) new
head_after-append [] new head = refl
head_after-append (event ∷ old) new head = head_after-append old new (head_of event)

-- The rows of a range that starts after some of the rows.
segment-skip :
    (old new : List Event) (n through : ℕ) (head : Head)
    → IsAscending head.sequence old
    → (head_after head old).sequence ≤ n
    → segment (suc n) through (old ++ new) ≡ segment (suc n) through new
unfolding segment
segment-skip [] new n through head h e = refl
segment-skip (event ∷ old) new n through head h e =
    let last = head_IsLast old (head_of event) h.1 in
    let rest = segment-skip old new n through (head_of event) h.1 e in ground arith

module _ (C : Crypto) (db : IntegrityDb) where
  -- A chain continues where it ended.
  pub Chained-append :
      (old new : List Event) (n : ℕ) (head : Head)
      → Chained C db n head.event_hash old
      → Chained C db n head.event_hash (old ++ new)
        ↔ Chained C db (n + length old) (head_after head old).event_hash new
  Chained-append [] new n head c = (
    λ h. subst (λ k. Chained C db k head.event_hash new) (omega arith) h,
    λ h. subst (λ k. Chained C db k head.event_hash new) (omega arith) h,
  )
  Chained-append (event ∷ old) new n head c =
      let rest = Chained-append old new (suc n) (head_of event) c.1 in
      let last = (head_after head (event ∷ old)).event_hash in
      (
        λ h. subst (λ k. Chained C db k last new) (omega arith) (rest.0 h.1),
        λ h. (c.0, rest.1 (subst (λ k. Chained C db k last new) (omega arith) h)),
      )

  module _ (old new : List Event) (head : Head) (rows : db.events ≡ old ++ new)
      (h : head ≡ head_after (record { sequence = 0; event_hash = 0 }) old)
      (chained : Chained C db 1 0 old) (ascending : IsAscending head.sequence new) where
    -- The head of the ledger, from the end of its first events.
    head_of_new : ledger_head db ≡ head_after head new
    unfolding ledger_head
    head_of_new =
        let start : Head = record { sequence = 0; event_hash = 0 } in
        ap (head_after start) rows
        ∙ head_after-append old new start
        ∙ ap (λ k. head_after k new) (sym h)

    -- The rows that the audit reads.
    new_rows : segment (suc head.sequence) (ledger_head db).sequence db.events ≡ new
    new_rows =
        let start : Head = record { sequence = 0; event_hash = 0 } in
        let through = (ledger_head db).sequence in
        ap (segment (suc head.sequence) through) rows
        ∙ segment-skip old new head.sequence through start
            (Chained-IsAscending C db old 0 0 chained) (omega (arith, ap (λ k. k.sequence) h))
        ∙ segment-all new (suc head.sequence) through head (omega arith) ascending
            (omega (arith, ap (λ k. k.sequence) head_of_new))

    new_size :
        Chained C db (suc head.sequence) head.event_hash new
        → suc (ledger_head db).sequence ≡ suc head.sequence + length new
    new_size c =
        ap (λ k. suc k.sequence) head_of_new ∙ Chained-head C db new (suc head.sequence) head refl c

    -- Over a ledger that starts with a chain from 1, and whose further events have ascending
    -- sequences above that of the chain's head: the verification of the events after the chain,
    -- from its head's sequence and hash to the head of the ledger, passes exactly when the whole
    -- ledger is a chain.
    pub verify_segment-incremental :
        Succeeds
          (λ r. r.valid ≡ true)
          (verify_segment C db (suc head.sequence) (ledger_head db).sequence head.event_hash)
        ↔ Chained C db 1 0 db.events
    verify_segment-incremental =
        let start : Head = record { sequence = 0; event_hash = 0 } in
        let ended = Chained-head C db old 1 start refl chained in
        let continued = Chained-append old new 1 start chained in
        let audit =
          verify_segment_iff C db head.sequence (ledger_head db).sequence head.event_hash new
            new_rows new_size in
        let same =
          ap (λ k. Chained C db k head.event_hash new)
            (omega (arith, ended, ap (λ k. k.sequence) h))
          ∙ ap (λ x. Chained C db (1 + length old) x new) (ap (λ k. k.event_hash) h) in
        (
          λ passed.
              subst (Chained C db 1 0) (sym rows)
                (continued.1 (subst (λ T. T) same (audit.0 passed))),
          λ c. audit.1 (subst (λ T. T) (sym same) (continued.0 (subst (Chained C db 1 0) rows c))),
        )

    -- Then what it verified last is the head of the ledger.
    pub verify_segment-reaches :
        Succeeds
          (λ r. r.valid ≡ true)
          (verify_segment C db (suc head.sequence) (ledger_head db).sequence head.event_hash)
        → Succeeds
            (λ r.
              record { sequence = r.last_verified_sequence; event_hash = r.last_verified_hash }
              ≡ ledger_head db)
            (verify_segment C db (suc head.sequence) (ledger_head db).sequence head.event_hash)
    verify_segment-reaches passed =
        let through = (ledger_head db).sequence in
        let c =
          (verify_segment_iff C db head.sequence through head.event_hash new new_rows new_size).0
            passed in
        Succeeds-map (IsVerified C db head.sequence head.event_hash new)
          (λ r.
            record { sequence = r.last_verified_sequence; event_hash = r.last_verified_hash }
            ≡ ledger_head db)
          (verify_segment C db (suc head.sequence) through head.event_hash)
          (λ r v. v.head ∙ sym head_of_new)
          (verify_segment-Chained C db head.sequence through head.event_hash new new_rows
            (new_size c) c)
