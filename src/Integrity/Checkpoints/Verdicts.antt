-- ===== src/Integrity/Checkpoints/Verdicts.antt =====
-- What follows from a verdict, and rows in their order.
use gotrendlabs.Prelude.{
  ap, ◌==◌, ℕ, ◌≡◌, ◌≢◌, Bool, true, false, ◌&&◌, ◌||◌, List, [], ◌∷◌, ◌++◌, if◌then◌else◌, arith,
  refl,
}
use gotrendlabs.Integrity.Store.{Event}
use gotrendlabs.Integrity.Ledger.{Head, head_after}
use gotrendlabs.Integrity.Audit.Segments.{IsAscending, head_IsLast}
use gotrendlabs.Integrity.Checkpoints.{Checkpoint}
use gotrendlabs.Integrity.Checkpoints.Status.{
  Verdict, unavailable, verified, failed, pending, Report, compare_head,
}
use gotrendlabs.Integrity.Checkpoints.{invalid_text}
use gotrendlabs.Integrity.Checkpoints.Auditing.{status_text, is_verdict, waits_for_retry}

abbrev pub start : Head
start = record { sequence = 0; event_hash = 0 }

pub IsAscending-append :
    (old new : List Event) (head : Head)
    → IsAscending head.sequence (old ++ new)
    → IsAscending (head_after head old).sequence new
IsAscending-append [] new head h = h
IsAscending-append (event ∷ old) new head h =
    IsAscending-append old new (record { sequence = event.sequence; event_hash = event.event_hash })
      h.1

-- Rows that do not move the head are none.
pub no_rows :
    (new : List Event) (head : Head)
    → IsAscending head.sequence new
    → (head_after head new).sequence ≡ head.sequence
    → new ≡ []
no_rows [] head h e = refl
no_rows (event ∷ new) head h e = absurd (
    omega (
      arith,
      h.0,
      head_IsLast new (record { sequence = event.sequence; event_hash = event.event_hash }) h.1,
    ))

pub compare_head-verified :
    (head : Head) (c : Checkpoint) (events : List Event)
    → (compare_head head c events).status ≡ verified
    → c.last_event_sequence ≡ head.sequence
unfolding compare_head
compare_head-verified head c events h = ground arith

-- What a failed test leaves.
pub middle_of : (a b c : Bool) → (a || b || c) ≡ false → b ≡ false
middle_of false false c h = refl
middle_of false true c h = cc
middle_of true b c h = cc

pub not_failed : (v : Verdict) → is_verdict v failed ≡ true → v ≢ verified
not_failed unavailable h e = cc
not_failed verified h e = cc
not_failed failed h e = cc
not_failed pending h e = cc

pub first_of : (a b : Bool) → (a && b) ≡ true → a ≡ true
first_of true b h = refl
first_of false b h = cc

second_of : (a b : Bool) → (a && b) ≡ true → b ≡ true
second_of true b h = h
second_of false b h = cc

pub waits_failed :
    (now : ℕ) (force_full : Bool) (head : Head) (c : Checkpoint) (status : Report)
    → waits_for_retry now force_full head c status ≡ true
    → is_verdict status.status failed ≡ true
unfolding waits_for_retry
waits_failed now force_full head c status h =
    second_of _ _ (first_of _ _ (first_of _ _ (first_of _ _ (first_of _ _ (first_of _ _ h)))))

pub valid_of : (b : Bool) → (if b then verified else failed) ≡ verified → b ≡ true
valid_of true h = refl
valid_of false h = cc

pub append_none : (events : List Event) → events ≡ events ++ []
append_none [] = refl
append_none (event ∷ events) = ap (λ l. event ∷ l) (append_none events)

-- A checkpoint that does not say invalid was written on a valid verification.
pub valid_of_text : (b : Bool) → (status_text b == invalid_text) ≡ false → b ≡ true
valid_of_text true h = refl
valid_of_text false h = cc
