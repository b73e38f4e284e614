-- ===== src/Prelude/Results.antt =====
-- A request either succeeds or raises; a raise rolls the whole transaction back, so no state is
-- carried by an error.
use mathlib.Core.Path.{◌≡◌, refl, subst}
use mathlib.Core.Bool.{Bool, true, false, not}
use gotrendlabs.Prelude.Tests.{if◌then◌else◌}

-- The exceptions of the modelled handlers, named after their messages.
pub data Error : Type 0 where
  market_not_found option_invalid market_closed no_active_position invalid_action : Error
  reinforcement_disabled reinforcement_limit reinforcement_other_option : Error
  reinforcement_below_minimum : Error
  revision_disabled revision_same_option revision_window_closed revision_limit : Error
  revision_below_minimum : Error
  insufficient_balance already_positioned : Error
  bot_already_predicted_market insufficient_bot_balance : Error
  unsigned_definition : Error
  publish_wrong_status : Error
  sealed_is_final already_canceled undo_reason_required undo_window_closed : Error
  refund_insufficient_locked open_predictions_remain : Error
  resolution_state_conflict resolution_evidence_required winning_option_invalid : Error
  checkpoint_unsafe key_unavailable signing_refused signing_key_mismatch : Error
  commitment_secret_required : Error
  note_required direction_invalid payload_invalid user_not_found item_not_found : Error
  author_missing already_rewarded already_reviewed : Error
  timezone_invalid lock_requires_daemon lock_requires_staff lock_wrong_status : Error

-- What a request returns.
pub data Result {ℓ} (V : Type ℓ) : Type ℓ where
  err : Error → Result V
  ok : V → Result V

-- `if test: raise error`
abbrev pub raise_if : Bool → Error → Result (Unit {0})
raise_if false reason = ok tt
raise_if true reason = err reason

infixl 5 ◌>>=◌ ◌>>◌
abbrev pub ◌>>=◌ {ℓ κ} : {V : Type ℓ} {W : Type κ} → Result V → (V → Result W) → Result W
err reason >>= next = err reason
ok value >>= next = next value

abbrev pub ◌>>◌ {ℓ} : {W : Type ℓ} → Result (Unit {0}) → Result W → Result W
check >> request = check >>= λ passed. request

pub raise_if-eq-ok : (t : Bool) (e : Error) → raise_if t e ≡ ok tt → t ≡ false
raise_if-eq-ok true e h = cc
raise_if-eq-ok false e h = refl

-- A property of what a request returns; a request that raises changes nothing.
abbrev pub Ensures {ℓ κ} : {A : Type ℓ} → (A → Type κ) → Result A → Type κ
Ensures P (ok a) = P a
Ensures P (err e) = Unit

pub Ensures-bind {ℓ κ λ'} :
    {A : Type ℓ} {B : Type κ} (P : B → Type λ') (m : Result A) (f : A → Result B)
    → ((a : A) → m ≡ ok a → Ensures P (f a))
    → Ensures P (m >>= f)
Ensures-bind P (ok a) f h = h a refl
Ensures-bind P (err e) f h = tt

pub ensured {ℓ κ} :
    {A : Type ℓ} (P : A → Type κ) (m : Result A) {a : A} → Ensures P m → m ≡ ok a → P a
ensured P (ok a) h e = subst P (cc) h
ensured P (err x) h e = cc

pub Ensures-map {ℓ κ λ'} :
    {A : Type ℓ} (P : A → Type κ) (Q : A → Type λ') (m : Result A)
    → ((a : A) → P a → Q a)
    → Ensures P m
    → Ensures Q m
Ensures-map P Q (ok a) f h = f a h
Ensures-map P Q (err e) f h = tt

-- The request succeeds, with a result that has the property.
abbrev pub Succeeds {ℓ} : {A : Type ℓ} → (A → Type 0) → Result A → Type 0
Succeeds P (ok a) = P a
Succeeds P (err e) = ⊥

pub Succeeds-bind {ℓ κ} :
    {A : Type ℓ} {B : Type κ} (P : A → Type 0) (Q : B → Type 0) (m : Result A) (f : A → Result B)
    → Succeeds P m
    → ((a : A) → P a → Succeeds Q (f a))
    → Succeeds Q (m >>= f)
Succeeds-bind P Q (ok a) f h k = k a h
Succeeds-bind P Q (err e) f h k = elim h [ ]

pub Succeeds-map {ℓ} :
    {A : Type ℓ} (P Q : A → Type 0) (m : Result A)
    → ((a : A) → P a → Q a)
    → Succeeds P m
    → Succeeds Q m
Succeeds-map P Q (ok a) f h = f a h
Succeeds-map P Q (err e) f h = elim h [ ]

-- A guard `if not test: raise` that was passed.
pub raise_if-not-eq-ok : (t : Bool) (e : Error) → raise_if (not t) e ≡ ok tt → t ≡ true
raise_if-not-eq-ok true e h = refl
raise_if-not-eq-ok false e h = cc

-- What each branch has under its test.
pub Ensures-if {ℓ κ} :
    {A : Type ℓ} (P : A → Type κ) (c : Bool) (x y : Result A)
    → (c ≡ true → Ensures P x)
    → (c ≡ false → Ensures P y)
    → Ensures P (if c then x else y)
Ensures-if P true x y h k = h refl
Ensures-if P false x y h k = k refl

-- What a success with a property gives.
pub Ensures-Succeeds {ℓ} :
    {A : Type ℓ} (P : A → Type 0) (Q : Type 0) (m : Result A)
    → Ensures (λ a. P a → Q) m
    → Succeeds P m
    → Q
Ensures-Succeeds P Q (ok a) h k = h k
Ensures-Succeeds P Q (err e) h k = elim k [ ]

-- The request raises.
abbrev pub Fails {ℓ} : {A : Type ℓ} → Result A → Type 0
Fails (ok a) = ⊥
Fails (err e) = Unit

pub Fails-bind {ℓ κ} :
    {A : Type ℓ} {B : Type κ} (m : Result A) (f : A → Result B)
    → ((a : A) → m ≡ ok a → Fails (f a))
    → Fails (m >>= f)
Fails-bind (ok a) f h = h a refl
Fails-bind (err e) f h = tt

-- What a request that succeeds returned.
pub succeeded {ℓ} :
    {A : Type ℓ} (P : A → Type 0) (m : Result A) {a : A} → Succeeds P m → m ≡ ok a → P a
succeeded P (ok a) h e = subst P (cc) h
succeeded P (err x) h e = elim h [ ]

pub Succeeds-and {ℓ} :
    {A : Type ℓ} (P Q : A → Type 0) (m : Result A)
    → Succeeds P m
    → Ensures Q m
    → Succeeds (λ a. P a × Q a) m
Succeeds-and P Q (ok a) h k = (h, k)
Succeeds-and P Q (err e) h k = elim h [ ]

pub Ensures-and {ℓ κ} :
    {A : Type ℓ} (P Q R : A → Type κ) (m : Result A)
    → ((a : A) → P a → Q a → R a)
    → Ensures P m
    → Ensures Q m
    → Ensures R m
Ensures-and P Q R (ok a) f h k = f a h k
Ensures-and P Q R (err e) f h k = tt
