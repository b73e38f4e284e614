-- ===== src/Lifecycle/Engine.antt =====
-- What `MarketLifecycleEngine.__init__` is given, and what the API and the daemon give it.
use gotrendlabs.Prelude.{ℕ, Bool, Option, none, some, ◌==◌, ◌&&◌, ◌||◌, if◌then◌else◌, Result}
use gotrendlabs.Prelude.Int.{ℤ, pos, ◌+ℤ◌, ◌-ℤ◌, pos_part}
use gotrendlabs.Prelude.Lists.{any}
use gotrendlabs.Prelude.Table.{lookup, update, insert_new}
use gotrendlabs.Wallet.{
  Wallet, Balance, Direction, release, credit, EntryType, grant_initial, Reference, auth_register,
  no_gtl, insert_entry, record_wallet_entry, ensure_wallet_balance, is_grant_initial,
}
use gotrendlabs.Db.{Db, Reputation, with_wallet}
use gotrendlabs.Position.Write.{initial_reputation}

-- The callbacks, the read-only checks of other modules that the engine calls, and whether
-- `append_ledger_event` for a market (with the signing before it) and `resolution_schedule.register`
-- return or raise in a state.
pub record Engine : Type 0 where
  pub staff_id : Option ℕ
  pub record_entry : ℕ → EntryType → ℕ → Direction → Reference → Option ℕ → Wallet → Wallet
  pub ensure_user_core : ℕ → Db → Db
  pub validate_publishable : ℕ → Db → Result (Unit {0})
  pub require_publication_approval : ℕ → Db → Result (Unit {0})
  pub require_resolution : ℕ → Db → Result (Unit {0})
  pub append_ledger_event : ℕ → Db → Result (Unit {0})
  pub register_schedule : ℕ → Db → Result (Unit {0})

-- INITIAL_GRANT_GTL
abbrev pub initial_grant_gtl : ℕ
initial_grant_gtl = 2000

unfoldable pub has_initial_grant : ℕ → Wallet → Bool
has_initial_grant u w = any (λ e. (e.user_id == u) && is_grant_initial e.entry_type) w.ledger

abbrev pub new_reputation : Reputation
new_reputation = record {
  reputation_score = initial_reputation;
  resolved_predictions_count = 0;
  accuracy_indicator = 0;
  streak = 0;
}

unfoldable pub grant_once : ℕ → Wallet → Wallet
unfolding has_initial_grant
grant_once u w =
    if has_initial_grant u w
    then ensure_wallet_balance u w
    else record_wallet_entry u grant_initial initial_grant_gtl credit (auth_register u) none w

-- `_ensure_user_core`, without the profile, the founder's badges and the activity. The user of a
-- prediction exists by its foreign key.
unfoldable pub ensure_user_core : ℕ → Db → Db
unfolding grant_once
ensure_user_core u db = elim (lookup u db.users) [
  | none ↦ db
  | some user ↦
      if user.is_staff || user.is_superuser || user.is_bot
      then with_wallet (ensure_wallet_balance u) db
      else with_wallet (grant_once u)
          (record db { reputations = insert_new u new_reputation db.reputations })
]

-- `GREATEST(locked_gtl - amount, 0)`
unfoldable pub greatest_zero : ℤ → ℕ → ℤ
greatest_zero locked amount = pos (pos_part (locked -ℤ pos amount))

abbrev pub daemon_release : ℕ → Direction → Balance → Balance
daemon_release amount release b = record b {
  available_gtl = b.available_gtl +ℤ pos amount;
  locked_gtl = greatest_zero b.locked_gtl amount;
}
daemon_release amount _ b = b

-- `_record_wallet_entry` of `daemon_services.py`: only a release moves the balance, a missing row
-- is made of zeros, and nobody is notified.
unfoldable pub daemon_record_wallet_entry :
    ℕ → EntryType → ℕ → Direction → Reference → Option ℕ → Wallet → Wallet
unfolding greatest_zero
daemon_record_wallet_entry u t amount d ref by w =
    let w' = insert_entry u t amount d ref by w in
    record w' { balances = update u (daemon_release amount d) (insert_new u no_gtl w'.balances) }

-- `_market_lifecycle_engine` of `main.py`, with the checks that it closes over.
unfoldable pub api_engine :
    Option ℕ
    → (ℕ → Db → Result (Unit {0}))
    → (ℕ → Db → Result (Unit {0}))
    → (ℕ → Db → Result (Unit {0}))
    → (ℕ → Db → Result (Unit {0}))
    → (ℕ → Db → Result (Unit {0}))
    → Engine
api_engine staff publishable approved resolvable sign schedule = record {
  staff_id = staff;
  record_entry = record_wallet_entry;
  ensure_user_core = ensure_user_core;
  validate_publishable = publishable;
  require_publication_approval = approved;
  require_resolution = resolvable;
  append_ledger_event = sign;
  register_schedule = schedule;
}

-- `_daemon_lifecycle_engine` of `daemon_services.py`; `_noop` accepts.
unfoldable pub daemon_engine :
    (ℕ → Db → Result (Unit {0}))
    → (ℕ → Db → Result (Unit {0}))
    → (ℕ → Db → Result (Unit {0}))
    → (ℕ → Db → Result (Unit {0}))
    → Engine
daemon_engine approved resolvable sign schedule = record {
  staff_id = none;
  record_entry = daemon_record_wallet_entry;
  ensure_user_core = λ u db. db;
  validate_publishable = λ m db. Result.ok tt;
  require_publication_approval = approved;
  require_resolution = resolvable;
  append_ledger_event = sign;
  register_schedule = schedule;
}
