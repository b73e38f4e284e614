-- ===== src/Lifecycle/Transitions.antt =====
-- The transitions of a market: `publish_market`, `cancel_market`, `resolve_market`, `lock_market`
-- and `lock_market_automatically`. A note is kept as whether it holds more than white space.
use gotrendlabs.Prelude.{
  ℕ, ◌+◌, ◌*◌, min, max, Bool, true, false, not, Option, none, some, ◌∷◌, ◌==◌, leb, ◌||◌,
  if◌then◌else◌, Result, ok, err, raise_if, ◌>>=◌, ◌>>◌, market_not_found, publish_wrong_status,
  sealed_is_final, already_canceled, undo_reason_required, undo_window_closed,
  resolution_state_conflict, resolution_evidence_required, winning_option_invalid, timezone_invalid,
  lock_requires_daemon, lock_requires_staff, lock_wrong_status,
}
use mathlib.Core.Option
use gotrendlabs.Prelude.Table.{lookup, update}
use gotrendlabs.Db.{
  Db, Market, MarketStatus, SiteConfig, Call, call, has_definition, register_market_definition,
  register_schedule, record_publication, admin_publish, admin_cancel, admin_resolve, admin_lock,
  admin_resolution_undo, integrity_canceled, integrity_resolution_undone, integrity_resolved,
  integrity_locked, notify_resolved, notify_locked,
}
use gotrendlabs.Position.Queries.{hour}
use gotrendlabs.Position.Validate.{or_raise, find_option}
use gotrendlabs.Lifecycle.Engine.{Engine}
use gotrendlabs.Lifecycle.Settlement.{resolve_market_predictions}
use gotrendlabs.Lifecycle.Refund.{refund_market_predictions, assert_no_open_predictions}
use gotrendlabs.Lifecycle.Undo.{undo_resolved_market_predictions}

unfoldable pub set_market : ℕ → (Market → Market) → Db → Db
set_market m f db = record db { markets = update m f db.markets }

abbrev pub status_of : ℕ → Db → Option MarketStatus
status_of m db = Option.map (λ r. r.status) (lookup m db.markets)

-- `_integrity_event`: only a market with a signed definition gets one, and a refused signature
-- raises.
unfoldable pub integrity_event : Engine → ℕ → Call → Db → Result Db
integrity_event e m c db =
    if has_definition m db then (e.append_ledger_event m db >> ok (call c db)) else ok db

-- `register_market_definition`: an existing definition stays; a new one is signed, and its event too.
unfoldable pub register_definition : Engine → ℕ → Db → Result Db
register_definition e m db =
    let defined = record db { definitions = m ∷ db.definitions } in
    if has_definition m db
    then ok db
    else (e.append_ledger_event m defined >> ok (call (register_market_definition m) defined))

abbrev pub published : Option ℕ → ℕ → Market → Market
published staff now row = record row {
  status = MarketStatus.opened;
  published_at = some now;
  updated_by_id = staff;
  updated_at = now;
}

unfoldable pub publish_draft : Engine → ℕ → ℕ → Db → Result Db
unfolding register_definition set_market
publish_draft e m now db = do
  e.validate_publishable m db
  e.require_publication_approval m db
  db1 ← register_definition e m db
  e.register_schedule m db1
  let db2 = set_market m (published e.staff_id now) (call (register_schedule m) db1)
  ok (call (admin_publish m) (call (record_publication m) db2))

unfoldable pub publish_from : MarketStatus → Engine → ℕ → ℕ → Db → Result Db
unfolding publish_draft
publish_from MarketStatus.opened e m now db = ok db
publish_from MarketStatus.draft e m now db = publish_draft e m now db
publish_from MarketStatus.scheduled e m now db = publish_draft e m now db
publish_from _ e m now db = err publish_wrong_status

-- `publish_market`
unfoldable pub publish_market : Engine → ℕ → ℕ → Db → Result Db
unfolding publish_from
publish_market e m now db = do
  current ← or_raise (lookup m db.markets) (err market_not_found)
  publish_from current.status e m now db

abbrev pub unresolved : Option ℕ → ℕ → Market → Market
unresolved staff now row = record row {
  status = MarketStatus.locked;
  winning_option_id = none;
  resolved_at = none;
  seal_due_at = none;
  updated_by_id = staff;
  updated_at = now;
}

-- `row.get("seal_due_at") and now >= row["seal_due_at"]`
abbrev pub undo_is_late : ℕ → Option ℕ → Bool
undo_is_late now none = false
undo_is_late now (some due) = leb due now

unfoldable pub undo_resolution : Engine → Market → Bool → ℕ → Db → Result Db
unfolding set_market integrity_event
undo_resolution e row has_note now db = do
  raise_if (not has_note) undo_reason_required
  raise_if (undo_is_late now row.seal_due_at) undo_window_closed
  let db1 = undo_resolved_market_predictions e row.id now db
  let db2 = set_market row.id (unresolved e.staff_id now) db1
  let db3 = call (admin_resolution_undo row.id) db2
  integrity_event e row.id (integrity_resolution_undone row.id) db3

abbrev pub canceled_at : Option ℕ → ℕ → Market → Market
canceled_at staff now row = record row {
  status = MarketStatus.canceled;
  is_featured = false;
  canceled_at = some now;
  updated_by_id = staff;
  updated_at = now;
}

unfoldable pub cancel_unresolved : Engine → Market → ℕ → Db → Result Db
unfolding set_market integrity_event
cancel_unresolved e row now db = do
  (counts, db1) ← refund_market_predictions e row.id now db
  assert_no_open_predictions row.id db1
  let db2 = set_market row.id (canceled_at e.staff_id now) db1
  let db3 = call (admin_cancel row.id) db2
  integrity_event e row.id (integrity_canceled row.id) db3

unfoldable pub cancel_from : MarketStatus → Engine → Market → Bool → ℕ → Db → Result Db
unfolding undo_resolution cancel_unresolved
cancel_from MarketStatus.sealed e row has_note now db = err sealed_is_final
cancel_from MarketStatus.canceled e row has_note now db = err already_canceled
cancel_from MarketStatus.resolved e row has_note now db = undo_resolution e row has_note now db
cancel_from _ e row has_note now db = cancel_unresolved e row now db

-- `cancel_market`, on the row that the caller read
unfoldable pub cancel_market : Engine → Market → Bool → ℕ → Db → Result Db
unfolding cancel_from
cancel_market e row has_note now db = cancel_from row.status e row has_note now db

-- AdminMarketResolvePayload; whether the time zone exists is for `zoneinfo` to say.
pub record ResolvePayload : Type 0 where
  pub has_source_url : Bool
  pub has_note : Bool
  pub winning_option_id : ℕ
  pub resolved_at : Option ℕ
  pub timezone_is_known : Bool

abbrev window_or_default : Option ℕ → ℕ
window_or_default none = 12
window_or_default (some n) = if n == 0 then 12 else n

abbrev pub seal_window_of : Option SiteConfig → ℕ
seal_window_of none = 12
seal_window_of (some c) = max 1 (min (window_or_default c.market_seal_window_hours) 168)

abbrev moment_or : ℕ → Option ℕ → ℕ
moment_or now none = now
moment_or now (some t) = t

abbrev pub resolved_row : Option ℕ → ℕ → ℕ → ResolvePayload → Market → Market
resolved_row staff now due payload row = record row {
  status = MarketStatus.resolved;
  winning_option_id = some payload.winning_option_id;
  resolved_at = some (moment_or now payload.resolved_at);
  seal_due_at = some due;
  updated_by_id = staff;
  updated_at = now;
}

abbrev pub is_locked : MarketStatus → Bool
is_locked MarketStatus.locked = true
is_locked _ = false

-- `resolve_market`
unfoldable pub resolve_market : Engine → ℕ → ResolvePayload → ℕ → Db → Result Db
unfolding set_market integrity_event
resolve_market e m payload now db = do
  row ← or_raise (lookup m db.markets) (err market_not_found)
  raise_if (not (is_locked row.status)) resolution_state_conflict
  e.require_resolution m db
  raise_if (not (payload.has_source_url || payload.has_note)) resolution_evidence_required
  option ←
      or_raise (find_option m payload.winning_option_id db.options) (err winning_option_invalid)
  raise_if (not payload.timezone_is_known) timezone_invalid
  let due = now + seal_window_of db.site_config * hour
  let db1 = set_market m (resolved_row e.staff_id now due payload) db
  let db2 = resolve_market_predictions e m option.id now db1
  let db3 = call (admin_resolve m) (call (notify_resolved m) db2)
  integrity_event e m (integrity_resolved m) db3

abbrev pub can_lock : MarketStatus → Bool
can_lock MarketStatus.opened = true
can_lock MarketStatus.scheduled = true
can_lock _ = false

abbrev pub locked_row : Option ℕ → ℕ → Market → Market
locked_row staff now row = record row {
  status = MarketStatus.locked;
  updated_by_id = staff;
  updated_at = now;
}

unfoldable pub lock_row : Engine → Option ℕ → Market → ℕ → Db → Result Db
unfolding set_market integrity_event
lock_row e staff row now db =
    let db1 = call (notify_locked row.id) (set_market row.id (locked_row staff now) db) in
    integrity_event e row.id (integrity_locked row.id) (call (admin_lock row.id) db1)

-- `lock_market`
unfoldable pub lock_market : Engine → Market → ℕ → Db → Result Db
unfolding lock_row
lock_market e row now db = do
  raise_if row.auto_close_enabled lock_requires_daemon
  raise_if (not (can_lock row.status)) lock_wrong_status
  lock_row e e.staff_id row now db

-- `lock_market_automatically`
unfoldable pub lock_market_automatically : Engine → Market → ℕ → Db → Result Db
unfolding lock_row
lock_market_automatically e row now db = do
  raise_if (not row.auto_close_enabled) lock_requires_staff
  raise_if (not (can_lock row.status)) lock_wrong_status
  lock_row e none row now db
