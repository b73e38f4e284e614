-- ===== src/Lib.antt =====
-- GoTrendLabs: the credits of a prediction market. Forecasters stake credits (GTL) on the options
-- of a market, the staff or the daemon closes it, the staff resolves it, undoes the resolution or
-- cancels it, and every movement is an entry of an append-only ledger with a cached balance row.
--
-- The parts and their sources (paths from the repository's root):
--   Wallet       apps/api/backend_api/main.py: `_ledger_wallet_totals`, `_ensure_wallet_balance`,
--                `_wallet_summary`, `_record_wallet_entry`; the ledger is a list, newest entry first
--   Decimal      the exact decimals of main.py and market_lifecycle_engine.py, as numbers of
--                ten-thousandths of a percent
--   Db           the rows of apps/web/django/markets/models.py and accounts/models.py, and the
--                queries that several handlers share
--   Position     main.py: `create_prediction`, `_apply_position_action`, `_validate_position_action`
--                and what they call; prediction_write_service.py; Bots: `_create_bot_prediction` of
--                agent_services.py
--   Lifecycle    market_lifecycle_engine.py, and the two sets of callbacks that main.py
--                (`_market_lifecycle_engine`) and daemon_services.py (`_daemon_lifecycle_engine`)
--                give it
--   Integrity    apps/api/backend_api/integrity_service.py. Merkle: `build_merkle`,
--                `verify_merkle_proof`. Store and Ledger: `append_ledger_event` with what it calls,
--                `_ledger_event_is_valid`. Audit: `_verify_integrity_ledger_segment`,
--                `verify_integrity_ledger_chain`. Checkpoints: `_checkpoint_is_valid`,
--                `ledger_checkpoint_status`, `_create_ledger_checkpoint`, `audit_integrity_ledger`;
--                History: any sequence of appends and audits. Commitments:
--                `commit_prediction`, `_user_commitment`, and Checking the commitments in
--                `verify_market_integrity_records`. Sealing: the Merkle leaves that `seal_market`
--                stores, and their check in `verify_market_integrity_records`
--   Rewards      main.py: `admin_adjust_user_wallet`, `admin_reward_suggestion`,
--                `admin_reward_feedback`, `admin_approve_wallet_recharge`,
--                `admin_reject_wallet_recharge`, on the state `Desk`: a `Db` with the three queues;
--                Requests puts their requests one after the other. Referrals:
--                `_award_referral_bonus`, on a `Db` with the codes and the bonuses
--   Daemon       daemon_services.py: `close_due_auto_markets`, and its `_record_wallet_entry` against
--                that of main.py
--   Refunds      the states that the handlers reach, as a step relation whose constructors are the
--                modelled transactions (Reachable); which entries leave a prediction refundable
--                (Entries, Rows, Wallets), handler by handler
--   Prelude      integers over native numbers, tests, results, tables
--   Examples     the theorems at concrete states
--
-- A handler is a function from the state `Db` to a `Result`: either an error, after which the
-- transaction is rolled back, or the values it returns with the new state. A loop over the rows of
-- a query is structural recursion on the list of rows that the query returned, so nothing needs
-- fuel but `build_merkle`, whose loop halves a level: as many rounds as there are leaves are enough.
-- Numbers are unbounded, as Python's are; a ledger total is an integer, since a debit may
-- exceed what is there. One transaction runs after the other: what two overlapping ones do is not
-- modelled. `SELECT … FOR UPDATE` and the advisory lock of `_lock_position_mutation` keep two of them
-- off the same position or balance; the rows of the staff's queues (`_get_suggestion`,
-- `_get_feedback`, `_get_wallet_recharge_request`) are read without a lock. The markets that the
-- daemon skips because another transaction has locked them (`SKIP LOCKED`) are a parameter.
--
-- In Integrity, SHA-256, canonical JSON, the verification of an Ed25519 signature, the signer and the
-- keys of KMS are fields of `Crypto` (and of `Hash`, for the tree). What is asked of them stands as a
-- hypothesis where it is used: a signature verifies under the signer's key (`IsSigner`), canonical
-- JSON determines the values (`IsCanonical`); instead of asking that SHA-256 has no collision, a
-- theorem returns one. The ledger has its own state `IntegrityDb`, and with the checkpoints
-- `AuditDb`; the canonical JSON of a checkpoint, and that of a commitment, is a parameter
-- of its own; the secret of the users' pseudonyms and the HMAC are in `Environment`. Rows are well
-- typed, so the exceptions that a malformed one raises do not occur. Not modelled: the market
-- definitions, the guards and the signed payload of a seal, and what else
-- `verify_market_integrity_records` checks (the definition, the seal's columns, the result).
--
-- The engine appends an event to the ledger in each transition of a market with a signed definition,
-- and signs the definition when it publishes. Whether that returns or raises is a callback,
-- `append_ledger_event` of `Engine`, as is `resolution_schedule.register`; a raise is an error of the
-- transition, and what the ledger holds is the subject of Integrity. The signed commitment of a
-- prediction, notifications and the admin log are recorded in `calls` and do nothing else here; what
-- is said of predictions is said of accepted ones, or of states after committed transactions. The
-- engine's read-only checks (publishable, approved, resolvable) are parameters. Texts, labels and time
-- zones are not modelled, nor are authentication, the editorial workflow, analytics, thumbnails, the
-- agents' choices, badges, the clean-up commands (`purge_unsigned_markets`) and the rendering of
-- responses. Python's decimal roundings are helpers.
pub mod Prelude
pub mod Wallet
pub mod Decimal
pub mod Db
pub mod Position
pub mod Lifecycle
pub mod Rewards
pub mod Integrity
pub mod Examples
pub mod Refunds
pub mod Daemon
