-- ===== src/Db/Backing.antt =====
-- The invariant that ties the wallets to the predictions: what is locked is what is staked.
use gotrendlabs.Prelude.{ℕ, ◌≤◌, ◌≡◌, none, [], ◌∷◌}
use gotrendlabs.Prelude.Int.{pos}
use gotrendlabs.Prelude.Table.{Table, lookup}
use gotrendlabs.Wallet.Consistency.{IsConsistent}
use gotrendlabs.Wallet.Effects.{locked_of}
use gotrendlabs.Db.Tables.{Db, Prediction}
use gotrendlabs.Db.Queries.{open_stakes}

-- The identity column: rows under their ids, each id once, none above the last one given out.
abbrev pub IsKeyed : ℕ → Table Prediction → Type 0
IsKeyed last [] = Unit
IsKeyed last ((k, p) ∷ t) = (k ≡ p.id) × (p.id ≤ last) × (lookup k t ≡ none) × IsKeyed last t

pub record IsBacked (db : Db) : Type 0 where
  -- the locked balance of every user is the sum of the user's stakes in open predictions
  pub backed : (u : ℕ) → locked_of u db.wallet ≡ pos (open_stakes u db.predictions)
  -- no balance row has drifted from the ledger
  pub consistent : IsConsistent db.wallet
  pub keyed : IsKeyed db.last_prediction_id db.predictions
