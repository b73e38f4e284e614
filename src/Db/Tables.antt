-- ===== src/Db/Tables.antt =====
-- The rows.
use gotrendlabs.Prelude.{ℕ, Bool, Option, List}
use gotrendlabs.Prelude.Table.{Table}
use gotrendlabs.Wallet.{Wallet}

-- Market.status; `opened` is the source's "open".
pub data MarketStatus : Type 0 where
  draft scheduled opened locked resolved sealed canceled : MarketStatus

pub MarketStatus-discrete : Discrete MarketStatus
MarketStatus-discrete = hlevel

pub record Market : Type 0 where
  pub id : ℕ
  pub slug : ℕ
  pub status : MarketStatus
  pub close_at : Option ℕ
  pub auto_close_enabled : Bool
  pub is_featured : Bool
  pub winning_option_id : Option ℕ
  pub published_at : Option ℕ
  pub resolved_at : Option ℕ
  pub seal_due_at : Option ℕ
  pub canceled_at : Option ℕ
  pub updated_by_id : Option ℕ
  pub updated_at : ℕ

-- MarketOption; the rows are held in display order.
pub record MarketOption : Type 0 where
  pub id : ℕ
  pub market_id : ℕ
  pub probability_exact : ℕ

-- Prediction.action_type
pub data ActionType : Type 0 where
  initial reinforcement revision : ActionType

-- Prediction.status; `opened` is the source's "open".
pub data PredictionStatus : Type 0 where
  opened resolved canceled revised : PredictionStatus

pub record Prediction : Type 0 where
  pub id : ℕ
  pub user_id : ℕ
  pub market_id : ℕ
  pub market_option_id : ℕ
  pub action_type : ActionType
  pub position_sequence : ℕ
  pub stake_amount : ℕ
  pub probability_at_entry : ℕ
  pub weight_at_entry : ℕ
  pub potential_payout : ℕ
  pub status : PredictionStatus
  pub won : Option Bool
  pub superseded_by_id : Option ℕ
  pub superseded_at : Option ℕ
  pub created_at : ℕ
  pub updated_at : ℕ

pub record User : Type 0 where
  pub is_bot : Bool
  pub is_staff : Bool
  pub is_superuser : Bool

pub record Reputation : Type 0 where
  pub reputation_score : ℕ
  pub resolved_predictions_count : ℕ
  pub accuracy_indicator : ℕ
  pub streak : ℕ

-- The columns of SiteConfig that the handlers read. A missing row and a NULL both mean the default.
pub record SiteConfig : Type 0 where
  pub position_reinforcement_enabled : Option Bool
  pub position_reinforcement_max_count : Option ℕ
  pub position_revision_enabled : Option Bool
  pub position_revision_max_count : Option ℕ
  pub position_revision_cutoff_hours : Option ℕ
  pub position_revision_penalty_percent : Option ℕ
  pub position_reinforcement_min_gtl : Option ℕ
  pub position_revision_min_remaining_gtl : Option ℕ
  pub market_seal_window_hours : Option ℕ

-- Calls into the parts that are not modelled, in the order in which they were made, newest first.
pub data Call : Type 0 where
  commit_prediction : ℕ → Call
  notify_participants notify_resolved notify_locked on_market_resolved : ℕ → Call
  register_market_definition register_schedule record_publication : ℕ → Call
  admin_publish admin_cancel admin_resolve admin_lock admin_resolution_undo : ℕ → Call
  integrity_canceled integrity_resolution_undone integrity_resolved integrity_locked : ℕ → Call

pub record Db : Type 0 where
  pub wallet : Wallet
  pub predictions : Table Prediction
  pub last_prediction_id : ℕ
  pub markets : Table Market
  pub options : List MarketOption
  pub users : Table User
  pub reputations : Table Reputation
  pub site_config : Option SiteConfig
  -- the markets with a row in market_integrity_definitions
  pub definitions : List ℕ
  pub calls : List Call
