-- ===== src/Position/Config.antt =====
-- `_position_config`: the configured values over POSITION_CONFIG_DEFAULTS.
use gotrendlabs.Prelude.{ℕ, Bool, true, Option, none, some, ◌==◌, if◌then◌else◌}
use gotrendlabs.Db.{SiteConfig}

pub record PositionConfig : Type 0 where
  pub reinforcement_enabled : Bool
  pub reinforcement_max_count : ℕ
  pub revision_enabled : Bool
  pub revision_max_count : ℕ
  pub revision_cutoff_hours : ℕ
  pub revision_penalty_percent : ℕ
  pub reinforcement_min_gtl : ℕ
  pub revision_min_remaining_gtl : ℕ

-- POSITION_CONFIG_DEFAULTS
abbrev pub position_config_defaults : PositionConfig
position_config_defaults = record {
  reinforcement_enabled = true;
  reinforcement_max_count = 3;
  revision_enabled = true;
  revision_max_count = 1;
  revision_cutoff_hours = 24;
  revision_penalty_percent = 20;
  reinforcement_min_gtl = 1;
  revision_min_remaining_gtl = 1;
}

abbrev configured {ℓ} : {A : Type ℓ} → Option A → A → A
configured none default = default
configured (some v) default = v

-- `int(value or 1)`
abbrev or_one : ℕ → ℕ
or_one n = if n == 0 then 1 else n

unfoldable pub position_config : Option SiteConfig → PositionConfig
position_config none = position_config_defaults
position_config (some row) =
    let d = position_config_defaults in
    record {
      reinforcement_enabled = configured row.position_reinforcement_enabled d.reinforcement_enabled;
      reinforcement_max_count =
          configured row.position_reinforcement_max_count d.reinforcement_max_count;
      revision_enabled = configured row.position_revision_enabled d.revision_enabled;
      revision_max_count = configured row.position_revision_max_count d.revision_max_count;
      revision_cutoff_hours = configured row.position_revision_cutoff_hours d.revision_cutoff_hours;
      revision_penalty_percent =
          configured row.position_revision_penalty_percent d.revision_penalty_percent;
      reinforcement_min_gtl =
          or_one (configured row.position_reinforcement_min_gtl d.reinforcement_min_gtl);
      revision_min_remaining_gtl =
          or_one (configured row.position_revision_min_remaining_gtl d.revision_min_remaining_gtl);
    }
