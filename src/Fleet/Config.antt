-- ===== src/Fleet/Config.antt =====
-- fleet/src/mnemosyne_fleet/config.py: the enrolled nodes and the logical models. A routing weight is
-- a whole number of 10⁻⁹, a timeout of ticks.
use mnemosyne_inference.Prelude.{ℕ, String, Option, List}

pub record NodeConfig : Type 0 where
  pub node_id : String
  pub url : String
  pub fleet_token : String
  pub inference_token : String
  pub routing_weight : Option ℕ

pub record ModelConfig : Type 0 where
  pub name : String
  pub deployment_id : String
  pub capabilities : List String
  pub queue_depth : ℕ
  pub queue_timeout : ℕ
