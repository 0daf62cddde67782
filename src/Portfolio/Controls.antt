-- ===== src/Portfolio/Controls.antt =====
-- backend/app/portfolio/controls.py: the operator's switches. Sets are lists of texts.
use meme_agent.Base.{String, Bool, List}

pub record ControlState : Type 0 where
  pub emergency_stop : Bool
  pub global_pause : Bool
  pub paused_strategies : List String
  pub paused_chains : List String
  pub blacklisted_tokens : List String
  pub blacklisted_creators : List String
  pub blacklisted_launchpads : List String
