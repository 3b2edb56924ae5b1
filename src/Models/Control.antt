-- ===== src/Models/Control.antt =====
-- models/control.py: the control intents that a human's message is compiled to.
use graph_engineering.Prelude.{
  ℕ, String, Bool, true, false, not, ◌&&◌, Option, Checked, require, value_error, ◌>>◌, is_some,
  is_none,
}
use graph_engineering.Models.Common.{RestartFrom}

pub data QueryAction : Type 0 where
  query_progress query_risk query_evidence : QueryAction

pub data StateChangeAction : Type 0 where
  pause resume interrupt revise restart accept reject : StateChangeAction

pub record QueryControlIntent : Type 0 where
  pub intent_id : String
  pub run_id : String
  pub action : QueryAction

pub record StateChangeControlIntent : Type 0 where
  pub intent_id : String
  pub run_id : String
  pub action : StateChangeAction
  pub proposed_contract_revision : Option ℕ
  pub restart_from : Option RestartFrom

is_restart : StateChangeAction → Bool
is_restart restart = true
is_restart _ = false

is_revise : StateChangeAction → Bool
is_revise revise = true
is_revise _ = false

unfoldable pub action_specific_fields : StateChangeControlIntent → Checked
unfolding is_restart is_revise
action_specific_fields i = do
  require (not (is_restart i.action && is_none i.restart_from))
      (value_error "restart_from is required for restart")
  require (not (not (is_restart i.action) && is_some i.restart_from))
      (value_error "restart_from is only allowed for restart")
  require (not (is_revise i.action && is_none i.proposed_contract_revision))
      (value_error "proposed_contract_revision is required for revise")
  require (not (not (is_revise i.action) && is_some i.proposed_contract_revision))
      (value_error "proposed_contract_revision is only allowed for revise")

-- IntentValue: the two kinds of intent, told apart by `intent_kind`.
pub data ControlIntent : Type 0 where
  query : QueryControlIntent → ControlIntent
  state_change : StateChangeControlIntent → ControlIntent

pub data ControlOutcome : Type 0 where
  applied rejected no_op error : ControlOutcome
