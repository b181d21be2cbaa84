-- ===== src/Types/Run.antt =====
-- `RunStatus`, `ApprovalRequest` and `RunState` of flowers/types.py. Times and amounts are whole.
use flowers_oss.Base.{ℕ, Bool, Option, List}
use flowers_oss.Base.Text.{Text}
use flowers_oss.Base.Value.{Fields}

pub data RunStatus : Type 0 where
  pending clarifying planning awaiting_go running waiting : RunStatus
  awaiting_approval awaiting_connect done escalated stopped : RunStatus

-- A question to the owner with all the fields of `ApprovalRequest`.
pub record Question : Type 0 where
  pub run_id : Text
  pub kind : Text
  pub prompt : Text
  pub options : List Text
  pub tier : Option Text
  pub effect_label : Text
  pub reason_code : Text
  pub subject_keys : List Text
  pub id : Text
  pub ts : ℕ

pub record RunState : Type 0 where
  pub run_id : Text
  pub goal_text : Text
  pub budget_usd : ℕ
  pub status : RunStatus
  pub replans : ℕ
  pub dag_replans : ℕ
  pub spent_usd : ℕ
  pub pending_approval : Option Question
  pub mandate : Fields
  pub mandate_counts : Fields
  pub mandate_auto : Bool
  pub fast_path : Bool
  pub deadline_ts : Option ℕ
  pub created_at : ℕ
  pub updated_at : ℕ
