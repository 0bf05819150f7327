-- ===== src/Plan.antt =====
-- internal/h3c/plan/plan.go: the plan that the web side writes and the agent reads, and the agent's
-- response. A string type of the source is the text itself; a pointer field is an option.
pub mod Address
pub mod Wildcard
pub mod Validate
use acl_edit_only.Base.{ℕ, Option}
use acl_edit_only.Base.Text.{Bytes, codes}
use acl_edit_only.Base.Int.{ℤ}

abbrev pub op_snapshot : Bytes
op_snapshot = codes "snapshot"

abbrev pub op_add : Bytes
op_add = codes "add"

abbrev pub op_delete : Bytes
op_delete = codes "delete"

abbrev pub op_rollback : Bytes
op_rollback = codes "rollback"

abbrev pub action_permit : Bytes
action_permit = codes "permit"

pub record AddrMask : Type 0 where
  pub ip : Bytes
  pub wildcard : Bytes

-- `value`, `low` and `high` are of type uint16
pub record PortCond : Type 0 where
  pub op : Bytes
  pub value : ℕ
  pub low : ℕ
  pub high : ℕ

pub record Plan : Type 0 where
  pub request_id : Bytes
  pub op : Bytes
  pub rule_id : ℤ
  pub action : Bytes
  pub protocol : Bytes
  pub src : Option AddrMask
  pub dst : Option AddrMask
  pub src_port : Option PortCond
  pub dst_port : Option PortCond
  pub comment : Bytes
  pub expect_count_before : ℤ

pub data Stage : Type 0 where
  no_stage connect auth view write comment save quit : Stage

pub data AgentResult : Type 0 where
  success plan_rejected guard_failed connect_failed auth_failed timeout prompt_mismatch :
      AgentResult
  device_error rolled_back save_failed inconsistent : AgentResult
