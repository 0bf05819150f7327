-- ===== src/Plan/Validate/Admits.antt =====
-- Exactly which plans `ValidateForAgent` of internal/h3c/plan/validate.go admits.
use acl_edit_only.Base.{◌≡◌, ◌⊎◌, ◌↔◌, arith}
use acl_edit_only.Base.Text.{str_eq_iff}
use acl_edit_only.Base.Int.{ℤ, ◌≤ℤ◌}
use acl_edit_only.Base.Result.{done}
use acl_edit_only.Plan.{Plan, op_snapshot, op_add, op_delete, op_rollback, action_permit}
use acl_edit_only.Plan.Validate.{validate_rule_fields, validate_for_agent}

-- what is asked of a plan that changes the device
pub record Admitted (p : Plan) (range_min range_max alloc_max : ℤ) : Type 0 where
  pub known : (p.op ≡ op_add) ⊎ (p.op ≡ op_delete) ⊎ (p.op ≡ op_rollback)
  pub above : range_min ≤ℤ p.rule_id
  pub below : p.rule_id ≤ℤ range_max
  pub allocated : p.op ≡ op_add → p.rule_id ≤ℤ alloc_max
  pub permits : p.op ≡ op_add → p.action ≡ action_permit
  pub fields : p.op ≡ op_add → validate_rule_fields p ≡ done

-- A plan is admitted exactly if it is a snapshot, or its operation is add, delete or rollback, its
-- rule id lies within the legal range, and, for an add, the id does not pass the allocation limit, the
-- action is permit and the match fields are valid.
pub validate_for_agent_iff :
    (p : Plan) (range_min range_max alloc_max : ℤ)
    → (validate_for_agent p range_min range_max alloc_max ≡ done)
      ↔ ((p.op ≡ op_snapshot) ⊎ Admitted p range_min range_max alloc_max)
unfolding validate_for_agent
validate_for_agent_iff p range_min range_max alloc_max = ground (
  arith,
  str_eq_iff p.op op_snapshot,
  str_eq_iff p.op op_add,
  str_eq_iff p.op op_delete,
  str_eq_iff p.op op_rollback,
  str_eq_iff p.action action_permit,
)
