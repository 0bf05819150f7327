-- ===== src/Core/Request.antt =====
-- internal/aclweb/core/core.go: a submitted request, the plan that `Submit` makes of it, the roles, and
-- the test that the agent is bound to the same ACL.
pub mod Ports
use acl_edit_only.Base.{
  ℕ, ◌-◌, ◌%◌, ◌^◌, Bool, true, false, not, ◌&&◌, ◌||◌, Option, none, some, List, [], ◌∷◌, ◌++◌,
  if◌then◌else◌,
}
use acl_edit_only.Base.Text.{Bytes, codes, str_eq, to_lower, trim_space}
use acl_edit_only.Base.Int.{ℤ, pos, negsuc, eq_ℤ}
use acl_edit_only.Plan.{Plan, AddrMask, PortCond, op_add, op_delete, action_permit}

-- `WebConfig`, as far as it mirrors the binding of the agent
pub record WebConfig : Type 0 where
  pub acl : ℤ
  pub range_min : ℤ
  pub range_max : ℤ
  pub alloc_max : ℤ

pub record SubmitRequest : Type 0 where
  pub protocol : Bytes
  pub src_ip : Bytes
  pub src_wildcard : Bytes
  pub src_port_op : Bytes
  pub src_port_val : ℤ
  pub dst_ip : Bytes
  pub dst_wildcard : Bytes
  pub dst_port_op : Bytes
  pub dst_port_val : ℤ
  pub reason : Bytes

abbrev pub host_wildcard : Bytes
host_wildcard = codes "0.0.0.0"

-- the wildcard of an address that has none
abbrev pub or_host : Bytes → Bytes → Bytes
or_host ip wildcard = if not (str_eq ip []) && str_eq wildcard [] then host_wildcard else wildcard

-- a port operator without a number is no condition
abbrev pub op_of : Bytes → ℤ → Bytes
op_of op val = if eq_ℤ val (pos 0) then [] else op

-- the number of an operator that is none
abbrev pub val_of : Bytes → ℤ → ℤ
val_of op val = if str_eq op [] then pos 0 else val

-- `normalize`
unfoldable pub normalize : SubmitRequest → SubmitRequest
normalize r =
    let src_ip = trim_space r.src_ip in
    let dst_ip = trim_space r.dst_ip in
    let src_op = op_of r.src_port_op r.src_port_val in
    let dst_op = op_of r.dst_port_op r.dst_port_val in
    record r {
      protocol = to_lower (trim_space r.protocol);
      src_ip = src_ip;
      dst_ip = dst_ip;
      src_wildcard = or_host src_ip (trim_space r.src_wildcard);
      dst_wildcard = or_host dst_ip (trim_space r.dst_wildcard);
      src_port_op = src_op;
      dst_port_op = dst_op;
      src_port_val = val_of src_op r.src_port_val;
      dst_port_val = val_of dst_op r.dst_port_val;
    }

-- the conversion `uint16(v)`
unfoldable pub uint16 : ℤ → ℕ
uint16 (pos n) = n % 2 ^ 16
uint16 (negsuc n) = 2 ^ 16 - 1 - n % 2 ^ 16

unfoldable pub port_of : Bytes → ℤ → Option PortCond
unfolding uint16
port_of op val =
    if not (str_eq op [])
    then some (record { op = op; value = uint16 val; low = 0; high = 0 })
    else none

unfoldable pub src_of : Bytes → Bytes → Option AddrMask
src_of ip wildcard =
    if not (str_eq ip []) then some (record { ip = ip; wildcard = wildcard }) else none

-- the plan of `Submit`, for a request that is normalized
unfoldable pub plan_of : Bytes → ℤ → Bytes → ℤ → SubmitRequest → Plan
unfolding port_of src_of
plan_of code rule_id comment expect_count req = record {
  request_id = code;
  op = op_add;
  rule_id = rule_id;
  action = action_permit;
  protocol = req.protocol;
  src = src_of req.src_ip req.src_wildcard;
  dst = some (record { ip = req.dst_ip; wildcard = req.dst_wildcard });
  src_port = port_of req.src_port_op req.src_port_val;
  dst_port = port_of req.dst_port_op req.dst_port_val;
  comment = comment;
  expect_count_before = expect_count;
}

-- the plan of `SubmitDelete`
unfoldable pub delete_plan_of : Bytes → ℤ → ℤ → Plan
delete_plan_of code rule_id expect_count = record {
  request_id = code;
  op = op_delete;
  rule_id = rule_id;
  action = action_permit;
  protocol = [];
  src = none;
  dst = none;
  src_port = none;
  dst_port = none;
  comment = [];
  expect_count_before = expect_count;
}

abbrev role_is : Bytes → Bytes → Bool
role_is role name = str_eq role name

-- `canSubmit`, `canApprove` and `canDispatch`
unfoldable pub can_submit : Bytes → Bool
can_submit role =
    role_is role (codes "admin")
    || role_is role (codes "approver")
    || role_is role (codes "operator")

unfoldable pub can_approve : Bytes → Bool
can_approve role = role_is role (codes "admin") || role_is role (codes "approver")

unfoldable pub can_dispatch : Bytes → Bool
can_dispatch role = role_is role (codes "admin") || role_is role (codes "operator")
