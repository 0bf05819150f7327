-- ===== src/Tests/Agent.antt =====
-- Concrete configurations and attempts for the theorems on cmd/aclagent.
use acl_edit_only.Base.{◌≡◌, refl, ◌⊎◌, ◌↔◌, false, none, List, [], ◌++◌, leb, if◌then◌else◌}
use acl_edit_only.Base.Text.{Bytes, codes, str_eq}
use acl_edit_only.Base.Int.{pos}
use acl_edit_only.Base.Result.{ok, done}
use acl_edit_only.Plan.{Plan, op_delete, action_permit}
use acl_edit_only.Device.Session.{Transport, fault, Auth}
use acl_edit_only.Agent.Config.{AgentConfig, with_limits, validate}
use acl_edit_only.Agent.Config.Bound.{Window, validate_iff}
use acl_edit_only.Agent.Guard.{AgentState}
use acl_edit_only.Agent.Guard.Quota.{let_through, let_through_lem}
use acl_edit_only.Agent.Run.{Host, do_apply}
use acl_edit_only.Core.Request.{WebConfig}
use acl_edit_only.Core.Binding.{assert_binding}
use acl_edit_only.Core.Binding.Told.{SameBinding, do_apply-assert_binding}
use acl_edit_only.Agent.Run.Checked.{Stopped, CarriedOut, do_apply_checked}

abbrev config : AgentConfig
config = record {
  acl = pos 3000;
  range_min = pos 100;
  range_max = pos 199;
  alloc_max = pos 150;
  credential_file = codes "credential";
  device_addr = codes "10.0.0.2:23";
  connect_timeout = pos 10;
  read_timeout = pos 30;
  daily_limit = pos 50;
  plan_dir = codes "plans";
  state_file = codes "agent-state.json";
  config_sha256 = [];
}

validate_iff_example :
    (validate config ≡ ok config) ↔ (Window config × (config ≡ with_limits config))
validate_iff_example = validate_iff config config

abbrev yesterday : AgentState
yesterday = record { date = codes "2026-01-01"; count = pos 50 }

another_day : str_eq (codes "2026-01-01") (codes "2026-01-02") ≡ false
unfolding str_eq
another_day = refl

let_through_lem_example :
    let_through (pos 2) (codes "2026-01-02") 5 yesterday ≡ (if leb 5 2 then 5 else 2)
let_through_lem_example = let_through_lem 2 5 (codes "2026-01-02") yesterday another_day

abbrev deletion : Plan
deletion = record {
  request_id = codes "REQ-20260101-0001";
  op = op_delete;
  rule_id = pos 100;
  action = action_permit;
  protocol = [];
  src = none;
  dst = none;
  src_port = none;
  dst_port = none;
  comment = [];
  expect_count_before = pos 1;
}

-- a host that holds one plan file, and a device that does not answer
abbrev host : Host AgentState
host = record {
  read_file = λ path w. ok (codes "{}");
  load_state = λ path w. w;
  save_state = λ path st w. (none, st);
  today = λ w. codes "2026-01-02";
  join = λ dir name. dir ++ (codes "/" ++ name);
  sha256 = λ raw. raw;
  decode = λ raw. (none, deletion);
}

abbrev device : Transport (List Bytes)
device = record {
  connect = λ c. (none, c);
  send = λ txt c. (none, c);
  read_until = λ ps c. (fault [] (codes "timeout waiting for prompt"), c);
  read_until_re = λ ps c. (fault [] (codes "timeout waiting for prompt"), c);
}

abbrev login : Auth
login = record { username = []; password = codes "secret" }

do_apply_checked_example :
    Stopped device host config login
      (codes "REQ-20260101-0001")
      (codes "{}")
      (do_apply device host config login (codes "REQ-20260101-0001") (codes "{}") yesterday [])
    ⊎ CarriedOut device host config login
        (codes "REQ-20260101-0001")
        (codes "{}")
        []
        (do_apply device host config login (codes "REQ-20260101-0001") (codes "{}") yesterday [])
do_apply_checked_example =
    do_apply_checked device host config login (codes "REQ-20260101-0001") (codes "{}") yesterday []

abbrev web : WebConfig
web = record { acl = pos 3000; range_min = pos 100; range_max = pos 199; alloc_max = pos 150 }

do_apply-assert_binding_example :
    (assert_binding web
        (do_apply device host config login (codes "REQ-20260101-0001") (codes "{}") yesterday []).0
      ≡ done)
    ↔ SameBinding web config
do_apply-assert_binding_example =
    do_apply-assert_binding device host web config login (codes "REQ-20260101-0001") (codes "{}")
      yesterday []
