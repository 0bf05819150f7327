-- ===== src/Tests/Service.antt =====
-- Concrete calls of the service of internal/aclweb/core, with an agent that adds rule 101 on its
-- second run.
use acl_edit_only.Base.{
  ℕ, ◌+◌, ◌-◌, ◌≡◌, ◌≢◌, refl, ◌↔◌, true, false, none, some, List, [], ◌∷◌, ◌++◌, length, drop, leb,
  ltb, if◌then◌else◌,
}
use acl_edit_only.Base.Text.{Bytes, codes, str_eq, join, split, trim_space, has_prefix}
use acl_edit_only.Base.Decimal.{atoi, itoa_int}
use acl_edit_only.Base.Regex.{find, find_all_groups, matches, remove_all}
use acl_edit_only.Aclout.{count, header_count, rule_ids}
use acl_edit_only.Core.Artifacts.{rule_exists_in_snapshot, rule_id_of_line}
use acl_edit_only.Core.Binding.{assert_binding}
use acl_edit_only.Core.Verify.{
  verify_change, significant_lines, fingerprint_raw, bytes_leb, neutralize_rule_count, fields,
}
use acl_edit_only.Base.Int.{pos}
use acl_edit_only.Base.Result.{Result, ok, err, done}
use acl_edit_only.Plan.{Plan, success, no_stage}
use acl_edit_only.Core.Rows.{
  ChangeRequest, ChangeArtifact, User, Db, RequestState, pending, rejected, dispatching, active,
  add_rule,
}
use acl_edit_only.Core.Request.{SubmitRequest, WebConfig, normalize, plan_of, can_dispatch}
use acl_edit_only.Core.Spawn.{Machine, ServiceConfig, Reply, tail_of, run_snapshot}
use acl_edit_only.Core.PlanFile.{update_plan_expect_count, plan_file_sha}
use acl_edit_only.Core.Spawn.Tail.{concat, tail_of_lem}
use acl_edit_only.Core.Service.{State}
use acl_edit_only.Core.Submit.{submit}
use acl_edit_only.Core.Submit.Chain.{Submission, submit_chained}
use acl_edit_only.Core.Dispatch.{dispatch_stream}
use acl_edit_only.Core.Dispatch.Settles.{Told}
use acl_edit_only.Core.Dispatch.Moves.{Untouched}
use acl_edit_only.Core.Dispatch.Ended.{dispatch_stream_settles}
use acl_edit_only.Core.Dispatch.Proved.{Proved, dispatch_stream-Proved}
use acl_edit_only.Core.Reconcile.{reconcile_rules}
use acl_edit_only.Core.Reconcile.Compared.{Compared, reconcile_rules_iff}
use acl_edit_only.Core.Life.{Follows, state_in}
use acl_edit_only.Core.History.{Call, dispatches, rejects_id, calls, calls_evolve, calls_final}
use acl_edit_only.Tests.Web.{before, later}

abbrev web : WebConfig
web = record { acl = pos 3000; range_min = pos 100; range_max = pos 199; alloc_max = pos 199 }

abbrev config : ServiceConfig
config = record {
  web = web;
  agent_bin = codes "aclagent";
  agent_cfg = codes "aclagent.json";
  plan_dir = codes "plans";
  rule_comment = false;
}

abbrev reply : Bytes → Reply
reply raw = record {
  response = record {
    result = success;
    stage = no_stage;
    raw = raw;
    bound_acl = pos 3000;
    bound_range_min = pos 100;
    bound_range_max = pos 199;
    bound_alloc_max = pos 199;
    config_sha256 = [];
    agent_version = [];
  };
  detail = [];
}

abbrev wanted : SubmitRequest
wanted = record {
  protocol = codes "udp";
  src_ip = [];
  src_wildcard = [];
  src_port_op = [];
  src_port_val = pos 0;
  dst_ip = codes "10.0.0.1";
  dst_wildcard = codes "0.0.0.0";
  dst_port_op = codes "eq";
  dst_port_val = pos 53;
  reason = codes "names";
}

abbrev some_plan : Plan
some_plan = plan_of (codes "REQ-20260102-0001") (pos 101) [] (pos 1) wanted

abbrev answer : Bytes → Result Bytes Reply
answer [] = err []
answer (n ∷ out) = ok (reply (if leb n 1 then before else later))

-- the world is the number of runs of the agent
abbrev machine : Machine ℕ
machine = record {
  ctx_open = λ n. leb n 9;
  now = λ n. 1000 + n;
  today = λ n. codes "20260102";
  exec = λ args n. (record { out = n ∷ []; stderr = []; failed = none }, n + 1);
  unmarshal_response = answer;
  marshal_plan = λ p. ok p.request_id;
  unmarshal_plan = λ b. ok some_plan;
  sha256 = λ b. b;
  join = λ d f. d ++ (codes "/" ++ f);
  read_file = λ f n. ok (codes "plan");
  make_dir = λ d n. (done, n);
  write_file = λ f b n. (done, n);
  rename = λ f g n. (done, n);
  remove = λ f n. n;
}

abbrev operator : User
operator = record { id = 1; username = codes "op"; role = codes "operator"; active = true }

abbrev row : RequestState → ChangeRequest
row st = record {
  id = 1;
  request_code = codes "REQ-20260102-0001";
  action = add_rule;
  requester_id = 1;
  approver_id = none;
  state = st;
  approve_comment = [];
  wanted = wanted;
  rule_id = pos 101;
  approved_at = none;
  dispatched_at = none;
}

abbrev stored : ChangeArtifact
stored = record {
  request_id = 1;
  snapshot_before_id = 1;
  old_config = before;
  new_config = later;
  diff_text = [];
  plan_json = codes "plan";
  old_sha256 = [];
  new_sha256 = [];
  diff_sha256 = [];
  plan_sha256 = [];
}

abbrev tables : RequestState → Db
tables st = record {
  requests = row st ∷ [];
  last_request = 1;
  artifacts = stored ∷ [];
  snapshots = [];
  last_snapshot = 0;
  runs = [];
  audit_logs = [];
}

abbrev at : RequestState → State ℕ
at st = record { db = tables st; world = 0 }

executed : (dispatch_stream machine config true operator 1 (at pending)).0 ≡ done
unfolding dispatch_stream can_dispatch str_eq assert_binding fingerprint_raw join split trim_space
    bytes_leb count header_count find atoi rule_ids find_all_groups update_plan_expect_count
    plan_file_sha verify_change significant_lines rule_exists_in_snapshot has_prefix itoa_int
    rule_id_of_line neutralize_rule_count matches fields remove_all
executed = refl

dispatch_stream-Proved_example : Proved machine config true operator 1 (at pending)
dispatch_stream-Proved_example =
    dispatch_stream-Proved machine config true operator 1 (at pending) executed

open_at_end :
    machine.ctx_open (dispatch_stream machine config true operator 1 (at pending)).1.world ≡ true
unfolding dispatch_stream can_dispatch str_eq assert_binding fingerprint_raw join split trim_space
    bytes_leb count header_count find atoi rule_ids find_all_groups update_plan_expect_count
    plan_file_sha verify_change significant_lines rule_exists_in_snapshot has_prefix itoa_int
    rule_id_of_line neutralize_rule_count matches fields remove_all
open_at_end = refl

dispatch_stream_settles_example :
    Told
      (dispatch_stream machine config true operator 1 (at pending)).0
      (state_in 1 (at pending).db.requests)
      (state_in 1 (dispatch_stream machine config true operator 1 (at pending)).1.db.requests)
    × ((k : ℕ)
        → k ≢ 1
        → Untouched (state_in k (at pending).db.requests) (
            state_in k (dispatch_stream machine config true operator 1 (at pending)).1.db.requests))
    × ((k : ℕ)
        → state_in k (at pending).db.requests ≢ some dispatching
        → state_in k (dispatch_stream machine config true operator 1 (at pending)).1.db.requests
          ≢ some dispatching)
dispatch_stream_settles_example =
    dispatch_stream_settles machine config true operator 1 (at pending) open_at_end

abbrev history : List (Call × ℕ)
history = (dispatches true operator 1, 0) ∷ (rejects_id operator 1 [], 5) ∷ []

calls_evolve_example :
    Follows
      (state_in 1 (at pending).db.requests)
      (state_in 1 (calls machine config history (at pending)).db.requests)
calls_evolve_example = calls_evolve machine config history (at pending) 1

is_rejected : state_in 1 (at rejected).db.requests ≡ some rejected
unfolding state_in
is_rejected = refl

calls_final_example :
    state_in 1 (calls machine config history (at rejected)).db.requests ≡ some rejected
calls_final_example =
    calls_final machine config history (at rejected) 1 rejected refl refl is_rejected

submit_chained_example :
    Submission machine config operator
      (normalize wanted)
      (at active)
      (submit machine config operator wanted (at active))
submit_chained_example = submit_chained machine config operator wanted (at active)

reconcile_rules_iff_example :
    (((reconcile_rules machine config (at active)).0 ≡ done)
      ↔ Compared machine config (run_snapshot machine config (at active).world) (at active).db)
    × ((reconcile_rules machine config (at active)).1.db.requests ≡ (at active).db.requests)
reconcile_rules_iff_example = reconcile_rules_iff machine config (at active)

abbrev writes : List Bytes
writes = codes "first " ∷ codes "second" ∷ []

tail_of_lem_example :
    (tail_of 4 [] writes ≡ drop (length (concat writes) - 4) (concat writes))
    × (length (tail_of 4 [] writes)
        ≡ (if ltb 4 (length (concat writes)) then 4 else length (concat writes)))
tail_of_lem_example = tail_of_lem 4 writes
