-- ===== src/Agent/Run.antt =====
-- cmd/aclagent/main.go: the three operations of the agent. The files, the clock, crypto/sha256 and
-- encoding/json are parameters. The text `detail` of a response is left out.
pub mod Checked
use acl_edit_only.Base.{
  ℕ, Bool, true, false, not, ◌||◌, Option, none, some, List, [], ◌∷◌, ◌++◌, leb, ltb, length, take,
  if◌then◌else◌,
}
use acl_edit_only.Base.Text.{Bytes, codes, str_eq}
use acl_edit_only.Base.Int.{ℤ, ltb_ℤ}
use acl_edit_only.Base.Result.{Result, ok, err, Check, done, fail_if, map_err, ◌>>=◌, ◌>>◌}
use acl_edit_only.Plan.{
  Plan, Stage, no_stage, connect, save, AgentResult, success, plan_rejected, guard_failed,
  rolled_back, op_delete,
}
use acl_edit_only.Plan.Validate.{Invalid, validate_request_id, validate_for_agent}
use acl_edit_only.Device.Session.{Transport, Session, M, Auth, GoError, open_session}
use acl_edit_only.Device.Ops.{apply, remove, rollback, snapshot}
use acl_edit_only.Agent.Config.{AgentConfig}
use acl_edit_only.Agent.Guard.{AgentState, check_and_increment_quota, absolute_guard}
use acl_edit_only.Agent.Faults.{result_from_se, stage_from_se}

-- What the agent has of its host, whose state is of type `W`. `read_file` opens and reads a file;
-- `load_state` and `save_state` read and write the quota; `decode` gives the plan that it could read,
-- and its error.
pub record Host (W : Type 0) : Type 0 where
  pub read_file : Bytes → W → Result Bytes Bytes
  pub load_state : Bytes → W → AgentState
  pub save_state : Bytes → AgentState → W → Option Bytes × W
  pub today : W → Bytes
  pub join : Bytes → Bytes → Bytes
  pub sha256 : Bytes → Bytes
  pub decode : Bytes → Option Bytes × Plan

-- `Response`, with `fillBinding`
pub record Response : Type 0 where
  pub result : AgentResult
  pub stage : Stage
  pub raw : Bytes
  pub bound_acl : ℤ
  pub bound_range_min : ℤ
  pub bound_range_max : ℤ
  pub bound_alloc_max : ℤ
  pub config_sha256 : Bytes
  pub agent_version : Bytes

abbrev agent_version_text : Bytes
agent_version_text = codes "0.5.6"

-- `writeResponse` and, where `raw` is empty, `writeFailResponse`
unfoldable pub respond : AgentConfig → AgentResult → Stage → Bytes → Response
respond cfg result stage raw = record {
  result = result;
  stage = stage;
  raw = raw;
  bound_acl = cfg.acl;
  bound_range_min = cfg.range_min;
  bound_range_max = cfg.range_max;
  bound_alloc_max = cfg.alloc_max;
  config_sha256 = cfg.config_sha256;
  agent_version = agent_version_text;
}

pub data PlanError : Type 0 where
  bad_request_id : Invalid → PlanError
  unread : Bytes → PlanError
  too_large : PlanError
  sha_mismatch : Bytes → PlanError
  undecodable : Bytes → PlanError

abbrev pub decoded : Option Bytes × Plan → Result PlanError Plan
decoded (none, p) = ok p
decoded (some e, p) = err (undecodable e)

-- `NewSession`, on a connection that is not open yet
abbrev pub new_session : {C : Type 0} → AgentConfig → C → Session C
new_session cfg conn = record {
  conn = conn;
  acl_num = cfg.acl;
  raw_buf = [];
  in_auth = false;
  acl_prompt = [];
  sent = [];
}

module _ {W : Type 0} (host : Host W) where
  pub plan_path : AgentConfig → Bytes → Bytes
  plan_path cfg request_id = host.join cfg.plan_dir (request_id ++ codes ".json")

  -- `loadPlanFile`
  unfoldable pub load_plan_file : AgentConfig → Bytes → W → Result PlanError Plan
  unfolding plan_path
  load_plan_file cfg request_id w = do
    map_err bad_request_id (validate_request_id request_id)
    raw ← map_err unread (host.read_file (plan_path cfg request_id) w)
    fail_if (ltb 4096 (length raw)) too_large
    decoded (host.decode raw)

  -- `loadAndVerifyPlan`: no more than 8192 bytes are read
  unfoldable pub load_and_verify_plan : AgentConfig → Bytes → Bytes → W → Result PlanError Plan
  unfolding plan_path
  load_and_verify_plan cfg request_id want_sha w = do
    map_err bad_request_id (validate_request_id request_id)
    file ← map_err unread (host.read_file (plan_path cfg request_id) w)
    fail_if (leb 8192 (length (take 8192 file))) too_large
    fail_if (not (str_eq (host.sha256 (take 8192 file)) want_sha))
        (sha_mismatch (host.sha256 (take 8192 file)))
    decoded (host.decode (take 8192 file))

  -- the checks of `doApply` behind the quota
  unfoldable pub admit : AgentConfig → Bytes → Bytes → W → Result AgentResult Plan
  admit cfg request_id want_sha w = do
    p ← map_err (λ e. plan_rejected) (load_and_verify_plan cfg request_id want_sha w)
    map_err (λ e. guard_failed) (validate_for_agent p cfg.range_min cfg.range_max cfg.alloc_max)
    map_err (λ e. guard_failed) (absolute_guard p)
    ok p

  -- `checkAndIncrementQuota`, with its files: whether the attempt goes on
  unfoldable pub take_quota : AgentConfig → W → Bool × W
  take_quota cfg w =
      elim (check_and_increment_quota cfg.daily_limit (host.today w)
        (host.load_state cfg.state_file w)) [
          | none ↦ (false, w)
          | some st ↦
              let (e, w') = host.save_state cfg.state_file st w in
              (elim e [ none ↦ true | some x ↦ false ], w')
        ]

module _ {C : Type 0} (tr : Transport C) where
  -- the operation of a plan
  unfoldable pub run_op : Plan → M C (Unit {0})
  run_op p = if str_eq p.op op_delete then remove tr p.rule_id p.expect_count_before else apply tr p

  -- what is reported of an operation that ended in the session `s`
  unfoldable pub report :
      AgentConfig → AgentResult → Stage → Result GoError (Unit {0}) → Session C → Response
  unfolding respond
  report cfg good stage (ok u) s = respond cfg good stage s.raw_buf
  report cfg good stage (err e) s = respond cfg (result_from_se e) (stage_from_se e) []

  -- `openSession`, and then the operation
  unfoldable pub in_new_session :
      AgentConfig → Auth → M C (Unit {0}) → C → Result GoError (Unit {0}) × Session C
  in_new_session cfg auth op conn =
      let (r, s) = open_session tr auth (new_session cfg conn) in
      elim r [ ok u ↦ op s | err e ↦ (err e, s) ]

  -- The session is `none` where no connection was made.
  unfoldable pub run_plan :
      AgentConfig → Auth → AgentResult → Stage → M C (Unit {0}) → C → Response × Option (Session C)
  unfolding report in_new_session
  run_plan cfg auth good stage op conn =
      let (r, s) = in_new_session cfg auth op conn in (report cfg good stage r s, some s)

  -- `doSnapshot`
  unfoldable pub do_snapshot : AgentConfig → Auth → C → Response × Option (Session C)
  unfolding respond
  do_snapshot cfg auth conn =
      let (r, s) = open_session tr auth (new_session cfg conn) in
      elim r [
        | err e ↦ (respond cfg (result_from_se e) (stage_from_se e) [], some s)
        | ok u ↦
            let (taken, s') = snapshot tr s in
            elim taken [
              | err e ↦ (respond cfg (result_from_se e) (stage_from_se e) [], some s')
              | ok raw ↦ (respond cfg success no_stage raw, some s')
            ]
      ]

  module _ {W : Type 0} (host : Host W) where
    -- what `doApply` does with an admitted plan, or with the reason why it is none
    unfoldable pub carry_out :
        AgentConfig → Auth → W → C → Result AgentResult Plan → Response × Option (Session C) × W
    unfolding respond run_plan
    carry_out cfg auth w conn (err result) = (respond cfg result connect [], none, w)
    carry_out cfg auth w conn (ok p) =
        let (response, s) = run_plan cfg auth success save (run_op p) conn in (response, s, w)

    -- what it does where the quota is taken, and where it is not
    unfoldable pub after_quota :
        AgentConfig → Auth → Bytes → Bytes → C → Bool × W → Response × Option (Session C) × W
    unfolding respond carry_out admit
    after_quota cfg auth request_id want_sha conn (false, w) =
        (respond cfg guard_failed connect [], none, w)
    after_quota cfg auth request_id want_sha conn (true, w) =
        carry_out cfg auth w conn (admit host cfg request_id want_sha w)

    -- `doApply`
    unfoldable pub do_apply :
        AgentConfig → Auth → Bytes → Bytes → W → C → Response × Option (Session C) × W
    unfolding take_quota after_quota
    do_apply cfg auth request_id want_sha w conn =
        after_quota cfg auth request_id want_sha conn (take_quota host cfg w)

    -- `doRollback`
    unfoldable pub do_rollback : AgentConfig → Auth → Bytes → W → C → Response × Option (Session C)
    unfolding respond run_plan
    do_rollback cfg auth request_id w conn = elim (load_plan_file host cfg request_id w) [
      | err e ↦ (respond cfg plan_rejected connect [], none)
      | ok p ↦
          if ltb_ℤ p.rule_id cfg.range_min || ltb_ℤ cfg.range_max p.rule_id
          then (respond cfg guard_failed connect [], none)
          else run_plan cfg auth rolled_back no_stage (rollback tr p.rule_id) conn
    ]
