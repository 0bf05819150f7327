-- ===== src/Core/Submit.antt =====
-- internal/aclweb/core/core.go: the submission of a request. A transaction is the database that it is
-- to leave; it is kept only if it commits. The placeholder code is left out, since the same transaction
-- replaces it.
pub mod Chain
pub mod Evolve
use acl_edit_only.Base.{
  ℕ, suc, ◌+◌, Bool, true, false, not, Option, none, some, List, [], ◌∷◌, ◌++◌, if◌then◌else◌,
}
use acl_edit_only.Base.Text.{Bytes, codes, str_eq, to_lower}
use acl_edit_only.Base.Int.{ℤ, pos}
use acl_edit_only.Base.Decimal.{itoa_int}
use acl_edit_only.Base.Result.{Result, ok, err, Check, done, map_err, ◌>>=◌}
use acl_edit_only.Plan.{Plan}
use acl_edit_only.Plan.Validate.{validate_for_agent}
use acl_edit_only.Aclout.{CountError, count}
use acl_edit_only.Core.Alloc.{allocate_rule_id}
use acl_edit_only.Core.Artifacts.{
  build_expected_config, remove_rule_from_config, rule_exists_in_snapshot,
}
use acl_edit_only.Core.Diff.{unified_diff}
use acl_edit_only.Core.Request.{SubmitRequest, normalize, plan_of, delete_plan_of, can_submit}
use acl_edit_only.Core.Rows.{
  ChangeRequest, ChangeArtifact, User, Db, RequestState, RequestAction, add_rule, delete_rule,
  pending, is_active, find_request, audit, pre_request,
}
use acl_edit_only.Core.Spawn.{Machine, ServiceConfig, AgentError, run_snapshot}
use acl_edit_only.Core.PlanFile.{write_plan_file, remove_plan_file, request_code_of, build_comment}
use acl_edit_only.Core.Service.{
  State, CoreError, forbidden, no_protocol, ctx_done, not_found, snapshot_failed, unallocated,
  uncounted, plan_invalid, io_error, not_active, rule_missing, change_request, saved,
}

-- INSERT INTO change_requests, in state 'pending'
unfoldable pub new_request : ℕ → Bytes → RequestAction → User → SubmitRequest → ℤ → ChangeRequest
new_request id code action actor wanted rule_id = record {
  id = id;
  request_code = code;
  action = action;
  requester_id = actor.id;
  approver_id = none;
  state = pending;
  approve_comment = [];
  wanted = wanted;
  rule_id = rule_id;
  approved_at = none;
  dispatched_at = none;
}

-- the row of change_artifacts
unfoldable pub artifact_of : (Bytes → Bytes) → ℕ → ℕ → Bytes → Bytes → Bytes → ChangeArtifact
unfolding unified_diff
artifact_of sha id snapshot_id old_cfg new_cfg plan_json =
    let diff_text = unified_diff old_cfg new_cfg in
    record {
      request_id = id;
      snapshot_before_id = snapshot_id;
      old_config = old_cfg;
      new_config = new_cfg;
      diff_text = diff_text;
      plan_json = plan_json;
      old_sha256 = sha old_cfg;
      new_sha256 = sha new_cfg;
      diff_sha256 = sha diff_text;
      plan_sha256 = sha plan_json;
    }

-- the rows that a submission inserts
unfoldable pub insert_request : User → Bytes → ChangeRequest → ChangeArtifact → Db → Db
unfolding audit
insert_request actor event r a db = audit (some actor) change_request r.id event (record db {
  requests = db.requests ++ r ∷ [];
  last_request = r.id;
  artifacts = db.artifacts ++ a ∷ [];
})

module _ {W : Type 0} (m : Machine W) (cfg : ServiceConfig) where
  -- what follows the writing of the plan file: the artifacts and the commit
  unfoldable pub commit :
      User
      → Bytes
      → ChangeRequest
      → ChangeArtifact
      → Db
      → Check Bytes × W
      → Result CoreError ℕ × State W
  unfolding insert_request remove_plan_file
  commit actor event r a db (err e, w) = (err (io_error e), record { db = db; world = w })
  commit actor event r a db (ok u, w) =
      if m.ctx_open w
      then (ok r.id, record { db = insert_request actor event r a db; world = w })
      else (err ctx_done, record { db = db; world = remove_plan_file m cfg r.request_code w })

  -- the comment of the rule
  unfoldable pub comment_of : Bytes → SubmitRequest → Bytes
  unfolding build_comment
  comment_of code req =
      if cfg.rule_comment
      then build_comment m.sha256 code (
          req.dst_ip
          ++ (req.dst_wildcard ++ (req.protocol ++ (req.dst_port_op ++ itoa_int req.dst_port_val))))
      else []

  unfoldable pub next_code : State W → Bytes
  unfolding request_code_of
  next_code s = request_code_of (m.today s.world) (suc s.db.last_request)

  -- the plan of the request that is inserted next
  unfoldable pub submitted_plan : SubmitRequest → ℤ → ℕ → State W → Plan
  unfolding comment_of next_code plan_of
  submitted_plan req rule_id n s =
      plan_of (next_code s) rule_id (comment_of (next_code s) req) (pos n) req

  -- the plan that has passed the validation and that is written out
  unfoldable pub submit_plan :
      User
      → SubmitRequest
      → Bytes
      → ℕ
      → Plan
      → State W
      → Result Bytes Bytes
      → Result CoreError ℕ × State W
  unfolding new_request artifact_of build_expected_config write_plan_file commit next_code
  submit_plan actor req raw snapshot_id p s (err e) = (err (io_error e), s)
  submit_plan actor req raw snapshot_id p s (ok plan_json) =
      commit actor (codes "submitted")
        (new_request (suc s.db.last_request) (next_code s) add_rule actor req p.rule_id)
        (artifact_of m.sha256 (suc s.db.last_request) snapshot_id raw (build_expected_config raw p)
          plan_json)
        s.db (write_plan_file m cfg (next_code s) plan_json s.world)

  -- the transaction of `Submit`
  unfoldable pub submit_rule :
      User
      → SubmitRequest
      → Bytes
      → ℕ
      → State W
      → Result CoreError (ℤ × ℕ)
      → Result CoreError ℕ × State W
  unfolding submitted_plan submit_plan
  submit_rule actor req raw snapshot_id s (err e) = (err e, s)
  submit_rule actor req raw snapshot_id s (ok (rule_id, n)) =
      if not (m.ctx_open s.world)
      then (err ctx_done, s)
      else let p = submitted_plan req rule_id n s in
        elim (validate_for_agent p cfg.web.range_min cfg.web.range_max cfg.web.alloc_max) [
          | err e ↦ (err (plan_invalid e), s)
          | ok u ↦ submit_plan actor req raw snapshot_id p s (m.marshal_plan p)
        ]

  -- the rule id and the count, from the snapshot
  unfoldable pub allot : Bytes → Result CoreError (ℤ × ℕ)
  allot raw = do
    rule_id ←
        map_err unallocated (allocate_rule_id raw cfg.web.acl cfg.web.range_min cfg.web.alloc_max)
    n ← map_err uncounted (count raw cfg.web.acl)
    ok (rule_id, n)

  -- `Submit`, from the snapshot on
  unfoldable pub submit_on :
      User → SubmitRequest → Db → Result AgentError Bytes × W → Result CoreError ℕ × State W
  unfolding saved allot submit_rule
  submit_on actor req db (err e, w) = (err (snapshot_failed e), record { db = db; world = w })
  submit_on actor req db (ok raw, w) =
      let (snapshot_id, s) = saved m cfg raw pre_request (record { db = db; world = w }) in
      submit_rule actor req raw snapshot_id s (allot raw)

  -- `Submit`
  unfoldable pub submit : User → SubmitRequest → State W → Result CoreError ℕ × State W
  unfolding submit_on normalize run_snapshot
  submit actor req s =
      if not (can_submit actor.role)
      then (err (forbidden actor.role), s)
      else if str_eq (to_lower req.protocol) []
      then (err no_protocol, s)
      else submit_on actor (normalize req) s.db (run_snapshot m cfg s.world)
