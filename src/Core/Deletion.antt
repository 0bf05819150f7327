-- ===== src/Core/Deletion.antt =====
-- internal/aclweb/core/core.go: the submission of a request to delete the rule of an active one.
use acl_edit_only.Base.{ℕ, suc, not, none, some, [], if◌then◌else◌}
use acl_edit_only.Base.Text.{Bytes, codes}
use acl_edit_only.Base.Int.{ℤ, pos}
use acl_edit_only.Base.Result.{Result, ok, err}
use acl_edit_only.Aclout.{CountError, count}
use acl_edit_only.Core.Artifacts.{remove_rule_from_config, rule_exists_in_snapshot}
use acl_edit_only.Core.Request.{SubmitRequest, delete_plan_of, can_submit}
use acl_edit_only.Core.Rows.{User, Db, delete_rule, is_active, find_request, pre_request}
use acl_edit_only.Core.Spawn.{Machine, ServiceConfig, AgentError, run_snapshot}
use acl_edit_only.Core.PlanFile.{write_plan_file}
use acl_edit_only.Core.Service.{
  State, CoreError, forbidden, ctx_done, not_found, snapshot_failed, uncounted, io_error,
  not_active, rule_missing, saved,
}
use acl_edit_only.Core.Submit.{new_request, artifact_of, commit, next_code}

-- the columns of the form, where the request deletes a rule
unfoldable pub deletion_columns : Bytes → SubmitRequest
deletion_columns reason = record {
  protocol = [];
  src_ip = [];
  src_wildcard = [];
  src_port_op = [];
  src_port_val = pos 0;
  dst_ip = codes "N/A";
  dst_wildcard = codes "N/A";
  dst_port_op = [];
  dst_port_val = pos 0;
  reason = reason;
}

module _ {W : Type 0} (m : Machine W) (cfg : ServiceConfig) where
  -- the deletion that is written out
  unfoldable pub submit_deletion :
      User → Bytes → ℤ → Bytes → ℕ → State W → Result Bytes Bytes → Result CoreError ℕ × State W
  unfolding new_request deletion_columns artifact_of remove_rule_from_config write_plan_file commit
      next_code
  submit_deletion actor reason rule_id raw snapshot_id s (err e) = (err (io_error e), s)
  submit_deletion actor reason rule_id raw snapshot_id s (ok plan_json) =
      commit m cfg actor (codes "delete_submitted")
        (new_request (suc s.db.last_request) (next_code m cfg s) delete_rule actor
          (deletion_columns reason) rule_id)
        (artifact_of m.sha256 (suc s.db.last_request) snapshot_id raw
          (remove_rule_from_config raw rule_id) plan_json)
        s.db (write_plan_file m cfg (next_code m cfg s) plan_json s.world)

  -- the transaction of `SubmitDelete`; its plan is not validated
  unfoldable pub delete_rule_of :
      User → Bytes → ℤ → Bytes → ℕ → ℕ × State W → Result CoreError ℕ × State W
  unfolding submit_deletion delete_plan_of next_code
  delete_rule_of actor reason rule_id raw n (snapshot_id, s) =
      if not (m.ctx_open s.world)
      then (err ctx_done, s)
      else submit_deletion actor reason rule_id raw snapshot_id s
          (m.marshal_plan (delete_plan_of (next_code m cfg s) rule_id (pos n)))

  -- the count of the snapshot, which is then saved
  unfoldable pub delete_on_count :
      User → Bytes → ℤ → Bytes → State W → Result CountError ℕ → Result CoreError ℕ × State W
  unfolding saved delete_rule_of
  delete_on_count actor reason rule_id raw s (err e) = (err (uncounted e), s)
  delete_on_count actor reason rule_id raw s (ok n) =
      delete_rule_of actor reason rule_id raw n (saved m cfg raw pre_request s)

  -- `SubmitDelete`, from the snapshot on
  unfoldable pub delete_on :
      User → Bytes → ℤ → Db → Result AgentError Bytes × W → Result CoreError ℕ × State W
  unfolding delete_on_count
  delete_on actor reason rule_id db (err e, w) =
      (err (snapshot_failed e), record { db = db; world = w })
  delete_on actor reason rule_id db (ok raw, w) =
      if not (rule_exists_in_snapshot raw rule_id)
      then (err rule_missing, record { db = db; world = w })
      else delete_on_count actor reason rule_id raw (record { db = db; world = w })
          (count raw cfg.web.acl)

  -- `SubmitDelete`
  unfoldable pub submit_delete : User → ℕ → Bytes → State W → Result CoreError ℕ × State W
  unfolding delete_on find_request run_snapshot
  submit_delete actor existing_id reason s =
      if not (can_submit actor.role)
      then (err (forbidden actor.role), s)
      else if not (m.ctx_open s.world)
      then (err (not_found existing_id), s)
      else elim (find_request existing_id s.db.requests) [
        | none ↦ (err (not_found existing_id), s)
        | some r ↦
            if not (is_active r.state)
            then (err (not_active r.state), s)
            else delete_on actor reason r.rule_id s.db (run_snapshot m cfg s.world)
      ]
