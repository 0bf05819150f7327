-- ===== src/Core/Dispatch.antt =====
-- internal/aclweb/core/core.go: the execution of a request.
pub mod Moves
pub mod Settles
pub mod Examined
pub mod Ended
pub mod Ran
pub mod Proved
use acl_edit_only.Base.{
  ℕ, Bool, true, false, not, ◌&&◌, ◌||◌, Option, none, some, List, [], ◌∷◌, ◌++◌, ◌==◌, keep_if,
  map, if◌then◌else◌,
}
use acl_edit_only.Base.Text.{Bytes, codes, str_eq}
use acl_edit_only.Base.Int.{ℤ, eq_ℤ}
use acl_edit_only.Base.Result.{Result, ok, err, Check, done}
use acl_edit_only.Plan.{AgentResult, success}
use acl_edit_only.Aclout.{count}
use acl_edit_only.Core.Artifacts.{rule_exists_in_snapshot}
use acl_edit_only.Core.Verify.{Mismatch, verify_change, verify_deletion, fingerprint_raw}
use acl_edit_only.Core.Binding.{assert_binding}
use acl_edit_only.Core.Request.{can_dispatch}
use acl_edit_only.Core.Rows.{
  ChangeRequest, ChangeArtifact, User, Db, RequestState, RequestAction, add_rule, delete_rule,
  dispatching, active, dispatch_failed, drift, inconsistent, revoked, is_awaiting, is_active,
  is_add, set_state, update_rows, rows_affected, find_request, find_artifact, find_snapshot, audit,
  pre_dispatch, post_dispatch, reconcile, AgentRun,
}
use acl_edit_only.Core.Spawn.{
  Machine, ServiceConfig, AgentError, Reply, run_agent, run_agent_stream, run_snapshot,
}
use acl_edit_only.Core.PlanFile.{plan_file_sha, update_plan_expect_count}
use acl_edit_only.Core.Service.{
  State, CoreError, forbidden, not_awaiting, already_executed, snapshot_failed, uncounted, io_error,
  unbound, drifted, failed_cleanly, left_inconsistent, mismatches, ctx_done, change_request,
  with_requests, has_request_id, on_db, must_update, saved,
}
use acl_edit_only.Core.Settle.{settle}

-- WHERE cr.id=? AND cr.state IN ('pending','approved')
abbrev pub awaiting_id : ℕ → ChangeRequest → Bool
awaiting_id id r = has_request_id id r && is_awaiting r.state

-- COALESCE(column, value)
abbrev pub coalesce : Option ℕ → ℕ → Option ℕ
coalesce none n = some n
coalesce (some k) n = some k

-- the claim: SET state='dispatching', …
abbrev pub claimed : User → ℕ → ChangeRequest → ChangeRequest
claimed actor now r = record r {
  state = dispatching;
  dispatched_at = some now;
  approver_id = coalesce r.approver_id actor.id;
  approved_at = coalesce r.approved_at now;
}

-- the request and its artifacts that the first query joins
unfoldable pub awaiting : ℕ → Db → Option (ChangeRequest × ChangeArtifact)
unfolding find_request find_artifact
awaiting id db = elim (find_request id db.requests) [
  | none ↦ none
  | some r ↦
      if is_awaiting r.state
      then elim (find_artifact id db.artifacts) [ none ↦ none | some a ↦ some (r, a) ]
      else none
]

-- the fingerprint of the snapshot that the diff was made from; empty where there is none
unfoldable pub approval_fingerprint : ℕ → Db → Bytes
unfolding find_artifact find_snapshot
approval_fingerprint id db = elim (find_artifact id db.artifacts) [
  | none ↦ []
  | some a ↦ elim (find_snapshot a.snapshot_before_id db.snapshots) [
    | none ↦ []
    | some n ↦ n.fingerprint
  ]
]

module _ {W : Type 0} (m : Machine W) (cfg : ServiceConfig) where
  -- INSERT INTO agent_runs, by `mustExec`
  unfoldable pub record_run :
      ChangeRequest → Bytes → Reply × Option AgentError → ℕ → ℕ → State W → State W
  record_run r plan_sha (reply, run_err) before after s =
      if m.ctx_open s.world
      then on_db
          (λ db. record db {
            runs =
                db.runs
                ++ record {
                  request_id = r.id;
                  plan_sha256 = plan_sha;
                  response = reply.response;
                  detail = reply.detail;
                  snapshot_before = before;
                  snapshot_after = after;
                  finished_at = m.now s.world;
                }
                  ∷ [];
          })
          s
      else s

  -- from the run of the agent on, for a request that is claimed
  unfoldable pub execute :
      Bool → User → ChangeRequest → Bytes → ℕ → Bytes → State W → Check CoreError × State W
  unfolding run_agent_stream run_agent settle record_run saved
  execute stream actor r pre_raw before plan_sha s =
      let (run, w₁) =
        run_agent_stream m cfg stream (codes "apply")
          (codes "--request" ∷ r.request_code ∷ codes "--plan-sha256" ∷ plan_sha ∷ []) s.world in
      let ((post, post_err), w₂) = run_agent m cfg (codes "snapshot") [] w₁ in
      let post_raw = post.response.raw in
      let (after, s₃) = saved m cfg post_raw post_dispatch (record s { world = w₂ }) in
      settle m cfg actor r pre_raw post_raw run (record_run r plan_sha run before after s₃)

  -- the claim
  unfoldable pub claim :
      Bool → User → ChangeRequest → Bytes → ℕ → Bytes → State W → Check CoreError × State W
  unfolding execute rows_affected update_rows
  claim stream actor r pre_raw before plan_sha s =
      if not (m.ctx_open s.world)
      then (err ctx_done, s)
      else if rows_affected (awaiting_id r.id) s.db.requests == 0
      then (err (already_executed r.id), s)
      else execute stream actor r pre_raw before plan_sha (
          on_db
            (with_requests
              (update_rows (awaiting_id r.id) (claimed actor (m.now s.world)) s.db.requests))
            s)

  -- the plan file as it is now
  unfoldable pub hash_plan :
      Bool → User → ChangeRequest → Bytes → ℕ → Check Bytes × W → Db → Check CoreError × State W
  unfolding claim
  hash_plan stream actor r pre_raw before (err e, w) db =
      (err (io_error e), record { db = db; world = w })
  hash_plan stream actor r pre_raw before (ok u, w) db =
      elim (plan_file_sha m cfg r.request_code w) [
        | err e ↦ (err (io_error e), record { db = db; world = w })
        | ok plan_sha ↦ claim stream actor r pre_raw before plan_sha (record { db = db; world = w })
      ]

  -- the count of the snapshot goes into the plan file
  unfoldable pub prepare :
      Bool → User → ChangeRequest → Bytes → ℕ → State W → Check CoreError × State W
  unfolding hash_plan
  prepare stream actor r pre_raw before s = elim (count pre_raw cfg.web.acl) [
    | err e ↦ (err (uncounted e), s)
    | ok n ↦
        hash_plan stream actor r pre_raw before
          (update_plan_expect_count m cfg r.request_code n s.world) s.db
  ]

  -- whether the ACL is no longer the one of the diff; a query on a context that is done finds nothing
  unfoldable pub has_drifted : ℕ → Bytes → State W → Bool
  unfolding approval_fingerprint
  has_drifted id pre_raw s =
      m.ctx_open s.world
      && not (str_eq (approval_fingerprint id s.db) [])
      && not (str_eq (fingerprint_raw m.sha256 pre_raw) (approval_fingerprint id s.db))

  unfoldable pub check_drift :
      Bool → User → ChangeRequest → Bytes → ℕ × State W → Check CoreError × State W
  unfolding has_drifted must_update audit prepare
  check_drift stream actor r pre_raw (before, s) =
      if has_drifted r.id pre_raw s
      then (
        err drifted,
        on_db (audit (some actor) change_request r.id (codes "drift"))
            (must_update m (has_request_id r.id) (set_state drift) s),
      )
      else prepare stream actor r pre_raw before s

  -- the snapshot before the run; only the error of the agent is looked at, not its result
  unfoldable pub examine :
      Bool → User → ChangeRequest → (Reply × Option AgentError) × W → Db → Check CoreError × State W
  unfolding saved check_drift
  examine stream actor r ((reply, some e), w) db =
      (err (snapshot_failed e), record { db = db; world = w })
  examine stream actor r ((reply, none), w) db = elim (assert_binding cfg.web reply.response) [
    | err e ↦ (err (unbound e), record { db = db; world = w })
    | ok u ↦
        check_drift stream actor r reply.response.raw
          (saved m cfg reply.response.raw pre_dispatch (record { db = db; world = w }))
  ]

  -- `DispatchStream`; `stream` is that the caller gave it a writer
  unfoldable pub dispatch_stream : Bool → User → ℕ → State W → Check CoreError × State W
  unfolding awaiting examine run_agent
  dispatch_stream stream actor id s =
      if not (can_dispatch actor.role)
      then (err (forbidden actor.role), s)
      else if not (m.ctx_open s.world)
      then (err (not_awaiting id), s)
      else elim (awaiting id s.db) [
        | none ↦ (err (not_awaiting id), s)
        | some ra ↦ examine stream actor ra.0 (run_agent m cfg (codes "snapshot") [] s.world) s.db
      ]

  -- `Dispatch`
  unfoldable pub dispatch : User → ℕ → State W → Check CoreError × State W
  unfolding dispatch_stream
  dispatch actor id s = dispatch_stream false actor id s
