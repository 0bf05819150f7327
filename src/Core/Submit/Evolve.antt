-- ===== src/Core/Submit/Evolve.antt =====
-- Submit and SubmitDelete of internal/aclweb/core/core.go: what they do to the requests.
use acl_edit_only.Base.{ℕ, ◌≡◌, refl, Option-cases, inl, inr, arith}
use acl_edit_only.Base.Text.{Bytes}
use acl_edit_only.Base.Int.{ℤ, pos}
use acl_edit_only.Aclout.{CountError, count}
use acl_edit_only.Base.Result.{Result, ok, err, Check}
use acl_edit_only.Plan.{Plan}
use acl_edit_only.Core.Rows.{
  ChangeRequest, ChangeArtifact, User, Db, pending, audit, save_snapshot, find_request,
}
use acl_edit_only.Core.Request.{SubmitRequest, normalize, delete_plan_of}
use acl_edit_only.Core.Spawn.{Machine, ServiceConfig, AgentError, run_snapshot}
use acl_edit_only.Core.Service.{State, CoreError, saved}
use acl_edit_only.Core.Submit.{
  new_request, insert_request, commit, submit_plan, submit_rule, submit_on, submit, next_code,
  allot, submitted_plan,
}
use acl_edit_only.Core.Deletion.{
  submit_deletion, delete_rule_of, delete_on_count, delete_on, submit_delete,
}
use acl_edit_only.Core.Life.{Evolved, Evolved-refl, insert-Evolved}

module _ {W : Type 0} (m : Machine W) (cfg : ServiceConfig) where
  commit-Evolved :
      (actor : User) (event : Bytes) (r : ChangeRequest) (a : ChangeArtifact) (db : Db)
      (written : Check Bytes) (w : W)
      → r.state ≡ pending
      → Evolved db.requests (commit m cfg actor event r a db (written, w)).1.db.requests
  unfolding commit insert_request audit
  commit-Evolved actor event r a db (err e) w h = Evolved-refl db.requests
  commit-Evolved actor event r a db (ok u) w h =
      ground (arith, insert-Evolved r db.requests h, Evolved-refl db.requests)

  submit_plan-Evolved :
      (actor : User) (req : SubmitRequest) (raw : Bytes) (n : ℕ) (p : Plan) (s : State W)
      (json : Result Bytes Bytes)
      → Evolved s.db.requests (submit_plan m cfg actor req raw n p s json).1.db.requests
  unfolding submit_plan new_request
  submit_plan-Evolved actor req raw n p s (err e) = Evolved-refl s.db.requests
  submit_plan-Evolved actor req raw n p s (ok json) = commit-Evolved actor _ _ _ s.db _ _ refl

  submit_rule-Evolved :
      (actor : User) (req : SubmitRequest) (raw : Bytes) (n : ℕ) (s : State W)
      (x : Result CoreError (ℤ × ℕ))
      → Evolved s.db.requests (submit_rule m cfg actor req raw n s x).1.db.requests
  unfolding submit_rule
  submit_rule-Evolved actor req raw n s (err e) = Evolved-refl s.db.requests
  submit_rule-Evolved actor req raw n s (ok (rule_id, count)) = ground (
    arith,
    Evolved-refl s.db.requests,
    submit_plan-Evolved actor req raw n (submitted_plan m cfg req rule_id count s) s
        (m.marshal_plan (submitted_plan m cfg req rule_id count s)),
  )

  submit_on-Evolved :
      (actor : User) (req : SubmitRequest) (db : Db) (x : Result AgentError Bytes × W)
      → Evolved db.requests (submit_on m cfg actor req db x).1.db.requests
  unfolding submit_on saved save_snapshot
  submit_on-Evolved actor req db (err e, w) = Evolved-refl db.requests
  submit_on-Evolved actor req db (ok raw, w) =
      submit_rule-Evolved actor req raw _ _ (allot m cfg raw)

  pub submit-Evolved :
      (actor : User) (req : SubmitRequest) (s : State W)
      → Evolved s.db.requests (submit m cfg actor req s).1.db.requests
  unfolding submit
  submit-Evolved actor req s = ground (
    arith,
    Evolved-refl s.db.requests,
    submit_on-Evolved actor (normalize req) s.db (run_snapshot m cfg s.world),
  )

  submit_deletion-Evolved :
      (actor : User) (reason : Bytes) (rule_id : ℤ) (raw : Bytes) (n : ℕ) (s : State W)
      (json : Result Bytes Bytes)
      → Evolved s.db.requests
          (submit_deletion m cfg actor reason rule_id raw n s json).1.db.requests
  unfolding submit_deletion new_request
  submit_deletion-Evolved actor reason rule_id raw n s (err e) = Evolved-refl s.db.requests
  submit_deletion-Evolved actor reason rule_id raw n s (ok json) =
      commit-Evolved actor _ _ _ s.db _ _ refl

  delete_rule_of-Evolved :
      (actor : User) (reason : Bytes) (rule_id : ℤ) (raw : Bytes) (n id : ℕ) (s : State W)
      → Evolved s.db.requests
          (delete_rule_of m cfg actor reason rule_id raw n (id, s)).1.db.requests
  unfolding delete_rule_of
  delete_rule_of-Evolved actor reason rule_id raw n id s = ground (
    arith,
    Evolved-refl s.db.requests,
    submit_deletion-Evolved actor reason rule_id raw id s
        (m.marshal_plan (delete_plan_of (next_code m cfg s) rule_id (pos n))),
  )

  delete_on_count-Evolved :
      (actor : User) (reason : Bytes) (rule_id : ℤ) (raw : Bytes) (s : State W)
      (n : Result CountError ℕ)
      → Evolved s.db.requests (delete_on_count m cfg actor reason rule_id raw s n).1.db.requests
  unfolding delete_on_count saved save_snapshot
  delete_on_count-Evolved actor reason rule_id raw s (err e) = Evolved-refl s.db.requests
  delete_on_count-Evolved actor reason rule_id raw s (ok n) =
      delete_rule_of-Evolved actor reason rule_id raw n _ _

  delete_on-Evolved :
      (actor : User) (reason : Bytes) (rule_id : ℤ) (db : Db) (x : Result AgentError Bytes × W)
      → Evolved db.requests (delete_on m cfg actor reason rule_id db x).1.db.requests
  unfolding delete_on
  delete_on-Evolved actor reason rule_id db (err e, w) = Evolved-refl db.requests
  delete_on-Evolved actor reason rule_id db (ok raw, w) = ground (
    arith,
    Evolved-refl db.requests,
    delete_on_count-Evolved actor reason rule_id raw (record { db = db; world = w })
        (count raw cfg.web.acl),
  )

  pub submit_delete-Evolved :
      (actor : User) (id : ℕ) (reason : Bytes) (s : State W)
      → Evolved s.db.requests (submit_delete m cfg actor id reason s).1.db.requests
  unfolding submit_delete
  submit_delete-Evolved actor id reason s = elim (Option-cases (find_request id s.db.requests)) [
    | inl e ↦ rw e (ground (arith, Evolved-refl s.db.requests))
    | inr (r, e) ↦ rw e (
        ground (
          arith,
          Evolved-refl s.db.requests,
          delete_on-Evolved actor reason r.rule_id s.db (run_snapshot m cfg s.world),
        ))
  ]
