-- ===== src/Core/Submit/Chain.antt =====
-- Submit of internal/aclweb/core/core.go: the chain from the snapshot to the plan file that a request
-- which is stored stands for, and that nothing is stored where it fails.
use acl_edit_only.Base.{
  ℕ, suc, ◌≡◌, refl, true, false, Bool-cases, inl, inr, ◌⊎◌, [], arith, if◌then◌else◌,
}
use acl_edit_only.Base.Text.{Bytes, codes, str_eq, to_lower}
use acl_edit_only.Base.Int.{ℤ}
use acl_edit_only.Base.Result.{Result, ok, err, Check, done}
use acl_edit_only.Plan.Validate.{Invalid, validate_for_agent}
use acl_edit_only.Aclout.{count}
use acl_edit_only.Core.Alloc.{allocate_rule_id}
use acl_edit_only.Core.Artifacts.{build_expected_config}
use acl_edit_only.Core.Request.{SubmitRequest, normalize, can_submit}
use acl_edit_only.Core.Rows.{User, Db, add_rule, save_snapshot, pre_request}
use acl_edit_only.Core.Spawn.{Machine, ServiceConfig, AgentError, run_snapshot}
use acl_edit_only.Core.PlanFile.{write_plan_file}
use acl_edit_only.Core.Service.{State, CoreError, no_protocol, plan_invalid, saved}
use acl_edit_only.Core.Submit.{
  new_request, artifact_of, insert_request, commit, next_code, submitted_plan, submit_plan,
  submit_rule, allot, submit_on, submit,
}

-- no request, artifact or entry of the audit log is new
pub record Kept (db db' : Db) : Type 0 where
  pub requests : db'.requests ≡ db.requests
  pub artifacts : db'.artifacts ≡ db.artifacts
  pub audit_logs : db'.audit_logs ≡ db.audit_logs

Kept-refl : (db : Db) → Kept db db
Kept-refl db = record { requests = refl; artifacts = refl; audit_logs = refl }

module _ {W : Type 0} (m : Machine W) (cfg : ServiceConfig) (actor : User)
    (req : SubmitRequest) where
  -- the request `id` that `s'` holds was made of the snapshot `raw`, which has been saved in `s`
  pub record Chained (raw : Bytes) (snapshot_id : ℕ) (s s' : State W) (id : ℕ) : Type 0 where
    pub rule_id : ℤ
    pub free : allocate_rule_id raw cfg.web.acl cfg.web.range_min cfg.web.alloc_max ≡ ok rule_id
    pub n : ℕ
    pub counted : count raw cfg.web.acl ≡ ok n
    pub admitted :
        validate_for_agent
          (submitted_plan m cfg req rule_id n s)
          cfg.web.range_min
          cfg.web.range_max
          cfg.web.alloc_max
        ≡ done
    pub plan_json : Bytes
    pub encoded : m.marshal_plan (submitted_plan m cfg req rule_id n s) ≡ ok plan_json
    pub written : write_plan_file m cfg (next_code m cfg s) plan_json s.world ≡ (done, s'.world)
    pub is_next : id ≡ suc s.db.last_request
    pub stored :
        s'.db
        ≡ insert_request actor
            (codes "submitted")
            (new_request
              (suc s.db.last_request)
              (next_code m cfg s)
              add_rule
              actor
              req
              (submitted_plan m cfg req rule_id n s).rule_id)
            (artifact_of m.sha256
              (suc s.db.last_request)
              snapshot_id
              raw
              (build_expected_config raw (submitted_plan m cfg req rule_id n s))
              plan_json)
            s.db

  -- what has come of a submission, from the state `s` on
  abbrev pub Chain : Bytes → ℕ → State W → Result CoreError ℕ × State W → Type 0
  Chain raw snapshot_id s (ok id, s') = Chained raw snapshot_id s s' id
  Chain raw snapshot_id s (err e, s') = Kept s.db s'.db

  module _ (raw : Bytes) (snapshot_id : ℕ) (s : State W) where
    commit-Chain :
        (rule_id : ℤ) (n : ℕ)
        → allocate_rule_id raw cfg.web.acl cfg.web.range_min cfg.web.alloc_max ≡ ok rule_id
        → count raw cfg.web.acl ≡ ok n
        → validate_for_agent
            (submitted_plan m cfg req rule_id n s)
            cfg.web.range_min
            cfg.web.range_max
            cfg.web.alloc_max
          ≡ done
        → (plan_json : Bytes) → m.marshal_plan (submitted_plan m cfg req rule_id n s) ≡ ok plan_json
        → (x : Check Bytes × W) → write_plan_file m cfg (next_code m cfg s) plan_json s.world ≡ x
        → Chain raw snapshot_id s (
            commit m cfg actor
              (codes "submitted")
              (new_request
                (suc s.db.last_request)
                (next_code m cfg s)
                add_rule
                actor
                req
                (submitted_plan m cfg req rule_id n s).rule_id)
              (artifact_of m.sha256
                (suc s.db.last_request)
                snapshot_id
                raw
                (build_expected_config raw (submitted_plan m cfg req rule_id n s))
                plan_json)
              s.db
              x)
    unfolding commit new_request
    commit-Chain rule_id n free counted admitted json encoded (err e, w) written = Kept-refl s.db
    commit-Chain rule_id n free counted admitted json encoded (ok u, w) written =
        elim (Bool-cases (m.ctx_open w)) [
          | inl e ↦ rw e (record {
            rule_id = rule_id;
            free = free;
            n = n;
            counted = counted;
            admitted = admitted;
            plan_json = json;
            encoded = encoded;
            written = written;
            is_next = refl;
            stored = refl;
          })
          | inr e ↦ rw e (Kept-refl s.db)
        ]

    plan-Chain :
        (rule_id : ℤ) (n : ℕ)
        → allocate_rule_id raw cfg.web.acl cfg.web.range_min cfg.web.alloc_max ≡ ok rule_id
        → count raw cfg.web.acl ≡ ok n
        → validate_for_agent
            (submitted_plan m cfg req rule_id n s)
            cfg.web.range_min
            cfg.web.range_max
            cfg.web.alloc_max
          ≡ done
        → (json : Result Bytes Bytes) → m.marshal_plan (submitted_plan m cfg req rule_id n s) ≡ json
        → Chain raw snapshot_id s (
            submit_plan m cfg actor req raw snapshot_id
              (submitted_plan m cfg req rule_id n s)
              s
              json)
    unfolding submit_plan
    plan-Chain rule_id n free counted admitted (err e) encoded = Kept-refl s.db
    plan-Chain rule_id n free counted admitted (ok json) encoded =
        commit-Chain rule_id n free counted admitted json encoded _ refl

    allot-ok :
        (rule_id : ℤ) (n : ℕ)
        → allot m cfg raw ≡ ok (rule_id, n)
        → (allocate_rule_id raw cfg.web.acl cfg.web.range_min cfg.web.alloc_max ≡ ok rule_id)
          × (count raw cfg.web.acl ≡ ok n)
    unfolding allot
    allot-ok rule_id n h = ground arith

    validated-Chain :
        (rule_id : ℤ) (n : ℕ)
        → allot m cfg raw ≡ ok (rule_id, n)
        → (v : Check Invalid)
        → validate_for_agent
            (submitted_plan m cfg req rule_id n s)
            cfg.web.range_min
            cfg.web.range_max
            cfg.web.alloc_max
          ≡ v
        → Chain raw snapshot_id s (elim v as (λ x. Result CoreError ℕ × State W) [
          | err e ↦ (err (plan_invalid e), s)
          | ok u ↦
              submit_plan m cfg actor req raw snapshot_id
                (submitted_plan m cfg req rule_id n s)
                s
                (m.marshal_plan (submitted_plan m cfg req rule_id n s))
        ])
    validated-Chain rule_id n h (err e) k = Kept-refl s.db
    validated-Chain rule_id n h (ok u) k =
        let (free, counted) = allot-ok rule_id n h in
        plan-Chain rule_id n free counted k (m.marshal_plan (submitted_plan m cfg req rule_id n s))
          refl

    rule-Chain :
        (x : Result CoreError (ℤ × ℕ))
        → allot m cfg raw ≡ x
        → Chain raw snapshot_id s (submit_rule m cfg actor req raw snapshot_id s x)
    unfolding submit_rule
    rule-Chain (err e) h = Kept-refl s.db
    rule-Chain (ok (rule_id, n)) h = elim (Bool-cases (m.ctx_open s.world)) [
      | inl e ↦ rw e (validated-Chain rule_id n h _ refl)
      | inr e ↦ rw e (Kept-refl s.db)
    ]

  abbrev pub Submission : State W → Result CoreError ℕ × State W → Type 0
  Submission s (ok id, s') =
      (raw : Bytes) × (w : W) × (run_snapshot m cfg s.world ≡ (ok raw, w))
      × Chained raw (saved m cfg raw pre_request (record { db = s.db; world = w })).0
          (saved m cfg raw pre_request (record { db = s.db; world = w })).1 s' id
  Submission s (err e, s') = Kept s.db s'.db

  from_Chain :
      (s : State W) (raw : Bytes) (w : W) (out : Result CoreError ℕ × State W)
      → run_snapshot m cfg s.world ≡ (ok raw, w)
      → Chain raw
          (saved m cfg raw pre_request (record { db = s.db; world = w })).0
          (saved m cfg raw pre_request (record { db = s.db; world = w })).1
          out
      → Submission s out
  unfolding saved save_snapshot
  from_Chain s raw w (ok id, s') h c = (raw, w, h, c)
  from_Chain s raw w (err e, s') h c = record {
    requests = c.requests;
    artifacts = c.artifacts;
    audit_logs = c.audit_logs;
  }

  submit_on-Submission :
      (s : State W) (x : Result AgentError Bytes × W)
      → run_snapshot m cfg s.world ≡ x
      → Submission s (submit_on m cfg actor req s.db x)
  unfolding submit_on
  submit_on-Submission s (err e, w) h = Kept-refl s.db
  submit_on-Submission s (ok raw, w) h = from_Chain s raw w _ h (
      rule-Chain raw (saved m cfg raw pre_request (record { db = s.db; world = w })).0
        (saved m cfg raw pre_request (record { db = s.db; world = w })).1 (allot m cfg raw) refl)

module _ {W : Type 0} (m : Machine W) (cfg : ServiceConfig) (actor : User)
    (req : SubmitRequest) where
  -- A submission that fails stores no request, no artifact and no entry of the audit log. One that
  -- succeeds has stored, under the next id, the artifacts of a plan that was made of the normalized request and
  -- of a snapshot just taken, with a rule id that was free in it; the plan passes the agent's own
  -- validation, and its file was written.
  pub submit_chained :
      (s : State W) → Submission m cfg actor (normalize req) s (submit m cfg actor req s)
  unfolding submit
  submit_chained s = elim (Bool-cases (can_submit actor.role)) [
    | inr e ↦ rw e (Kept-refl s.db)
    | inl e ↦ rw e (protocol (Bool-cases (str_eq (to_lower req.protocol) [])))
  ]
    where
      protocol :
          (str_eq (to_lower req.protocol) [] ≡ true) ⊎ (str_eq (to_lower req.protocol) [] ≡ false)
          → Submission m cfg actor (normalize req) s (
              if str_eq (to_lower req.protocol) []
              then (err no_protocol, s)
              else submit_on m cfg actor (normalize req) s.db (run_snapshot m cfg s.world))
      protocol (inl k) = rw k (Kept-refl s.db)
      protocol (inr k) =
          rw k
            (submit_on-Submission m cfg actor (normalize req) s (run_snapshot m cfg s.world) refl)
