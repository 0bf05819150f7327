-- ===== src/Core/Dispatch/Ran.antt =====
-- DispatchStream of internal/aclweb/core/core.go: what the run of the agent has been checked for
-- where no error is reported.
use acl_edit_only.Base.{ℕ, ◌≡◌, ◌≢◌, refl, ap, Bool, Option, none, some, [], ◌∷◌, arith}
use acl_edit_only.Base.Text.{Bytes, codes}
use acl_edit_only.Base.Result.{Result, ok, err, Check, done}
use acl_edit_only.Plan.{success}
use acl_edit_only.Aclout.{CountError, count}
use acl_edit_only.Core.Binding.{assert_binding}
use acl_edit_only.Base.Int.{ℤ}
use acl_edit_only.Core.Verify.{Mismatch}
use acl_edit_only.Core.Verify.Exact.{Added, Removed, verify_change_iff, verify_deletion_iff}
use acl_edit_only.Core.Rows.{
  ChangeRequest, RequestAction, add_rule, delete_rule, User, Db, update_rows,
}
use acl_edit_only.Core.Spawn.{
  Machine, ServiceConfig, AgentError, Reply, run_agent, run_agent_stream,
}
use acl_edit_only.Core.PlanFile.{plan_file_sha, update_plan_expect_count}
use acl_edit_only.Core.Service.{State, CoreError, uncounted, io_error, with_requests, on_db}
use acl_edit_only.Core.Dispatch.{awaiting_id, claimed, execute, claim, hash_plan, prepare}
use acl_edit_only.Core.Settle.{
  verify_action, handle_dispatch_failure, conclude_failure, verified, settle,
}

-- how the snapshot after the run differs from the one before it
abbrev pub Landed : RequestAction → Bytes → Bytes → ℤ → ℤ → Type 0
Landed add_rule pre_raw post_raw acl_num rule_id = Added pre_raw post_raw acl_num rule_id
Landed delete_rule pre_raw post_raw acl_num rule_id = Removed pre_raw post_raw acl_num rule_id

verify_action-Landed :
    (a : RequestAction) (pre_raw post_raw : Bytes) (acl_num rule_id : ℤ)
    → verify_action a pre_raw post_raw acl_num rule_id ≡ done
    → Landed a pre_raw post_raw acl_num rule_id
unfolding verify_action
verify_action-Landed add_rule pre_raw post_raw acl_num rule_id h =
    (verify_change_iff pre_raw post_raw acl_num rule_id).0 h
verify_action-Landed delete_rule pre_raw post_raw acl_num rule_id h =
    (verify_deletion_iff pre_raw post_raw acl_num rule_id).0 h

module _ {W : Type 0} (m : Machine W) (cfg : ServiceConfig) where
  abbrev pub snapshot_call : W → (Reply × Option AgentError) × W
  snapshot_call w = run_agent m cfg (codes "snapshot") [] w

  abbrev pub apply_call : Bool → ChangeRequest → Bytes → W → (Reply × Option AgentError) × W
  apply_call stream r plan_sha w =
      run_agent_stream m cfg stream (codes "apply")
        (codes "--request" ∷ r.request_code ∷ codes "--plan-sha256" ∷ plan_sha ∷ []) w

  -- the run of the agent was a success under the same binding, and the snapshots before and after it
  -- show what `Landed` says
  pub record Ran (r : ChangeRequest) (pre_raw post_raw : Bytes) (run : Reply × Option AgentError)
      : Type 0 where
    pub no_error : run.1 ≡ none
    pub succeeded : run.0.response.result ≡ success
    pub bound : assert_binding cfg.web run.0.response ≡ done
    pub exact : Landed r.action pre_raw post_raw cfg.web.acl r.rule_id

  failure-not_done :
      (actor : User) (r : ChangeRequest) (pre_raw : Bytes) (s : State W)
      → (handle_dispatch_failure m cfg actor r pre_raw s).0 ≢ done
  unfolding handle_dispatch_failure conclude_failure
  failure-not_done actor r pre_raw s h = ground arith

  verified-done :
      (actor : User) (r : ChangeRequest) (pre_raw : Bytes) (v : Check Mismatch) (s : State W)
      → (verified m cfg actor r pre_raw v s).0 ≡ done
      → v ≡ done
  unfolding verified
  verified-done actor r pre_raw (ok u) s h = refl
  verified-done actor r pre_raw (err e) s h = absurd (failure-not_done actor r pre_raw _ h)

  settle-done :
      (actor : User) (r : ChangeRequest) (pre_raw post_raw : Bytes)
      (run : Reply × Option AgentError) (s : State W)
      → (settle m cfg actor r pre_raw post_raw run s).0 ≡ done
      → Ran r pre_raw post_raw run
  unfolding settle
  settle-done actor r pre_raw post_raw (reply, some e) s h =
      absurd (ground (arith, failure-not_done actor r pre_raw s))
  settle-done actor r pre_raw post_raw (reply, none) s h = record {
    no_error = refl;
    succeeded = ground (arith, failure-not_done actor r pre_raw s);
    bound = ground arith;
    exact = verify_action-Landed r.action pre_raw post_raw cfg.web.acl r.rule_id (
        ground (
          arith,
          failure-not_done actor r pre_raw s,
          verified-done actor r pre_raw
              (verify_action r.action pre_raw post_raw cfg.web.acl r.rule_id) s,
        ));
  }

  -- the plan file has been brought up to date in `w`, and the agent then ran it
  pub record RanPlan (stream : Bool) (r : ChangeRequest) (pre_raw : Bytes) (w : W) : Type 0 where
    pub n : ℕ
    pub counted : count pre_raw cfg.web.acl ≡ ok n
    pub ready : W
    pub recounted : update_plan_expect_count m cfg r.request_code n w ≡ (done, ready)
    pub plan_sha : Bytes
    pub hashed : plan_file_sha m cfg r.request_code ready ≡ ok plan_sha
    pub ran :
        Ran r pre_raw
          (snapshot_call (apply_call stream r plan_sha ready).1).0.0.response.raw
          (apply_call stream r plan_sha ready).0

  abbrev RanFrom : Bool → ChangeRequest → Bytes → Bytes → W → Type 0
  RanFrom stream r pre_raw plan_sha w =
      Ran r pre_raw (snapshot_call (apply_call stream r plan_sha w).1).0.0.response.raw
        (apply_call stream r plan_sha w).0

  module _ (stream : Bool) (actor : User) (r : ChangeRequest) (pre_raw : Bytes) (before : ℕ) where
    execute-done :
        (plan_sha : Bytes) (s : State W)
        → (execute m cfg stream actor r pre_raw before plan_sha s).0 ≡ done
        → RanFrom stream r pre_raw plan_sha s.world
    unfolding execute
    execute-done plan_sha s h = settle-done actor r pre_raw _ _ _ h

    claim-done :
        (plan_sha : Bytes) (s : State W)
        → (claim m cfg stream actor r pre_raw before plan_sha s).0 ≡ done
        → RanFrom stream r pre_raw plan_sha s.world
    unfolding claim
    claim-done plan_sha s h =
        execute-done plan_sha
          (on_db
            (with_requests
              (update_rows (awaiting_id r.id) (claimed actor (m.now s.world)) s.db.requests))
            s)
          (ground arith)

    hash_plan-done :
        (u : Check Bytes) (w : W) (db : Db)
        → (hash_plan m cfg stream actor r pre_raw before (u, w) db).0 ≡ done
        → (u ≡ done)
          × ((sha : Bytes) × (plan_file_sha m cfg r.request_code w ≡ ok sha)
              × RanFrom stream r pre_raw sha w)
    unfolding hash_plan
    hash_plan-done (err e) w db h = absurd (cc h)
    hash_plan-done (ok u) w db h = (refl, hashed (plan_file_sha m cfg r.request_code w) refl h)
      where
        hashed :
            (p : Result Bytes Bytes)
            → plan_file_sha m cfg r.request_code w ≡ p
            → (elim p as (λ x. Check CoreError × State W) [
              | err e ↦ (err (io_error e), record { db = db; world = w })
              | ok sha ↦
                  claim m cfg stream actor r pre_raw before sha (record { db = db; world = w })
            ]).0
              ≡ done
            → (sha : Bytes) × (plan_file_sha m cfg r.request_code w ≡ ok sha)
              × RanFrom stream r pre_raw sha w
        hashed (err e) k g = absurd (cc g)
        hashed (ok sha) k g = (sha, k, claim-done sha (record { db = db; world = w }) g)

    pub prepare-done :
        (s : State W)
        → (prepare m cfg stream actor r pre_raw before s).0 ≡ done
        → RanPlan stream r pre_raw s.world
    unfolding prepare
    prepare-done s h = counted (count pre_raw cfg.web.acl) refl h
      where
        counted :
            (c : Result CountError ℕ)
            → count pre_raw cfg.web.acl ≡ c
            → (elim c as (λ x. Check CoreError × State W) [
              | err e ↦ (err (uncounted e), s)
              | ok n ↦
                  hash_plan m cfg stream actor r pre_raw before
                    (update_plan_expect_count m cfg r.request_code n s.world)
                    s.db
            ]).0
              ≡ done
            → RanPlan stream r pre_raw s.world
        counted (err e) k g = absurd (cc g)
        counted (ok n) k g =
            let up = update_plan_expect_count m cfg r.request_code n s.world in
            let (u, (sha, hashed, ran)) = hash_plan-done up.0 up.1 s.db g in
            record {
              n = n;
              counted = k;
              ready = up.1;
              recounted = ap (λ x. (x, up.1)) u;
              plan_sha = sha;
              hashed = hashed;
              ran = ran;
            }
