-- ===== src/Core/Binding/Told.antt =====
-- The responses of cmd/aclagent/main.go and the test that internal/aclweb/core/core.go makes of them.
use acl_edit_only.Base.{◌≡◌, ◌↔◌, Bool, true, false, arith}
use acl_edit_only.Base.Text.{Bytes}
use acl_edit_only.Base.Int.{eq_ℤ_iff}
use acl_edit_only.Base.Result.{Result, ok, err, done}
use acl_edit_only.Plan.{Plan, Stage, AgentResult, success, save}
use acl_edit_only.Device.Session.{Transport, Session, Auth, GoError}
use acl_edit_only.Agent.Config.{AgentConfig}
use acl_edit_only.Agent.Run.{
  Host, Response, respond, report, in_new_session, run_plan, run_op, admit, carry_out, after_quota,
  take_quota, do_apply,
}
use acl_edit_only.Core.Request.{WebConfig}
use acl_edit_only.Core.Binding.{assert_binding}

-- the two programs are configured for the same ACL and window
pub record SameBinding (web : WebConfig) (agent : AgentConfig) : Type 0 where
  pub acl : agent.acl ≡ web.acl
  pub range_min : agent.range_min ≡ web.range_min
  pub range_max : agent.range_max ≡ web.range_max
  pub alloc_max : agent.alloc_max ≡ web.alloc_max

abbrev Tells : WebConfig → AgentConfig → Response → Type 0
Tells web cfg r = (assert_binding web r ≡ done) ↔ SameBinding web cfg

respond-Tells :
    (web : WebConfig) (cfg : AgentConfig) (result : AgentResult) (stage : Stage) (raw : Bytes)
    → Tells web cfg (respond cfg result stage raw)
unfolding assert_binding respond
respond-Tells web cfg result stage raw = ground (
  arith,
  eq_ℤ_iff cfg.acl web.acl,
  eq_ℤ_iff cfg.range_min web.range_min,
  eq_ℤ_iff cfg.range_max web.range_max,
  eq_ℤ_iff cfg.alloc_max web.alloc_max,
)

module _ {C W : Type 0} (tr : Transport C) (host : Host W) (web : WebConfig) (cfg : AgentConfig)
    (auth : Auth) where
  report-Tells :
      (r : Result GoError (Unit {0})) (s : Session C)
      → Tells web cfg (report tr cfg success save r s)
  unfolding report
  report-Tells (ok u) s = respond-Tells web cfg _ _ _
  report-Tells (err e) s = respond-Tells web cfg _ _ _

  carry_out-Tells :
      (w : W) (conn : C) (a : Result AgentResult Plan)
      → Tells web cfg (carry_out tr host cfg auth w conn a).0
  unfolding carry_out run_plan
  carry_out-Tells w conn (err r) = respond-Tells web cfg _ _ _
  carry_out-Tells w conn (ok p) =
      report-Tells (in_new_session tr cfg auth (run_op tr p) conn).0
        (in_new_session tr cfg auth (run_op tr p) conn).1

  after_quota-Tells :
      (request_id want_sha : Bytes) (conn : C) (q : Bool × W)
      → Tells web cfg (after_quota tr host cfg auth request_id want_sha conn q).0
  unfolding after_quota
  after_quota-Tells request_id want_sha conn (false, w) = respond-Tells web cfg _ _ _
  after_quota-Tells request_id want_sha conn (true, w) =
      carry_out-Tells w conn (admit host cfg request_id want_sha w)

  -- However `doApply` ends, the web side accepts the binding of its response exactly if both programs
  -- are configured for the same ACL, range and allocation limit.
  pub do_apply-assert_binding :
      (request_id want_sha : Bytes) (w : W) (conn : C)
      → (assert_binding web (do_apply tr host cfg auth request_id want_sha w conn).0 ≡ done)
        ↔ SameBinding web cfg
  unfolding do_apply
  do_apply-assert_binding request_id want_sha w conn =
      after_quota-Tells request_id want_sha conn (take_quota host cfg w)
