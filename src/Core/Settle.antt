-- ===== src/Core/Settle.antt =====
-- internal/aclweb/core/core.go: what is made of the run of the agent, and what is done where it failed.
use acl_edit_only.Base.{Bool, true, false, not, ◌&&◌, Option, none, some, [], ◌∷◌, if◌then◌else◌}
use acl_edit_only.Base.Text.{Bytes, codes, str_eq}
use acl_edit_only.Base.Int.{ℤ, eq_ℤ}
use acl_edit_only.Base.Result.{Result, ok, err, Check, done}
use acl_edit_only.Plan.{AgentResult, success}
use acl_edit_only.Core.Verify.{Mismatch, verify_change, verify_deletion, fingerprint_raw}
use acl_edit_only.Core.Binding.{assert_binding}
use acl_edit_only.Core.Rows.{
  ChangeRequest, User, RequestAction, add_rule, delete_rule, active, dispatch_failed, inconsistent,
  revoked, is_active, is_add, set_state, audit,
}
use acl_edit_only.Core.Spawn.{Machine, ServiceConfig, AgentError, Reply, run_agent, run_snapshot}
use acl_edit_only.Core.Service.{
  State, CoreError, unbound, failed_cleanly, left_inconsistent, change_request, has_request_id,
  on_db, must_update,
}

-- WHERE action='add_rule' AND rule_id=? AND state='active'
abbrev pub active_rule : ℤ → ChangeRequest → Bool
active_rule rule_id r = is_add r.action && eq_ℤ r.rule_id rule_id && is_active r.state

-- `verify`
unfoldable pub verify_action : RequestAction → Bytes → Bytes → ℤ → ℤ → Check Mismatch
verify_action add_rule pre post acl rule_id = verify_change pre post acl rule_id
verify_action delete_rule pre post acl rule_id = verify_deletion pre post acl rule_id

abbrev pub is_success : AgentResult → Bool
is_success success = true
is_success _ = false

abbrev pub text_of : Result AgentError Bytes → Bytes
text_of (ok raw) = raw
text_of (err e) = []

module _ {W : Type 0} (m : Machine W) (cfg : ServiceConfig) where
  -- the rollback of an addition that failed
  unfoldable pub undo : Bytes → RequestAction → W → W
  unfolding run_agent
  undo code add_rule w = (run_agent m cfg (codes "rollback") (codes "--request" ∷ code ∷ []) w).1
  undo code delete_rule w = w

  -- the end of `handleDispatchFailure`, with the snapshot that was taken
  unfoldable pub conclude_failure :
      User → ChangeRequest → Bytes → Bytes → State W → Check CoreError × State W
  unfolding must_update audit
  conclude_failure actor r pre_raw post_raw s =
      if str_eq (fingerprint_raw m.sha256 pre_raw) (fingerprint_raw m.sha256 post_raw)
      then (
        err failed_cleanly,
        on_db (audit (some actor) change_request r.id (codes "dispatch_failed_clean"))
            (must_update m (has_request_id r.id) (set_state dispatch_failed) s),
      )
      else (
        err left_inconsistent,
        on_db (audit (some actor) change_request r.id (codes "inconsistent"))
            (must_update m (has_request_id r.id) (set_state inconsistent) s),
      )

  -- `handleDispatchFailure`
  unfoldable pub handle_dispatch_failure :
      User → ChangeRequest → Bytes → State W → Check CoreError × State W
  unfolding undo conclude_failure
  handle_dispatch_failure actor r pre_raw s =
      let (post, w) = run_snapshot m cfg (undo r.request_code r.action s.world) in
      conclude_failure actor r pre_raw (text_of post) (record s { world = w })

  -- the end of `DispatchStream`, for a change that was verified
  unfoldable pub complete : User → ChangeRequest → RequestAction → State W → State W
  unfolding must_update audit
  complete actor r add_rule s =
      on_db (audit (some actor) change_request r.id (codes "dispatched"))
        (must_update m (has_request_id r.id) (set_state active) s)
  complete actor r delete_rule s =
      on_db (audit (some actor) change_request r.id (codes "revoked")) (
        must_update m (active_rule r.rule_id) (set_state revoked)
          (must_update m (has_request_id r.id) (set_state revoked) s))

  -- what follows the verification
  unfoldable pub verified :
      User → ChangeRequest → Bytes → Check Mismatch → State W → Check CoreError × State W
  unfolding handle_dispatch_failure complete audit
  verified actor r pre_raw (ok u) s = (done, complete actor r r.action s)
  verified actor r pre_raw (err e) s =
      handle_dispatch_failure actor r pre_raw
        (on_db (audit (some actor) change_request r.id (codes "verify_failed")) s)

  -- the decision on the reply of the run
  unfoldable pub settle :
      User
      → ChangeRequest
      → Bytes
      → Bytes
      → Reply × Option AgentError
      → State W
      → Check CoreError × State W
  unfolding must_update audit handle_dispatch_failure verified verify_action
  settle actor r pre_raw post_raw (reply, run_err) s =
      elim (assert_binding cfg.web reply.response) [
        | err e ↦ (
          err (unbound e),
          on_db (audit (some actor) change_request r.id (codes "binding_mismatch"))
              (must_update m (has_request_id r.id) (set_state inconsistent) s),
        )
        | ok u ↦ elim run_err [
          | some e ↦ handle_dispatch_failure actor r pre_raw s
          | none ↦
              if not (is_success reply.response.result)
              then handle_dispatch_failure actor r pre_raw s
              else verified actor r pre_raw
                  (verify_action r.action pre_raw post_raw cfg.web.acl r.rule_id) s
        ]
      ]
