-- ===== src/Agent/Faults.antt =====
-- cmd/aclagent/main.go: how an error of the session is reported.
use acl_edit_only.Base.{◌≢◌, ◌&&◌, not, ltb, ◌==◌, keep_if, if◌then◌else◌, arith}
use acl_edit_only.Base.Text.{Bytes, codes, str_eq, contains}
use acl_edit_only.Plan.{
  Stage, connect, auth, view, write, comment, save, quit, AgentResult, success, guard_failed,
  connect_failed, auth_failed, timeout, prompt_mismatch, device_error, save_failed, inconsistent,
}
use acl_edit_only.Device.Session.{GoError, plain, session, error_text}

-- `resultFromSE`
unfoldable pub result_from_se : GoError → AgentResult
result_from_se (plain e) = inconsistent
result_from_se (session stage cause out) =
    let msg = error_text (session stage cause out) in
    if contains msg (codes "guard_failed")
    then guard_failed
    else if contains msg (codes "prompt_mismatch")
    then prompt_mismatch
    else if contains msg (codes "device error")
    then device_error
    else if contains msg (codes "timeout")
    then timeout
    else if str_eq stage (codes "auth")
    then auth_failed
    else if str_eq stage (codes "connect")
    then connect_failed
    else if str_eq stage (codes "save")
    then save_failed
    else inconsistent

-- `stageFromSE`
unfoldable pub stage_from_se : GoError → Stage
stage_from_se (plain e) = connect
stage_from_se (session stage cause out) =
    if str_eq stage (codes "connect")
    then connect
    else if str_eq stage (codes "auth")
    then auth
    else if str_eq stage (codes "view")
    then view
    else if str_eq stage (codes "write")
    then write
    else if str_eq stage (codes "comment")
    then comment
    else if str_eq stage (codes "save")
    then save
    else if str_eq stage (codes "quit")
    then quit
    else view

-- `sanitise`, on bytes: a control character is one byte in UTF-8
unfoldable pub sanitise : Bytes → Bytes
sanitise s = keep_if (λ r. not (ltb r 32 && not (r == 9))) s

-- no error is reported as a success
pub result_from_se-not_success : (e : GoError) → result_from_se e ≢ success
unfolding result_from_se
result_from_se-not_success (plain e) h = ground arith
result_from_se-not_success (session stage cause out) h = ground arith
