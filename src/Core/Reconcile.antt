-- ===== src/Core/Reconcile.antt =====
-- internal/aclweb/core/core.go: the comparison of the tracked rules with the device.
pub mod Compared
use acl_edit_only.Base.{ℕ, Bool, not, ◌&&◌, List, [], ◌∷◌, none, map, keep_if, if◌then◌else◌}
use acl_edit_only.Base.Text.{Bytes, codes}
use acl_edit_only.Base.Result.{Result, ok, err, Check, done}
use acl_edit_only.Core.Artifacts.{rule_exists_in_snapshot}
use acl_edit_only.Core.Rows.{ChangeRequest, Db, is_active, audit, reconcile}
use acl_edit_only.Core.Spawn.{Machine, ServiceConfig, AgentError, run_snapshot}
use acl_edit_only.Core.Service.{
  State, CoreError, snapshot_failed, mismatches, ctx_done, on_db, saved,
}

-- the codes of the active requests whose rule the device does not show
unfoldable pub missing_rules : Bytes → List ChangeRequest → List Bytes
missing_rules raw rs =
    map (λ r. r.request_code)
      (keep_if (λ r. is_active r.state && not (rule_exists_in_snapshot raw r.rule_id)) rs)

module _ {W : Type 0} where
  -- the result of the loop over the active requests
  unfoldable pub compare_active : List Bytes → State W → Check CoreError × State W
  unfolding audit
  compare_active [] s = (done, s)
  compare_active (c ∷ cs) s = (
    err (mismatches (c ∷ cs)),
    on_db (audit none (codes "system") 0 (codes "reconcile_mismatch")) s,
  )

  module _ (m : Machine W) (cfg : ServiceConfig) where
    -- what follows the snapshot
    unfoldable pub reconcile_with : Result AgentError Bytes × W → Db → Check CoreError × State W
    unfolding compare_active missing_rules saved
    reconcile_with (err e, w) db = (err (snapshot_failed e), record { db = db; world = w })
    reconcile_with (ok raw, w) db =
        let (id, s) = saved m cfg raw reconcile (record { db = db; world = w }) in
        if not (m.ctx_open w)
        then (err ctx_done, s)
        else compare_active (missing_rules raw db.requests) s

    -- `Reconcile`
    unfoldable pub reconcile_rules : State W → Check CoreError × State W
    unfolding reconcile_with
    reconcile_rules s = reconcile_with (run_snapshot m cfg s.world) s.db
