-- ===== src/Core/Reconcile/Compared.antt =====
-- Reconcile of internal/aclweb/core/core.go: when it finds nothing, and that it changes no request.
use acl_edit_only.Base.{◌≡◌, refl, ◌↔◌, true, List, [], ◌∷◌, All, arith}
use acl_edit_only.Base.Text.{Bytes}
use acl_edit_only.Base.Result.{Result, ok, err, done}
use acl_edit_only.Core.Artifacts.{rule_exists_in_snapshot}
use acl_edit_only.Core.Rows.{ChangeRequest, Db, active, is_active, audit, save_snapshot, reconcile}
use acl_edit_only.Core.Spawn.{Machine, ServiceConfig, AgentError, run_snapshot}
use acl_edit_only.Core.Service.{State, saved}
use acl_edit_only.Core.Reconcile.{missing_rules, compare_active, reconcile_with, reconcile_rules}

-- the rule of an active request is on the device
abbrev pub IsShown : Bytes → ChangeRequest → Type 0
IsShown raw r = r.state ≡ active → rule_exists_in_snapshot raw r.rule_id ≡ true

is_active_iff : (r : ChangeRequest) → (is_active r.state ≡ true) ↔ (r.state ≡ active)
is_active_iff r = ground arith

missing_rules_iff :
    (raw : Bytes) (rs : List ChangeRequest) → (missing_rules raw rs ≡ []) ↔ All (IsShown raw) rs
unfolding missing_rules
missing_rules_iff raw [] = ground arith
missing_rules_iff raw (r ∷ rs) = ground (arith, missing_rules_iff raw rs, is_active_iff r)

module _ {W : Type 0} where
  compare_active_iff :
      (cs : List Bytes) (s : State W) → ((compare_active cs s).0 ≡ done) ↔ (cs ≡ [])
  unfolding compare_active
  compare_active_iff [] s = ground arith
  compare_active_iff (c ∷ cs) s = ground arith

  compare_active-requests :
      (cs : List Bytes) (s : State W) → (compare_active cs s).1.db.requests ≡ s.db.requests
  unfolding compare_active audit
  compare_active-requests [] s = refl
  compare_active-requests (c ∷ cs) s = refl

  module _ (m : Machine W) (cfg : ServiceConfig) where
    reconcile_with-requests :
        (x : Result AgentError Bytes × W) (db : Db)
        → (reconcile_with m cfg x db).1.db.requests ≡ db.requests
    unfolding reconcile_with saved save_snapshot
    reconcile_with-requests (err e, w) db = refl
    reconcile_with-requests (ok raw, w) db = ground (
      arith,
      compare_active-requests (missing_rules raw db.requests)
          (saved m cfg raw reconcile (record { db = db; world = w })).1,
    )

    abbrev pub Compared : Result AgentError Bytes × W → Db → Type 0
    Compared (err e, w) db = ⊥
    Compared (ok raw, w) db = (m.ctx_open w ≡ true) × All (IsShown raw) db.requests

    reconcile_with_iff :
        (x : Result AgentError Bytes × W) (db : Db)
        → ((reconcile_with m cfg x db).0 ≡ done) ↔ Compared x db
    unfolding reconcile_with
    reconcile_with_iff (err e, w) db = ground arith
    reconcile_with_iff (ok raw, w) db = ground (
      arith,
      missing_rules_iff raw db.requests,
      compare_active_iff (missing_rules raw db.requests)
          (saved m cfg raw reconcile (record { db = db; world = w })).1,
    )

    -- `Reconcile` finds nothing exactly if the agent took a snapshot in time that shows the rule of every
    -- active request, and whatever it finds, it leaves the requests as they are.
    pub reconcile_rules_iff :
        (s : State W)
        → (((reconcile_rules m cfg s).0 ≡ done) ↔ Compared (run_snapshot m cfg s.world) s.db)
          × ((reconcile_rules m cfg s).1.db.requests ≡ s.db.requests)
    unfolding reconcile_rules
    reconcile_rules_iff s = (
      reconcile_with_iff (run_snapshot m cfg s.world) s.db,
      reconcile_with-requests (run_snapshot m cfg s.world) s.db,
    )
