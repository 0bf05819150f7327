-- ===== src/Core/Service.antt =====
-- internal/aclweb/core/core.go: the state that the service works on, its errors, and the review of a
-- request. The statements of the database fail only where the context that they run on is done; a
-- statement that the code runs without a context does not fail.
pub mod Reviewed
use acl_edit_only.Base.{
  ℕ, Bool, true, false, not, ◌&&◌, Option, none, some, List, [], ◌∷◌, ◌==◌, if◌then◌else◌,
}
use acl_edit_only.Base.Text.{Bytes, codes}
use acl_edit_only.Base.Result.{Result, ok, err, Check, done}
use acl_edit_only.Plan.Validate.{Invalid}
use acl_edit_only.Aclout.{CountError}
use acl_edit_only.Core.Alloc.{AllocError}
use acl_edit_only.Core.Binding.{BindingError}
use acl_edit_only.Core.Request.{can_approve}
use acl_edit_only.Core.Rows.{
  ChangeRequest, User, Db, RequestState, approved, rejected, is_pending, update_rows, rows_affected,
  find_request, audit, Trigger, save_snapshot,
}
use acl_edit_only.Core.Spawn.{Machine, ServiceConfig, AgentError}

pub record State (W : Type 0) : Type 0 where
  pub db : Db
  pub world : W

pub data CoreError : Type 0 where
  forbidden : Bytes → CoreError
  no_protocol ctx_done : CoreError
  not_found no_longer_pending not_awaiting already_executed : ℕ → CoreError
  snapshot_failed : AgentError → CoreError
  unallocated : AllocError → CoreError
  uncounted : CountError → CoreError
  plan_invalid : Invalid → CoreError
  io_error : Bytes → CoreError
  not_active : RequestState → CoreError
  rule_missing : CoreError
  unbound : BindingError → CoreError
  drifted failed_cleanly : CoreError
  left_inconsistent : CoreError
  mismatches : List Bytes → CoreError

abbrev pub change_request : Bytes
change_request = codes "change_request"

abbrev pub with_requests : List ChangeRequest → Db → Db
with_requests rs db = record db { requests = rs }

abbrev pub has_request_id : ℕ → ChangeRequest → Bool
has_request_id id r = r.id == id

-- WHERE id=? AND state='pending'
abbrev pub pending_id : ℕ → ChangeRequest → Bool
pending_id id r = has_request_id id r && is_pending r.state

-- SET state=?, approver_id=?, approved_at=?, approve_comment=?
abbrev pub reviewed : RequestState → User → ℕ → Bytes → ChangeRequest → ChangeRequest
reviewed st actor now comment r = record r {
  state = st;
  approver_id = some actor.id;
  approved_at = some now;
  approve_comment = comment;
}

module _ {W : Type 0} where
  abbrev pub on_db : (Db → Db) → State W → State W
  on_db f s = record s { db = f s.db }

  abbrev pub on_world : (W → W) → State W → State W
  on_world f s = record s { world = f s.world }

  module _ (m : Machine W) where
    -- the update of both reviews
    unfoldable pub review_rows : RequestState → User → ℕ → Bytes → State W → List ChangeRequest
    unfolding update_rows
    review_rows st actor id comment s =
        update_rows (pending_id id) (reviewed st actor (m.now s.world) comment) s.db.requests

    -- the guarded update of `Approve`, and its commit
    unfoldable pub approve_row : User → ℕ → Bytes → State W → Check CoreError × State W
    unfolding review_rows rows_affected audit
    approve_row actor id comment s =
        if rows_affected (pending_id id) s.db.requests == 0
        then (err (no_longer_pending id), s)
        else (
          done,
          on_db
              (λ db.
                audit (some actor) change_request id (codes "approved")
                  (with_requests (review_rows approved actor id comment s) db))
              s,
        )

    -- `Approve`
    unfoldable pub approve : User → ℕ → Bytes → State W → Check CoreError × State W
    unfolding approve_row find_request
    approve actor id comment s =
        if not (can_approve actor.role)
        then (err (forbidden actor.role), s)
        else if not (m.ctx_open s.world)
        then (err ctx_done, s)
        else elim (find_request id s.db.requests) [
          | none ↦ (err (not_found id), s)
          | some r ↦ approve_row actor id comment s
        ]

    -- `Reject`
    unfoldable pub reject : User → ℕ → Bytes → State W → Check CoreError × State W
    unfolding review_rows audit
    reject actor id comment s =
        if not (can_approve actor.role)
        then (err (forbidden actor.role), s)
        else if not (m.ctx_open s.world)
        then (err ctx_done, s)
        else (
          done,
          on_db
              (λ db.
                audit (some actor) change_request id (codes "rejected")
                  (with_requests (review_rows rejected actor id comment s) db))
              s,
        )

    -- `mustExec` of an update: where the context is done, the error is only logged
    unfoldable pub must_update :
        (ChangeRequest → Bool) → (ChangeRequest → ChangeRequest) → State W → State W
    unfolding update_rows
    must_update where_ set s =
        if m.ctx_open s.world
        then on_db (with_requests (update_rows where_ set s.db.requests)) s
        else s

    -- `saveSnapshot`
    unfoldable pub saved : ServiceConfig → Bytes → Trigger → State W → ℕ × State W
    unfolding save_snapshot
    saved cfg raw trigger s =
        let (id, db) = save_snapshot m.sha256 cfg.web.acl raw trigger s.db in
        (id, record s { db = db })
