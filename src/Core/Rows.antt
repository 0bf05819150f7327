-- ===== src/Core/Rows.antt =====
-- The tables that internal/aclweb/core/core.go works on (internal/aclweb/db/schema.go), as lists of
-- rows in the order of their ids, and the statements on them. A column that is NULL is `none`, or
-- empty where the program never tells the two apart.
pub mod Updates
use acl_edit_only.Base.{
  ℕ, suc, ◌+◌, Bool, true, false, ◌&&◌, ◌||◌, Option, none, some, List, [], ◌∷◌, ◌++◌, ◌==◌,
  if◌then◌else◌,
}
use acl_edit_only.Base.Text.{Bytes, codes, str_eq}
use acl_edit_only.Base.Int.{ℤ, pos, negsuc}
use acl_edit_only.Base.Result.{Result, ok, err}
use acl_edit_only.Agent.Run.{Response}
pub use acl_edit_only.Auth.Tables.{User}
use acl_edit_only.Aclout.{CountError, count}
use acl_edit_only.Core.Request.{SubmitRequest}
use acl_edit_only.Core.Verify.{fingerprint_raw}

pub data RequestState : Type 0 where
  pending approved rejected dispatching active dispatch_failed dead_letter : RequestState
  drift inconsistent revoking revoked revoke_failed expired : RequestState

pub data RequestAction : Type 0 where
  add_rule delete_rule : RequestAction

-- the table change_requests, without the columns that the program never writes; `wanted` has those of
-- the form
pub record ChangeRequest : Type 0 where
  pub id : ℕ
  pub request_code : Bytes
  pub action : RequestAction
  pub requester_id : ℕ
  pub approver_id : Option ℕ
  pub state : RequestState
  pub approve_comment : Bytes
  pub wanted : SubmitRequest
  pub rule_id : ℤ
  pub approved_at : Option ℕ
  pub dispatched_at : Option ℕ

pub data Trigger : Type 0 where
  pre_request pre_dispatch post_dispatch reconcile startup : Trigger

-- the table acl_snapshots
pub record AclSnapshot : Type 0 where
  pub id : ℕ
  pub acl_num : ℤ
  pub raw_text : Bytes
  pub fingerprint : Bytes
  pub rule_count : ℤ
  pub trigger : Trigger

-- the table change_artifacts
pub record ChangeArtifact : Type 0 where
  pub request_id : ℕ
  pub snapshot_before_id : ℕ
  pub old_config : Bytes
  pub new_config : Bytes
  pub diff_text : Bytes
  pub plan_json : Bytes
  pub old_sha256 : Bytes
  pub new_sha256 : Bytes
  pub diff_sha256 : Bytes
  pub plan_sha256 : Bytes

-- the table audit_logs, without the JSON of `detail`
pub record AuditLog : Type 0 where
  pub actor_id : Option ℕ
  pub actor_label : Bytes
  pub entity_type : Bytes
  pub entity_id : ℕ
  pub event : Bytes

-- the table agent_runs; its `op` is always "apply"
pub record AgentRun : Type 0 where
  pub request_id : ℕ
  pub plan_sha256 : Bytes
  pub response : Response
  pub detail : Bytes
  pub snapshot_before : ℕ
  pub snapshot_after : ℕ
  pub finished_at : ℕ

-- The `last_` fields are what AUTOINCREMENT counts.
pub record Db : Type 0 where
  pub requests : List ChangeRequest
  pub last_request : ℕ
  pub artifacts : List ChangeArtifact
  pub snapshots : List AclSnapshot
  pub last_snapshot : ℕ
  pub runs : List AgentRun
  pub audit_logs : List AuditLog

-- UPDATE … SET `set` WHERE `where_`
unfoldable pub update_rows :
    (ChangeRequest → Bool)
    → (ChangeRequest → ChangeRequest)
    → List ChangeRequest
    → List ChangeRequest
update_rows where_ set [] = []
update_rows where_ set (r ∷ rs) =
    let rest = update_rows where_ set rs in if where_ r then set r ∷ rest else r ∷ rest

-- the number of rows that it affects
unfoldable pub rows_affected : (ChangeRequest → Bool) → List ChangeRequest → ℕ
rows_affected where_ [] = 0
rows_affected where_ (r ∷ rs) =
    let rest = rows_affected where_ rs in if where_ r then suc rest else rest

-- SELECT … WHERE id=?
unfoldable pub find_request : ℕ → List ChangeRequest → Option ChangeRequest
find_request id [] = none
find_request id (r ∷ rs) = let rest = find_request id rs in if r.id == id then some r else rest

unfoldable pub find_artifact : ℕ → List ChangeArtifact → Option ChangeArtifact
find_artifact id [] = none
find_artifact id (a ∷ rest) =
    let found = find_artifact id rest in if a.request_id == id then some a else found

unfoldable pub find_snapshot : ℕ → List AclSnapshot → Option AclSnapshot
find_snapshot id [] = none
find_snapshot id (a ∷ rest) =
    let found = find_snapshot id rest in if a.id == id then some a else found

abbrev pub is_pending : RequestState → Bool
is_pending pending = true
is_pending _ = false

-- state IN ('pending','approved')
abbrev pub is_awaiting : RequestState → Bool
is_awaiting pending = true
is_awaiting approved = true
is_awaiting _ = false

abbrev pub is_active : RequestState → Bool
is_active active = true
is_active _ = false

abbrev pub is_add : RequestAction → Bool
is_add add_rule = true
is_add delete_rule = false

abbrev pub set_state : RequestState → ChangeRequest → ChangeRequest
set_state st r = record r { state = st }

-- `audit` and `auditDirect`
unfoldable pub audit : Option User → Bytes → ℕ → Bytes → Db → Db
audit none entity id event db = record db {
  audit_logs =
      db.audit_logs
      ++ record {
        actor_id = none;
        actor_label = codes "system";
        entity_type = entity;
        entity_id = id;
        event = event;
      }
        ∷ [];
}
audit (some actor) entity id event db = record db {
  audit_logs =
      db.audit_logs
      ++ record {
        actor_id = some actor.id;
        actor_label = actor.username;
        entity_type = entity;
        entity_id = id;
        event = event;
      }
        ∷ [];
}

-- the count that is stored: -1 is that it is unknown
abbrev pub stored_count : Result CountError ℕ → ℤ
stored_count (ok n) = pos n
stored_count (err e) = negsuc 0

-- `saveSnapshot`, for the ACL `acl`; `sha` is the hexadecimal text of crypto/sha256
unfoldable pub save_snapshot : (Bytes → Bytes) → ℤ → Bytes → Trigger → Db → ℕ × Db
save_snapshot sha acl raw trigger db = (
  db.last_snapshot + 1,
  record db {
    last_snapshot = db.last_snapshot + 1;
    snapshots =
        db.snapshots
        ++ record {
          id = db.last_snapshot + 1;
          acl_num = acl;
          raw_text = raw;
          fingerprint = fingerprint_raw sha raw;
          rule_count = stored_count (count raw acl);
          trigger = trigger;
        }
          ∷ [];
  },
)
