-- ===== src/Core/Dispatch/Proved.antt =====
-- DispatchStream of internal/aclweb/core/core.go: what has been checked where it reports no error.
use acl_edit_only.Base.{ℕ, ◌≡◌, refl, Bool, true, false, Option, none, some, [], arith}
use acl_edit_only.Base.Text.{Bytes, codes}
use acl_edit_only.Base.Result.{ok, err, Check, done}
use acl_edit_only.Core.Binding.{BindingError, assert_binding}
use acl_edit_only.Core.Request.{can_dispatch}
use acl_edit_only.Core.Rows.{ChangeRequest, ChangeArtifact, User, pre_dispatch}
use acl_edit_only.Core.Spawn.{Machine, ServiceConfig, AgentError, Reply, run_agent}
use acl_edit_only.Core.Service.{State, CoreError, saved, unbound, not_awaiting}
use acl_edit_only.Core.Dispatch.{awaiting, has_drifted, check_drift, examine, dispatch_stream}
use acl_edit_only.Core.Dispatch.Ran.{snapshot_call, RanPlan, prepare-done}

module _ {W : Type 0} (m : Machine W) (cfg : ServiceConfig) where
  -- everything that a call without an error has checked
  pub record Proved (stream : Bool) (actor : User) (id : ℕ) (s : State W) : Type 0 where
    pub r : ChangeRequest
    pub artifact : ChangeArtifact
    pub allowed : can_dispatch actor.role ≡ true
    pub waited : awaiting id s.db ≡ some (r, artifact)
    pub pre : Reply
    pub seen : W
    pub saw : snapshot_call m cfg s.world ≡ ((pre, none), seen)
    pub bound : assert_binding cfg.web pre.response ≡ done
    pub same :
        has_drifted m cfg r.id pre.response.raw
          (saved m cfg pre.response.raw pre_dispatch (record { db = s.db; world = seen })).1
        ≡ false
    pub ran : RanPlan m cfg stream r pre.response.raw seen

  check_drift-done :
      (stream : Bool) (actor : User) (r : ChangeRequest) (pre_raw : Bytes) (before : ℕ)
      (s : State W)
      → (check_drift m cfg stream actor r pre_raw (before, s)).0 ≡ done
      → (has_drifted m cfg r.id pre_raw s ≡ false) × RanPlan m cfg stream r pre_raw s.world
  unfolding check_drift
  check_drift-done stream actor r pre_raw before s h =
      (ground arith, prepare-done m cfg stream actor r pre_raw before s (ground arith))

  examine-done :
      (stream : Bool) (actor : User) (id : ℕ) (s : State W) (r : ChangeRequest) (a : ChangeArtifact)
      → can_dispatch actor.role ≡ true
      → awaiting id s.db ≡ some (r, a)
      → (x : (Reply × Option AgentError) × W) → snapshot_call m cfg s.world ≡ x
      → (examine m cfg stream actor r x s.db).0 ≡ done
      → Proved stream actor id s
  unfolding examine saved
  examine-done stream actor id s r a role waited ((reply, some e), w) saw h = absurd (cc h)
  examine-done stream actor id s r a role waited ((reply, none), w) saw h =
      bound (assert_binding cfg.web reply.response) refl h
    where
      before : State W
      before = record { db = s.db; world = w }

      bound :
          (b : Check BindingError)
          → assert_binding cfg.web reply.response ≡ b
          → (elim b as (λ x. Check CoreError × State W) [
            | err e ↦ (err (unbound e), before)
            | ok u ↦
                check_drift m cfg stream actor r reply.response.raw
                  (saved m cfg reply.response.raw pre_dispatch before)
          ]).0
            ≡ done
          → Proved stream actor id s
      bound (err e) k g = absurd (cc g)
      bound (ok u) k g =
          let (same, ran) = check_drift-done stream actor r reply.response.raw _ _ g in
          record {
            r = r;
            artifact = a;
            allowed = role;
            waited = waited;
            pre = reply;
            seen = w;
            saw = saw;
            bound = k;
            same = same;
            ran = ran;
          }

  found-done :
      (stream : Bool) (actor : User) (id : ℕ) (s : State W)
      → can_dispatch actor.role ≡ true
      → (o : Option (ChangeRequest × ChangeArtifact)) → awaiting id s.db ≡ o
      → (elim o as (λ x. Check CoreError × State W) [
        | none ↦ (err (not_awaiting id), s)
        | some ra ↦
            examine m cfg stream actor ra.0 (run_agent m cfg (codes "snapshot") [] s.world) s.db
      ]).0
        ≡ done
      → Proved stream actor id s
  found-done stream actor id s role none e h = absurd (cc h)
  found-done stream actor id s role (some (r, a)) e h =
      examine-done stream actor id s r a role e (snapshot_call m cfg s.world) refl h

  -- Where `DispatchStream` reports no error, the role may dispatch; the request was waiting; the snapshot
  -- before had the binding that is configured and the fingerprint that was approved, unless there was
  -- none or the context was done when it was looked up; its count went into the plan file, whose hash
  -- was handed to the agent; the agent ran it with success under the same binding; and the snapshot
  -- after it counts one rule more than the one before and has a line of the rule, or, for a deletion,
  -- counts one less and has no such line, and its other lines, trimmed and without the blank ones, are
  -- as many and in order the same, but that lines with a clause "<n> rules" are compared without it and
  -- with every run of spaces as one. What the new rule says is not looked at.
  pub dispatch_stream-Proved :
      (stream : Bool) (actor : User) (id : ℕ) (s : State W)
      → (dispatch_stream m cfg stream actor id s).0 ≡ done
      → Proved stream actor id s
  unfolding dispatch_stream
  dispatch_stream-Proved stream actor id s h =
      ground (arith, found-done stream actor id s (ground arith) (awaiting id s.db) refl)
