-- ===== src/Core/Dispatch/Examined.antt =====
-- DispatchStream of internal/aclweb/core/core.go: how a call ends for a request that waits.
use acl_edit_only.Base.{
  ℕ, ◌≡◌, ◌≢◌, refl, sym, subst, inl, Bool, true, ==_iff, ==_refl, [], ◌∷◌, Option, none, some,
  List, arith, &&-true,
}
use acl_edit_only.Base.Text.{Bytes, codes}
use acl_edit_only.Base.Result.{Result, ok, err, Check}
use acl_edit_only.Aclout.{CountError, count}
use acl_edit_only.Core.Binding.{assert_binding, BindingError}
use acl_edit_only.Core.Rows.{
  ChangeRequest, User, Db, RequestState, dispatching, drift, is_awaiting, set_state, update_rows,
  find_request, audit, save_snapshot, pre_dispatch,
}
use acl_edit_only.Core.Spawn.{Machine, ServiceConfig, AgentError, Reply, run_agent_stream}
use acl_edit_only.Core.PlanFile.{plan_file_sha, update_plan_expect_count}
use acl_edit_only.Core.Service.{
  State, CoreError, already_executed, snapshot_failed, uncounted, io_error, unbound, drifted,
  ctx_done, has_request_id, with_requests, must_update, on_db, change_request, saved,
}
use acl_edit_only.Core.Life.{Evolved-refl, state_in, state_in-own, state_in-other, is_outcome}
use acl_edit_only.Core.Dispatch.{
  awaiting_id, claimed, record_run, execute, claim, hash_plan, prepare, check_drift, examine,
}
use acl_edit_only.Core.Dispatch.Moves.{Alone, kept, moved-Evolved}
use acl_edit_only.Core.Dispatch.Settles.{Told, Ends, ended, audited, settle-Ends}

module _ {W : Type 0} (m : Machine W) (cfg : ServiceConfig) where
  record_run-requests :
      (r : ChangeRequest) (plan_sha : Bytes) (run : Reply × Option AgentError) (before after : ℕ)
      (s : State W)
      → (record_run m cfg r plan_sha run before after s).db.requests ≡ s.db.requests
  unfolding record_run
  record_run-requests r plan_sha (reply, e) before after s = ground arith

  execute-Ends :
      (stream : Bool) (rs : List ChangeRequest) (actor : User) (r : ChangeRequest) (pre_raw : Bytes)
      (before : ℕ) (plan_sha : Bytes) (s : State W)
      → Alone r.id rs s.db.requests
      → Ends m r.id rs (execute m cfg stream actor r pre_raw before plan_sha s)
  unfolding execute saved save_snapshot
  execute-Ends stream rs actor r pre_raw before plan_sha s c =
      let (run, w₁) =
        run_agent_stream m cfg stream (codes "apply")
          (codes "--request" ∷ r.request_code ∷ codes "--plan-sha256" ∷ plan_sha ∷ []) s.world in
      settle-Ends m cfg rs actor r pre_raw _ run.0 run.1 _
        (subst (λ x. Alone r.id rs x) (sym (record_run-requests r plan_sha run before _ _)) c)

  -- a call that ends with the requests as they are
  pub unchanged :
      (id : ℕ) (result : Check CoreError) (s : State W)
      → Told result (state_in id s.db.requests) (state_in id s.db.requests)
      → Ends m id s.db.requests (result, s)
  unchanged id result s t = record {
    life = Evolved-refl s.db.requests;
    told = λ o. t;
    others = λ k d. kept _;
  }

  -- the request that is executed, as it was read
  module _ (stream : Bool) (actor : User) (r : ChangeRequest) where
    abbrev Waiting : List ChangeRequest → Type 0
    Waiting rs = (find_request r.id rs ≡ some r) × (is_awaiting r.state ≡ true)

    state_in-Waiting : (rs : List ChangeRequest) → Waiting rs → state_in r.id rs ≡ some r.state
    unfolding state_in
    state_in-Waiting rs (found, h) = rw found refl

    abbrev alone :
        (rs ss : List ChangeRequest) (b : RequestState)
        → Waiting rs
        → is_outcome b ≡ true
        → state_in r.id ss ≡ some b
        → ((j : ℕ) → j ≢ r.id → state_in j ss ≡ state_in j rs)
        → Alone r.id rs ss
    alone rs ss b w h own others = record {
      was = r.state;
      waited = state_in-Waiting rs w;
      awaited = w.1;
      is_now = b;
      own = own;
      life = moved-Evolved r.id rs ss r.state b (state_in-Waiting rs w) w.1 own h others;
      others = others;
    }

    claimed-Alone :
        (now : ℕ) (rs : List ChangeRequest)
        → Waiting rs
        → Alone r.id rs (update_rows (awaiting_id r.id) (claimed actor now) rs)
    claimed-Alone now rs w =
        alone rs _ dispatching w refl
          (state_in-own (awaiting_id r.id) (claimed actor now) (λ x. refl) r.id rs r w.0
            (ground (arith, w.1, ==_refl r.id)))
          (λ j h.
            state_in-other (awaiting_id r.id) (claimed actor now) (λ x. refl) r.id j rs
              (λ x e. (==_iff x.id r.id).0 (&&-true _ _ e).0) h)

    waiting-Alone : (rs : List ChangeRequest) → Waiting rs → Alone r.id rs rs
    waiting-Alone rs w = record {
      was = r.state;
      waited = state_in-Waiting rs w;
      awaited = w.1;
      is_now = r.state;
      own = state_in-Waiting rs w;
      life = Evolved-refl rs;
      others = λ j h. refl;
    }

    claim-Ends :
        (pre_raw : Bytes) (before : ℕ) (plan_sha : Bytes) (s : State W)
        → Waiting s.db.requests
        → Ends m r.id s.db.requests (claim m cfg stream actor r pre_raw before plan_sha s)
    unfolding claim
    claim-Ends pre_raw before plan_sha s w = ground (
      arith,
      unchanged r.id (err ctx_done) s refl,
      unchanged r.id (err (already_executed r.id)) s refl,
      execute-Ends stream s.db.requests actor r pre_raw before plan_sha
          (on_db
            (with_requests
              (update_rows (awaiting_id r.id) (claimed actor (m.now s.world)) s.db.requests))
            s)
          (claimed-Alone (m.now s.world) s.db.requests w),
    )

    hash_plan-Ends :
        (pre_raw : Bytes) (before : ℕ) (u : Check Bytes) (w : W) (db : Db)
        → Waiting db.requests
        → Ends m r.id db.requests (hash_plan m cfg stream actor r pre_raw before (u, w) db)
    unfolding hash_plan
    hash_plan-Ends pre_raw before (err e) w db h =
        unchanged r.id (err (io_error e)) (record { db = db; world = w }) refl
    hash_plan-Ends pre_raw before (ok u) w db h = hashed (plan_file_sha m cfg r.request_code w)
      where
        hashed :
            (p : Result Bytes Bytes)
            → Ends m r.id db.requests (elim p [
              | err e ↦ (err (io_error e), record { db = db; world = w })
              | ok plan_sha ↦
                  claim m cfg stream actor r pre_raw before plan_sha (record { db = db; world = w })
            ])
        hashed (err e) = unchanged r.id (err (io_error e)) (record { db = db; world = w }) refl
        hashed (ok plan_sha) = claim-Ends pre_raw before plan_sha (record { db = db; world = w }) h

    prepare-Ends :
        (pre_raw : Bytes) (before : ℕ) (s : State W)
        → Waiting s.db.requests
        → Ends m r.id s.db.requests (prepare m cfg stream actor r pre_raw before s)
    unfolding prepare
    prepare-Ends pre_raw before s h = counted (count pre_raw cfg.web.acl)
      where
        counted :
            (c : Result CountError ℕ)
            → Ends m r.id s.db.requests (elim c [
              | err e ↦ (err (uncounted e), s)
              | ok n ↦
                  hash_plan m cfg stream actor r pre_raw before
                    (update_plan_expect_count m cfg r.request_code n s.world)
                    s.db
            ])
        counted (err e) = unchanged r.id (err (uncounted e)) s refl
        counted (ok n) = hash_plan-Ends pre_raw before _ _ s.db h

    drifted-Ends :
        (s : State W)
        → Waiting s.db.requests
        → Ends m r.id s.db.requests (
          err drifted,
          on_db
              (audit (some actor) change_request r.id (codes "drift"))
              (must_update m (has_request_id r.id) (set_state drift) s),
        )
    drifted-Ends s h =
        audited m r.id s.db.requests (err drifted) _ actor r.id (codes "drift") (
          ended m r.id drift s.db.requests s (err drifted) (waiting-Alone s.db.requests h) refl
            refl)

    check_drift-Ends :
        (pre_raw : Bytes) (before : ℕ) (s : State W)
        → Waiting s.db.requests
        → Ends m r.id s.db.requests (check_drift m cfg stream actor r pre_raw (before, s))
    unfolding check_drift
    check_drift-Ends pre_raw before s h =
        ground (arith, drifted-Ends s h, prepare-Ends pre_raw before s h)

    pub examine-Ends :
        (x : (Reply × Option AgentError) × W) (db : Db)
        → Waiting db.requests
        → Ends m r.id db.requests (examine m cfg stream actor r x db)
    unfolding examine saved save_snapshot
    examine-Ends ((reply, some e), w) db h =
        unchanged r.id (err (snapshot_failed e)) (record { db = db; world = w }) refl
    examine-Ends ((reply, none), w) db h = bound (assert_binding cfg.web reply.response)
      where
        bound :
            (b : Check BindingError)
            → Ends m r.id db.requests (elim b [
              | err e ↦ (err (unbound e), record { db = db; world = w })
              | ok u ↦
                  check_drift m cfg stream actor r reply.response.raw
                    (saved m cfg reply.response.raw pre_dispatch (record { db = db; world = w }))
            ])
        bound (err e) = unchanged r.id (err (unbound e)) (record { db = db; world = w }) (inl refl)
        bound (ok u) = check_drift-Ends reply.response.raw _ _ h
