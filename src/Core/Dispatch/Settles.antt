-- ===== src/Core/Dispatch/Settles.antt =====
-- DispatchStream of internal/aclweb/core/core.go: what its result says of the request.
use acl_edit_only.Base.{
  ℕ, ◌≡◌, ◌≢◌, refl, sym, subst, ◌⊎◌, inl, inr, Bool, true, false, Bool-cases, Option, some, List,
  arith,
}
use acl_edit_only.Core.Binding.{binding_mismatch}
use acl_edit_only.Base.Text.{codes, Bytes, str_eq}
use acl_edit_only.Base.Result.{ok, err, Check, done}
use acl_edit_only.Core.Rows.{
  ChangeRequest, User, RequestState, RequestAction, add_rule, delete_rule, active, dispatch_failed,
  drift, inconsistent, revoked, set_state, update_rows, audit,
}
use acl_edit_only.Core.Spawn.{Machine, ServiceConfig, AgentError, Reply}
use acl_edit_only.Core.Service.{
  State, CoreError, unbound, drifted, failed_cleanly, left_inconsistent, has_request_id,
  with_requests, must_update, on_db, change_request,
}
use acl_edit_only.Core.Verify.{Mismatch, fingerprint_raw}
use acl_edit_only.Core.Life.{is_outcome, state_in, Evolved, Evolved-trans}
use acl_edit_only.Core.Settle.{
  active_rule, conclude_failure, handle_dispatch_failure, complete, verified, verify_action, settle,
}
use acl_edit_only.Core.Dispatch.Moves.{
  Alone, Untouched, same-Untouched, revoked_others, revoked_stays, set_own, set_others, set-Evolved,
  revoke-Evolved,
}

-- what the result says of the state of the request, which was `before` and is `after`
abbrev pub Told : Check CoreError → Option RequestState → Option RequestState → Type 0
Told (ok u) before after = (after ≡ some active) ⊎ (after ≡ some revoked)
Told (err failed_cleanly) before after = after ≡ some dispatch_failed
Told (err left_inconsistent) before after = after ≡ some inconsistent
Told (err drifted) before after = after ≡ some drift
Told (err (unbound e)) before after = (after ≡ before) ⊎ (after ≡ some inconsistent)
Told (err _) before after = after ≡ before

module _ {W : Type 0} (m : Machine W) where
  -- how a call has ended that was made on the rows `rs`
  pub record Ends (id : ℕ) (rs : List ChangeRequest) (out : Check CoreError × State W)
      : Type 0 where
    pub life : Evolved rs out.1.db.requests
    pub told :
        m.ctx_open out.1.world ≡ true → Told out.0 (state_in id rs) (state_in id out.1.db.requests)
    pub others : (k : ℕ) → k ≢ id → Untouched (state_in k rs) (state_in k out.1.db.requests)

  -- the update that ends a call
  pub ended :
      (id : ℕ) (st : RequestState) (rs : List ChangeRequest) (s : State W)
      (result : Check CoreError)
      → Alone id rs s.db.requests
      → is_outcome st ≡ true
      → Told result (state_in id rs) (some st)
      → Ends id rs (result, must_update m (has_request_id id) (set_state st) s)
  unfolding must_update
  ended id st rs s result c h t = elim (Bool-cases (m.ctx_open s.world)) [
    | inl e ↦ rw e (record {
      life = set-Evolved id st rs s.db.requests c h;
      told = λ o.
          subst (λ x. Told result (state_in id rs) x) (sym (set_own id st rs s.db.requests c)) t;
      others = λ k d. same-Untouched _ _ (set_others id st rs s.db.requests c k d);
    })
    | inr e ↦ rw e (record {
      life = c.life;
      told = λ o. cc;
      others = λ k d. same-Untouched _ _ (c.others k d);
    })
  ]

  must_update-open :
      (where_ : ChangeRequest → Bool) (set : ChangeRequest → ChangeRequest) (s : State W)
      → m.ctx_open s.world ≡ true
      → must_update m where_ set s ≡ on_db (with_requests (update_rows where_ set s.db.requests)) s
  unfolding must_update
  must_update-open where_ set s h = rw h refl

  must_update-closed :
      (where_ : ChangeRequest → Bool) (set : ChangeRequest → ChangeRequest) (s : State W)
      → m.ctx_open s.world ≡ false
      → must_update m where_ set s ≡ s
  unfolding must_update
  must_update-closed where_ set s h = rw h refl

  -- an entry of the audit log changes nothing of this
  pub audited :
      (id : ℕ) (rs : List ChangeRequest) (result : Check CoreError) (s : State W) (actor : User)
      (entity : ℕ) (event : Bytes)
      → Ends id rs (result, s)
      → Ends id rs (result, on_db (audit (some actor) change_request entity event) s)
  unfolding audit
  audited id rs result s actor entity event h = record {
    life = h.life;
    told = h.told;
    others = h.others;
  }

  module _ (cfg : ServiceConfig) (rs : List ChangeRequest) (actor : User) (r : ChangeRequest)
      (pre_raw : Bytes) where
    failed :
        (result : Check CoreError) (st : RequestState) (event : Bytes) (s : State W)
        → Alone r.id rs s.db.requests
        → is_outcome st ≡ true
        → Told result (state_in r.id rs) (some st)
        → Ends r.id rs (
          result,
          on_db
              (audit (some actor) change_request r.id event)
              (must_update m (has_request_id r.id) (set_state st) s),
        )
    failed result st event s c h t =
        audited r.id rs result _ actor r.id event (ended r.id st rs s result c h t)

    conclude_failure-Ends :
        (post_raw : Bytes) (s : State W)
        → Alone r.id rs s.db.requests
        → Ends r.id rs (conclude_failure m cfg actor r pre_raw post_raw s)
    unfolding conclude_failure
    conclude_failure-Ends post_raw s c =
        elim (Bool-cases
          (str_eq (fingerprint_raw m.sha256 pre_raw) (fingerprint_raw m.sha256 post_raw))) [
            | inl e ↦ rw e (failed (err failed_cleanly) dispatch_failed _ s c refl refl)
            | inr e ↦ rw e (failed (err left_inconsistent) inconsistent _ s c refl refl)
          ]

    handle_dispatch_failure-Ends :
        (s : State W)
        → Alone r.id rs s.db.requests
        → Ends r.id rs (handle_dispatch_failure m cfg actor r pre_raw s)
    unfolding handle_dispatch_failure
    handle_dispatch_failure-Ends s c = conclude_failure-Ends _ (record s { world = _ }) c

    -- a deletion revokes its own request, and then the active ones for its rule
    revoked_end :
        (s : State W)
        → Alone r.id rs s.db.requests
        → Ends r.id rs (
          done,
          must_update m
              (active_rule r.rule_id)
              (set_state revoked)
              (must_update m (has_request_id r.id) (set_state revoked) s),
        )
    revoked_end s c = elim (Bool-cases (m.ctx_open s.world)) [
      | inl e ↦
          subst
            (λ x. Ends r.id rs (done, must_update m (active_rule r.rule_id) (set_state revoked) x))
            (sym (must_update-open (has_request_id r.id) (set_state revoked) s e))
            (subst (λ x. Ends r.id rs (done, x))
              (sym (
                must_update-open (active_rule r.rule_id) (set_state revoked)
                  (on_db
                    (with_requests
                      (update_rows (has_request_id r.id) (set_state revoked) s.db.requests))
                    s)
                  e))
              (record {
                life =
                    Evolved-trans rs _ _ (set-Evolved r.id revoked rs s.db.requests c refl)
                      (revoke-Evolved r.rule_id _);
                told = λ o. inr (
                    revoked_stays r.id (active_rule r.rule_id) _
                      (set_own r.id revoked rs s.db.requests c));
                others = revoked_others r.id revoked rs s.db.requests c r.rule_id;
              }))
      | inr e ↦
          subst
            (λ x. Ends r.id rs (done, must_update m (active_rule r.rule_id) (set_state revoked) x))
            (sym (must_update-closed (has_request_id r.id) (set_state revoked) s e))
            (subst (λ x. Ends r.id rs (done, x))
              (sym (must_update-closed (active_rule r.rule_id) (set_state revoked) s e))
              (record {
                life = c.life;
                told = λ o. cc;
                others = λ k d. same-Untouched _ _ (c.others k d);
              }))
    ]

    complete-Ends :
        (action : RequestAction) (s : State W)
        → Alone r.id rs s.db.requests
        → Ends r.id rs (done, complete m cfg actor r action s)
    unfolding complete
    complete-Ends add_rule s c = failed done active _ s c refl (inl refl)
    complete-Ends delete_rule s c = audited r.id rs done _ actor r.id _ (revoked_end s c)

    verified-Ends :
        (v : Check Mismatch) (s : State W)
        → Alone r.id rs s.db.requests
        → Ends r.id rs (verified m cfg actor r pre_raw v s)
    unfolding verified audit
    verified-Ends (ok u) s c = complete-Ends r.action s c
    verified-Ends (err e) s c =
        handle_dispatch_failure-Ends (on_db (audit (some actor) change_request r.id _) s) c

    pub settle-Ends :
        (post_raw : Bytes) (reply : Reply) (run_err : Option AgentError) (s : State W)
        → Alone r.id rs s.db.requests
        → Ends r.id rs (settle m cfg actor r pre_raw post_raw (reply, run_err) s)
    unfolding settle
    settle-Ends post_raw reply run_err s c = ground (
      arith,
      failed (err (unbound binding_mismatch)) inconsistent (codes "binding_mismatch") s c refl
          (inr refl),
      handle_dispatch_failure-Ends s c,
      verified-Ends (verify_action r.action pre_raw post_raw cfg.web.acl r.rule_id) s c,
    )
