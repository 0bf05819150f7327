-- ===== src/Agent/Run/Checked.antt =====
-- What `doApply` of cmd/aclagent/main.go has checked before it connects to the switch, and what it has
-- done where it reports success.
use acl_edit_only.Base.{
  ℕ, ◌<◌, ◌≡◌, ◌≢◌, refl, ap, subst, ◌⊎◌, inl, inr, ◌↔◌, Bool, Bool-cases, not, leb, true, false,
  Option, none, some, length, take, arith,
}
use acl_edit_only.Base.Text.{Bytes, str_eq, str_eq_iff}
use acl_edit_only.Base.Result.{
  Result, ok, err, done, map_err, fail_if, >>=-eq-ok, map_err-eq-ok, fail_if-eq-ok,
}
use acl_edit_only.Plan.{Plan, op_delete, AgentResult, plan_rejected, guard_failed, success, save}
use acl_edit_only.Plan.Validate.{validate_for_agent, validate_request_id}
use acl_edit_only.Device.Session.{Transport, Session, M, Auth, GoError}
use acl_edit_only.Device.Ops.{apply, remove}
use acl_edit_only.Agent.Config.{AgentConfig}
use acl_edit_only.Agent.Guard.{absolute_guard}
use acl_edit_only.Agent.Faults.{result_from_se-not_success}
use acl_edit_only.Agent.Run.{
  Host, Response, bad_request_id, unread, too_large, sha_mismatch, decoded, plan_path,
  load_and_verify_plan, admit, take_quota, run_op, report, respond, in_new_session, run_plan,
  carry_out, after_quota, do_apply,
}

decoded-eq-ok : (r : Option Bytes × Plan) (p : Plan) → decoded r ≡ ok p → r ≡ (none, p)
decoded-eq-ok (none, q) p h = ap (λ x. (none, x)) (cc h)
decoded-eq-ok (some e, q) p h = cc h

leb-false : (m n : ℕ) → leb m n ≡ false → n < m
leb-false m n h = ground arith

not-false : (b : Bool) → not b ≡ false → b ≡ true
not-false true h = refl
not-false false h = cc h

ok-injective : {E A : Type 0} (a b : A) → ◌≡◌ {A = Result E A} (ok a) (ok b) → a ≡ b
ok-injective a b h = cc h

module _ {W : Type 0} (host : Host W) (cfg : AgentConfig) (request_id want_sha : Bytes) (w : W)
    (p : Plan) where
  -- the plan file is the one that was named by its hash, and it is a plan
  pub record Verified : Type 0 where
    pub file : Bytes
    pub read : host.read_file (plan_path host cfg request_id) w ≡ ok file
    pub small : length (take 8192 file) < 8192
    pub hash : host.sha256 (take 8192 file) ≡ want_sha
    pub plan : host.decode (take 8192 file) ≡ (none, p)

  abbrev pub Admissible : Type 0
  Admissible =
      (validate_request_id request_id ≡ done)
      × Verified
      × (validate_for_agent p cfg.range_min cfg.range_max cfg.alloc_max ≡ done)
      × (absolute_guard p ≡ done)

  verified :
      load_and_verify_plan host cfg request_id want_sha w ≡ ok p
      → (validate_request_id request_id ≡ done) × Verified
  unfolding load_and_verify_plan
  verified h =
      let (_, a, h₁) = >>=-eq-ok (map_err bad_request_id (validate_request_id request_id)) _ h in
      let (file, b, h₂) =
        >>=-eq-ok (map_err unread (host.read_file (plan_path host cfg request_id) w)) _ h₁ in
      let (_, c, h₃) = >>=-eq-ok (fail_if (leb 8192 (length (take 8192 file))) too_large) _ h₂ in
      let (_, d, h₄) =
        >>=-eq-ok
          (fail_if (not (str_eq (host.sha256 (take 8192 file)) want_sha))
            (sha_mismatch (host.sha256 (take 8192 file))))
          _ h₃ in
      (
        map_err-eq-ok bad_request_id (validate_request_id request_id) a,
        record {
          file = file;
          read = map_err-eq-ok unread (host.read_file (plan_path host cfg request_id) w) b;
          small =
              leb-false 8192 (length (take 8192 file))
                (fail_if-eq-ok (leb 8192 (length (take 8192 file))) too_large c);
          hash = (str_eq_iff (host.sha256 (take 8192 file)) want_sha).0 (
              not-false (str_eq (host.sha256 (take 8192 file)) want_sha) (
                fail_if-eq-ok (not (str_eq (host.sha256 (take 8192 file)) want_sha))
                  (sha_mismatch (host.sha256 (take 8192 file))) d));
          plan = decoded-eq-ok (host.decode (take 8192 file)) p h₄;
        },
      )

  pub admit-Admissible : admit host cfg request_id want_sha w ≡ ok p → Admissible
  unfolding admit
  admit-Admissible h =
      let (q, a, h₁) =
        >>=-eq-ok
          (map_err (λ e. plan_rejected) (load_and_verify_plan host cfg request_id want_sha w)) _
          h in
      let (_, b, h₂) =
        >>=-eq-ok
          (map_err (λ e. guard_failed)
            (validate_for_agent q cfg.range_min cfg.range_max cfg.alloc_max))
          _ h₁ in
      let (_, c, h₃) = >>=-eq-ok (map_err (λ e. guard_failed) (absolute_guard q)) _ h₂ in
      let (l, v, g) =
        subst
          (λ x.
            (load_and_verify_plan host cfg request_id want_sha w ≡ ok x)
            × (validate_for_agent x cfg.range_min cfg.range_max cfg.alloc_max ≡ done)
            × (absolute_guard x ≡ done))
          (ok-injective q p h₃)
          (
            map_err-eq-ok (λ e. plan_rejected) (load_and_verify_plan host cfg request_id want_sha w)
                a,
            map_err-eq-ok (λ e. guard_failed)
                (validate_for_agent q cfg.range_min cfg.range_max cfg.alloc_max) b,
            map_err-eq-ok (λ e. guard_failed) (absolute_guard q) c,
          ) in
      let (id, file) = verified l in (id, file, v, g)

module _ {C W : Type 0} (tr : Transport C) (host : Host W) (cfg : AgentConfig) (auth : Auth)
    (request_id want_sha : Bytes) where
  -- the operation of a plan: a deletion removes the rule, and anything else applies the plan
  abbrev pub IsOperation : Plan → M C (Unit {0}) → Type 0
  IsOperation p op =
      ((p.op ≡ op_delete) × (op ≡ remove tr p.rule_id p.expect_count_before))
      ⊎ ((p.op ≢ op_delete) × (op ≡ apply tr p))

  run_op-IsOperation : (p : Plan) → IsOperation p (run_op tr p)
  unfolding run_op
  run_op-IsOperation p = elim (Bool-cases (str_eq p.op op_delete)) [
    | inl e ↦ rw e (inl ((str_eq_iff p.op op_delete).0 e, refl))
    | inr e ↦ rw e (inr (λ h. ground (arith, str_eq_iff p.op op_delete), refl))
  ]

  -- nothing was sent to the device, and no success is reported
  abbrev pub Stopped : Response × Option (Session C) × W → Type 0
  Stopped (r, s, w) = (s ≡ none) × (r.result ≢ success)

  -- an admissible plan was carried out in a new session; success is reported only if it succeeded
  abbrev pub CarriedOut : C → Response × Option (Session C) × W → Type 0
  CarriedOut conn (r, s, w') =
      (p : Plan) × (op : M C (Unit {0})) × Admissible host cfg request_id want_sha w' p
      × IsOperation p op
      × (s ≡ some (in_new_session tr cfg auth op conn).1)
      × ((r.result ≡ success) ↔ ((in_new_session tr cfg auth op conn).0 ≡ ok tt))

  report-success :
      (r : Result GoError (Unit {0})) (s : Session C)
      → ((report tr cfg success save r s).result ≡ success) ↔ (r ≡ ok tt)
  unfolding report respond
  report-success (ok u) s = ((λ h. refl), (λ h. refl))
  report-success (err e) s = ((λ h. absurd (result_from_se-not_success e h)), (λ h. cc h))

  admit-not_success :
      (w : W) (r : AgentResult) → admit host cfg request_id want_sha w ≡ err r → r ≢ success
  unfolding admit
  admit-not_success w r h e = ground arith

  carry_out-checked :
      (w : W) (conn : C) (a : Result AgentResult Plan)
      → admit host cfg request_id want_sha w ≡ a
      → Stopped (carry_out tr host cfg auth w conn a)
        ⊎ CarriedOut conn (carry_out tr host cfg auth w conn a)
  unfolding carry_out respond run_plan
  carry_out-checked w conn (err r) h = inl (refl, admit-not_success w r h)
  carry_out-checked w conn (ok p) h = inr (
    p,
    run_op tr p,
    admit-Admissible host cfg request_id want_sha w p h,
    run_op-IsOperation p,
    refl,
    report-success (in_new_session tr cfg auth (run_op tr p) conn).0
        (in_new_session tr cfg auth (run_op tr p) conn).1,
  )

  after_quota-checked :
      (conn : C) (q : Bool × W)
      → Stopped (after_quota tr host cfg auth request_id want_sha conn q)
        ⊎ CarriedOut conn (after_quota tr host cfg auth request_id want_sha conn q)
  unfolding after_quota respond
  after_quota-checked conn (false, w) = inl (refl, (λ h. ground arith))
  after_quota-checked conn (true, w) =
      carry_out-checked w conn (admit host cfg request_id want_sha w) refl

  -- `doApply` either makes no connection and reports no success, or carries out, in a new session, the
  -- operation of a plan, which is `Remove` for a deletion and `Apply` for anything else, and whose file
  -- has the hash that was asked for, that the agent admits for its range and that passes its absolute
  -- guard; then success is reported exactly if the operation succeeded.
  pub do_apply_checked :
      (w : W) (conn : C)
      → Stopped (do_apply tr host cfg auth request_id want_sha w conn)
        ⊎ CarriedOut conn (do_apply tr host cfg auth request_id want_sha w conn)
  unfolding do_apply
  do_apply_checked w conn = after_quota-checked conn (take_quota host cfg w)
