-- ===== src/Device/Ops/Written.antt =====
-- What `Apply` and `Remove` of internal/h3c/device/ops.go send once their guard has passed, by what
-- the switch accepts of it.
use acl_edit_only.Base.{◌≡◌, ◌≢◌, refl, ◌⊎◌, inl, inr, [], ◌∷◌, ◌++◌}
use acl_edit_only.Base.Text.{Bytes, codes, str_eq}
use acl_edit_only.Base.Decimal.{itoa_int}
use acl_edit_only.Base.Int.{ℤ}
use acl_edit_only.Base.Result.{Result, ok, err}
use acl_edit_only.Plan.{Plan}
use acl_edit_only.Device.Render.{build_undo_rule_cmd}
use acl_edit_only.Device.Session.{
  Transport, Session, M, GoError, ◌>>◌, after, in_stage, exec_in_acl_view, save, quit_acl_view,
  quit_sys_view, prompt_user_view, prompt_sys_view,
}
use acl_edit_only.Device.Ops.{undo_after_comment, write_comment, write_rule, remove_rule}
use acl_edit_only.Device.Ops.Guard.{Failed}
use acl_edit_only.Device.Ops.Sent.{
  line, Sends, exec-Sends, exec_in_acl_view-Sends, Saves, save-Saves,
}

abbrev pub undo_text : ℤ → Bytes
undo_text rule_id = codes "undo rule " ++ itoa_int rule_id

module _ {C : Type 0} (tr : Transport C) where
  abbrev Res : Type 0
  Res = Result GoError (Unit {0}) × Session C

  -- a step came to the end of the operation, or to what follows it
  abbrev pub Came : (Session C → Res → Type 0) → (Session C → Res → Type 0) → Res → Res → Type 0
  Came stop go (r, s₁) res = (Failed r × stop s₁ res) ⊎ ((r ≡ ok tt) × go s₁ res)

  -- the one command `cmd` is sent; where the switch refuses it `stop` holds, and otherwise `go`, of the
  -- session after it and the end of the operation
  abbrev pub Step :
      M C (Unit {0})
      → Bytes
      → (Session C → Res → Type 0)
      → (Session C → Res → Type 0)
      → Session C
      → Res
      → Type 0
  Step m cmd stop go s res = ((m s).1.sent ≡ line cmd ∷ s.sent) × Came stop go (m s) res

  -- the operation has failed, and nothing more was sent
  abbrev pub Stops : Session C → Res → Type 0
  Stops s₁ res = Failed res.0 × (res.1 ≡ s₁)

  -- both views are left, and the configuration is saved
  abbrev pub Leaves : Session C → Res → Type 0
  Leaves =
      Step (quit_acl_view tr) (codes "quit") Stops
        (Step (quit_sys_view tr) (codes "quit") Stops (Saves tr))

  -- the rule is undone, and the operation has failed
  abbrev pub Undone : ℤ → Session C → Res → Type 0
  Undone rule_id s₁ res = Failed res.0 × (res.1.sent ≡ line (undo_text rule_id) ∷ s₁.sent)

  -- the comment is written, if there is one
  abbrev pub Comments : ℤ → Bytes → Session C → Res → Type 0
  Comments rule_id comment_cmd s res =
      ((comment_cmd ≡ []) × Leaves s res)
      ⊎ ((comment_cmd ≢ [])
          × Step (exec_in_acl_view tr comment_cmd) comment_cmd (Undone rule_id) Leaves s res)

  abbrev pub WritesRule : ℤ → Bytes → Bytes → Session C → Res → Type 0
  WritesRule rule_id rule_cmd comment_cmd =
      Step (in_stage (codes "write") (exec_in_acl_view tr rule_cmd)) rule_cmd Stops
        (Comments rule_id comment_cmd)

  abbrev pub UndoesRule : ℤ → Session C → Res → Type 0
  UndoesRule rule_id =
      Step (in_stage (codes "write") (exec_in_acl_view tr (build_undo_rule_cmd rule_id)))
        (undo_text rule_id) Stops Leaves

  came :
      (go : Session C → Res → Type 0) (k : M C (Unit {0}))
      → ((s : Session C) → go s (k s))
      → (r : Result GoError (Unit {0})) (s₁ : Session C)
      → Came Stops go (r, s₁) (after (λ u. k) r s₁)
  came go k h (ok u) s₁ = inr (refl, h s₁)
  came go k h (err e) s₁ = inl ((e, refl), ((e, refl), refl))

  then_Step :
      (m : M C (Unit {0})) (cmd : Bytes) (go : Session C → Res → Type 0) (k : M C (Unit {0}))
      → Sends (line cmd ∷ []) m
      → ((s : Session C) → go s (k s))
      → (s : Session C) → Step m cmd Stops go s ((m >> k) s)
  then_Step m cmd go k sends h s = (sends s, came go k h (m s).0 (m s).1)

  leave : M C (Unit {0})
  leave = quit_acl_view tr >> (quit_sys_view tr >> save tr)

  leave-Leaves : (s : Session C) → Leaves s (leave s)
  unfolding leave quit_acl_view quit_sys_view
  leave-Leaves =
      then_Step (quit_acl_view tr) (codes "quit")
        (Step (quit_sys_view tr) (codes "quit") Stops (Saves tr)) (quit_sys_view tr >> save tr)
        (exec-Sends tr (codes "quit") (prompt_sys_view ∷ []))
        (then_Step (quit_sys_view tr) (codes "quit") (Saves tr) (save tr)
          (exec-Sends tr (codes "quit") (prompt_user_view ∷ [])) (save-Saves tr))

  pub remove_rule-UndoesRule :
      (rule_id : ℤ) (s : Session C) → UndoesRule rule_id s (remove_rule tr rule_id s)
  unfolding remove_rule leave build_undo_rule_cmd
  remove_rule-UndoesRule rule_id s =
      then_Step (in_stage (codes "write") (exec_in_acl_view tr (build_undo_rule_cmd rule_id)))
        (undo_text rule_id) Leaves leave (exec_in_acl_view-Sends tr (build_undo_rule_cmd rule_id))
        leave-Leaves s

  undo-Undone :
      (rule_id : ℤ) (e : GoError) (s : Session C)
      → Undone rule_id s (
          after
            (λ u. leave)
            (undo_after_comment tr rule_id e s).0
            (undo_after_comment tr rule_id e s).1)
  unfolding undo_after_comment build_undo_rule_cmd
  undo-Undone rule_id e s = ((_, refl), exec_in_acl_view-Sends tr (build_undo_rule_cmd rule_id) s)

  -- what follows the command of the comment
  after_comment :
      (rule_id : ℤ) (r : Result GoError (Unit {0})) (s₁ : Session C)
      → let w = elim r as (λ x. Res) [
        | ok u ↦ (ok tt, s₁)
        | err e ↦ undo_after_comment tr rule_id e s₁
      ] in
        Came (Undone rule_id) Leaves (r, s₁) (after (λ u. leave) w.0 w.1)
  after_comment rule_id (ok u) s₁ = inr (refl, leave-Leaves s₁)
  after_comment rule_id (err e) s₁ = inl ((e, refl), undo-Undone rule_id e s₁)

  -- the comment, and what follows it
  commented :
      (rule_id : ℤ) (comment_cmd : Bytes) (s : Session C)
      → Comments rule_id comment_cmd s ((write_comment tr rule_id comment_cmd >> leave) s)
  unfolding write_comment str_eq
  commented rule_id [] s = inl (refl, leave-Leaves s)
  commented rule_id (c ∷ cmd) s =
      let (r, s₁) = exec_in_acl_view tr (c ∷ cmd) s in
      inr (λ e. cc e, (exec_in_acl_view-Sends tr (c ∷ cmd) s, after_comment rule_id r s₁))

  pub write_rule-WritesRule :
      (p : Plan) (rule_cmd comment_cmd : Bytes) (s : Session C)
      → WritesRule p.rule_id rule_cmd comment_cmd s (write_rule tr p rule_cmd comment_cmd s)
  unfolding write_rule leave
  write_rule-WritesRule p rule_cmd comment_cmd s =
      then_Step (in_stage (codes "write") (exec_in_acl_view tr rule_cmd)) rule_cmd
        (Comments p.rule_id comment_cmd) (write_comment tr p.rule_id comment_cmd >> leave)
        (exec_in_acl_view-Sends tr rule_cmd) (commented p.rule_id comment_cmd) s
