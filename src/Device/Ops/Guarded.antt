-- ===== src/Device/Ops/Guarded.antt =====
-- What `Apply` and `Remove` of internal/h3c/device/ops.go send to a switch before a guard has passed.
use acl_edit_only.Base.{
  ◌≡◌, refl, sym, ap, subst, ◌∙◌, ◌⊎◌, inl, inr, ◌≢◌, Bool, true, false, if◌then◌else◌, Option,
  none, some, [], arith,
}
use acl_edit_only.Base.Text.{Bytes, codes, str_eq, str_eq_iff}
use acl_edit_only.Base.Int.{ℤ}
use acl_edit_only.Base.Result.{Result, ok, err}
use acl_edit_only.Plan.{Plan}
use acl_edit_only.Device.Render.{build_rule_cmd, RenderError, build_comment_cmd}
use acl_edit_only.Device.Session.{
  Transport, Session, M, GoError, ◌>>=◌, pure, after, on_error, relabel, display_acl,
  enter_system_view, enter_acl_view,
}
use acl_edit_only.Device.Quiet.{Quiet, Follows, Follows-refl, bind-Quiet, if_both}
use acl_edit_only.Device.Quiet.Steps.{
  display_acl-Quiet, enter_system_view-Quiet, enter_acl_view-Quiet,
}
use acl_edit_only.Device.Ops.{
  judge_absent, judge_present, raise_some, or_raise, comment_cmd_of, guard_check,
  guard_check_existing, apply, write_rule, remove, remove_rule, guard_display,
}
use acl_edit_only.Device.Ops.Guard.{Failed, bind-Either}
use acl_edit_only.Device.Ops.Written.{
  WritesRule, UndoesRule, write_rule-WritesRule, remove_rule-UndoesRule,
}

module _ {C : Type 0} (tr : Transport C) (n : ℤ) where
  -- `rest` is what is left of an operation of result `res` once it has read ACL n, with a judgement
  -- that finds nothing wrong, having only navigated since `s`; `does` says what it then sends
  pub record Past (s : Session C) (judge : Bytes → Option GoError) (rest : M C (Unit {0}))
      (does : Session C → Result GoError (Unit {0}) × Session C → Type 0)
      (res : Result GoError (Unit {0}) × Session C) : Type 0 where
    pub shown : Bytes
    pub before : Session C
    pub reached : Session C
    pub entered : Follows n s before
    pub read : display_acl tr before ≡ (ok shown, reached)
    pub judged : judge shown ≡ none
    pub follows : Follows n s reached
    pub continues : res ≡ rest reached
    pub writes : does reached res

  raise_some-Quiet : (o : Option GoError) → Quiet n (raise_some {C = C} o)
  raise_some-Quiet none s h = Follows-refl n h
  raise_some-Quiet (some e) s h = Follows-refl n h

  or_raise-Quiet :
      {A : Type 0} (r : Result RenderError A) (stage : Bytes) → Quiet n (or_raise {C = C} r stage)
  or_raise-Quiet (ok a) stage s h = Follows-refl n h
  or_raise-Quiet (err e) stage s h = Follows-refl n h

  comment_cmd_of-Quiet : (p : Plan) → Quiet n (comment_cmd_of tr p)
  unfolding comment_cmd_of
  comment_cmd_of-Quiet p s h =
      if_both {A = M C Bytes} (λ m. Follows n s (m s).1) (str_eq p.comment []) _ _
        (Follows-refl n h)
        (or_raise-Quiet (build_comment_cmd p.rule_id p.comment) (codes "comment") s h)

  guard_display-Quiet : Quiet n (guard_display tr)
  unfolding guard_display
  guard_display-Quiet s h = display_acl-Quiet n tr s h

  guard_check-Quiet : (rule_id expect_count : ℤ) → Quiet n (guard_check tr rule_id expect_count)
  unfolding guard_check
  guard_check-Quiet rule_id expect_count =
      bind-Quiet n (guard_display tr) _ guard_display-Quiet
        (λ out s h. raise_some-Quiet (judge_absent out s.acl_num rule_id expect_count) s h)

  guard_check_existing-Quiet :
      (rule_id expect_count : ℤ) → Quiet n (guard_check_existing tr rule_id expect_count)
  unfolding guard_check_existing
  guard_check_existing-Quiet rule_id expect_count =
      bind-Quiet n (guard_display tr) _ guard_display-Quiet
        (λ out s h. raise_some-Quiet (judge_present out s.acl_num rule_id expect_count) s h)

  raise_some-ok :
      (o : Option GoError) (t s₁ : Session C) (u : Unit {0})
      → raise_some o t ≡ (ok u, s₁)
      → (o ≡ none) × (t ≡ s₁)
  raise_some-ok none t s₁ u h = (refl, ap (λ r. r.1) h)
  raise_some-ok (some e) t s₁ u h = ground (arith, ap (λ r. r.0) h)

  -- a guard that passes has read the output, and judged it
  passed :
      (judge : Bytes → ℤ → Option GoError) (f : GoError → GoError) (r : Result GoError Bytes)
      (t s₁ : Session C) (u : Unit {0})
      → after (λ out s. raise_some (judge out s.acl_num) s) (relabel f r) t ≡ (ok u, s₁)
      → (out : Bytes) × (r ≡ ok out) × (t ≡ s₁) × (judge out s₁.acl_num ≡ none)
  passed judge f (ok out) t s₁ u h =
      let (j, e) = raise_some-ok (judge out t.acl_num) t s₁ u h in
      (out, refl, e, ap (λ v. judge out v.acl_num) (sym e) ∙ j)
  passed judge f (err e) t s₁ u h = ground (arith, ap (λ r. r.0) h)

  -- the guard in front of what is left of an operation
  module _ (s : Session C) (judge : Bytes → ℤ → Option GoError) (f : GoError → GoError)
      (rest : M C (Unit {0})) (does : Session C → Result GoError (Unit {0}) × Session C → Type 0)
      (done : (u : Session C) → does u (rest u)) where
    guarded :
        (t u : Session C) (v : Unit {0})
        → Follows n s t
        → Follows n s u
        → (on_error (display_acl tr) f >>= λ out s'. raise_some (judge out s'.acl_num) s') t
          ≡ (ok v, u)
        → Past s (λ out. judge out n) rest does (rest u)
    guarded t u v k g h =
        let (out, e, q, j) = passed judge f (display_acl tr t).0 (display_acl tr t).1 u v h in
        record {
          shown = out;
          before = t;
          reached = u;
          entered = k;
          read = ap (λ r. (r, (display_acl tr t).1)) e ∙ ap (λ x. (ok out, x)) q;
          judged = subst (λ k. judge out k ≡ none) g.bound j;
          follows = g;
          continues = refl;
          writes = done u;
        }

  or_raise-ok :
      {A : Type 0} (r : Result RenderError A) (stage : Bytes) (a : A) (t u : Session C)
      → or_raise r stage t ≡ (ok a, u)
      → (r ≡ ok a) × (t ≡ u)
  or_raise-ok (ok b) stage a t u h = (ground (arith, ap (λ r. r.0) h), ap (λ r. r.1) h)
  or_raise-ok (err e) stage a t u h = ground (arith, ap (λ r. r.0) h)

  -- the command of the comment of a plan, which is empty where the plan has none
  abbrev pub IsComment : Plan → Bytes → Type 0
  IsComment p comment_cmd =
      ((p.comment ≡ []) × (comment_cmd ≡ []))
      ⊎ ((p.comment ≢ []) × (build_comment_cmd p.rule_id p.comment ≡ ok comment_cmd))

  rendered :
      (b : Bool) (r : Result RenderError Bytes) (comment_cmd : Bytes) (t u : Session C)
      → (if b then pure {C = C} [] else or_raise r (codes "comment")) t ≡ (ok comment_cmd, u)
      → ((b ≡ true) × (comment_cmd ≡ [])) ⊎ ((b ≡ false) × (r ≡ ok comment_cmd))
  rendered true r comment_cmd t u h = inl (refl, ground (arith, ap (λ r. r.0) h))
  rendered false r comment_cmd t u h =
      inr (refl, (or_raise-ok r (codes "comment") comment_cmd t u h).0)

  comment_cmd_of-IsComment :
      (p : Plan) (comment_cmd : Bytes) (t u : Session C)
      → comment_cmd_of tr p t ≡ (ok comment_cmd, u)
      → IsComment p comment_cmd
  unfolding comment_cmd_of
  comment_cmd_of-IsComment p comment_cmd t u h =
      elim (rendered (str_eq p.comment []) (build_comment_cmd p.rule_id p.comment) comment_cmd t u
        h) [
          | inl (e, c) ↦ inl ((str_eq_iff p.comment []).0 e, c)
          | inr (e, c) ↦ inr (λ k. ground (arith, str_eq_iff p.comment []), c)
        ]

  -- the commands of a plan, and the guard of `Apply` in front of writing them
  abbrev pub Writes : Plan → Session C → Result GoError (Unit {0}) × Session C → Type 0
  Writes p s res =
      (rule_cmd : Bytes) × (comment_cmd : Bytes) × (build_rule_cmd p ≡ ok rule_cmd)
      × IsComment p comment_cmd
      × Past s (λ out. judge_absent out n p.rule_id p.expect_count_before)
          (write_rule tr p rule_cmd comment_cmd) (WritesRule tr p.rule_id rule_cmd comment_cmd) res

  -- Over any device, `Apply` in a session bound to ACL n either fails having sent nothing but commands
  -- that enter the views and read ACL n, or renders both commands of the plan, only navigates up to a
  -- reading of ACL n on which the guard finds nothing wrong, and then sends exactly the command of the
  -- rule, that of its comment if the plan has one, "quit" twice, "save force", and "Y" if at all. It
  -- goes on only while each is accepted: it stops at the first refusal, and a refused comment is
  -- followed by the command that undoes the rule, and nothing else, before it fails.
  pub apply_guarded :
      (p : Plan) (s : Session C)
      → s.acl_num ≡ n
      → (Follows n s (apply tr p s).1 × Failed (apply tr p s).0) ⊎ Writes p s (apply tr p s)
  unfolding apply guard_check guard_display
  apply_guarded p s h =
      bind-Either n s X (or_raise (build_rule_cmd p) (codes "write")) _ s
        (or_raise-Quiet (build_rule_cmd p) (codes "write")) (Follows-refl n h)
        (λ rule_cmd s₁ e₁ g₁.
          bind-Either n s X (comment_cmd_of tr p) _ s₁ (comment_cmd_of-Quiet p) g₁
            (λ comment_cmd s₂ e₂ g₂.
              bind-Either n s X (enter_system_view tr) _ s₂ (enter_system_view-Quiet n tr) g₂
                (λ a s₃ e₃ g₃.
                  bind-Either n s X (enter_acl_view tr) _ s₃ (enter_acl_view-Quiet n tr) g₃
                    (λ b s₄ e₄ g₄.
                      bind-Either n s X (guard_check tr p.rule_id p.expect_count_before) _ s₄
                        (guard_check-Quiet p.rule_id p.expect_count_before) g₄
                        (λ c s₅ e₅ g₅.
                          let (r, q) =
                            or_raise-ok (build_rule_cmd p) (codes "write") rule_cmd s s₁ e₁ in
                          inr (
                            rule_cmd,
                            comment_cmd,
                            r,
                            comment_cmd_of-IsComment p comment_cmd s₁ s₂ e₂,
                            guarded s (λ out k. judge_absent out k p.rule_id p.expect_count_before)
                                _ (write_rule tr p rule_cmd comment_cmd)
                                (WritesRule tr p.rule_id rule_cmd comment_cmd)
                                (write_rule-WritesRule tr p rule_cmd comment_cmd) s₄ s₅ c g₄ g₅ e₅,
                          ))))))
    where
      X : Result GoError (Unit {0}) × Session C → Type 0
      X = Writes p s

  -- Over any device, `Remove` in a session bound to ACL n either fails having sent nothing but commands
  -- that enter the views and read ACL n, or only navigates up to a reading of ACL n on which the guard
  -- for an existing rule finds nothing wrong, and then sends exactly the command that undoes this rule,
  -- "quit" twice, "save force", and "Y" if at all, and stops at the first of them that is refused.
  pub remove_guarded :
      (rule_id expect_count : ℤ) (s : Session C)
      → s.acl_num ≡ n
      → (Follows n s (remove tr rule_id expect_count s).1
          × Failed (remove tr rule_id expect_count s).0)
        ⊎ Past s
            (λ out. judge_present out n rule_id expect_count)
            (remove_rule tr rule_id)
            (UndoesRule tr rule_id)
            (remove tr rule_id expect_count s)
  unfolding remove guard_check_existing guard_display
  remove_guarded rule_id expect_count s h =
      bind-Either n s X (enter_system_view tr) _ s (enter_system_view-Quiet n tr) (Follows-refl n h)
        (λ a s₁ e₁ g₁.
          bind-Either n s X (enter_acl_view tr) _ s₁ (enter_acl_view-Quiet n tr) g₁ (λ b s₂ e₂ g₂.
            bind-Either n s X (guard_check_existing tr rule_id expect_count) _ s₂
              (guard_check_existing-Quiet rule_id expect_count) g₂
              (λ c s₃ e₃ g₃. inr (
                guarded s (λ out k. judge_present out k rule_id expect_count) _
                  (remove_rule tr rule_id) (UndoesRule tr rule_id)
                  (remove_rule-UndoesRule tr rule_id) s₂ s₃ c g₂ g₃ e₃))))
    where
      X : Result GoError (Unit {0}) × Session C → Type 0
      X =
          Past s (λ out. judge_present out n rule_id expect_count) (remove_rule tr rule_id)
            (UndoesRule tr rule_id)
