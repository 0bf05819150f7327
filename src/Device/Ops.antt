-- ===== src/Device/Ops.antt =====
-- internal/h3c/device/ops.go: what the agent does in a session.
pub mod Guard
pub mod Sent
pub mod Written
pub mod Guarded
use acl_edit_only.Base.{
  ℕ, Bool, true, false, not, Option, none, some, List, [], ◌∷◌, ◌++◌, if◌then◌else◌, any_of,
}
use acl_edit_only.Base.Text.{Bytes, codes, str_eq, has_prefix, trim_space, split, nl}
use acl_edit_only.Base.Decimal.{itoa, itoa_int}
use acl_edit_only.Base.Int.{ℤ, pos, negsuc, eq_ℤ}
use acl_edit_only.Base.Result.{Result, ok, err}
use acl_edit_only.Aclout.{CountError, count}
use acl_edit_only.Plan.{Plan}
use acl_edit_only.Device.Render.{
  RenderError, build_rule_cmd, build_comment_cmd, build_undo_rule_cmd, render_error_text,
}
use acl_edit_only.Device.Session.{
  Transport, Session, M, GoError, plain, session, error_text, output_of, ◌>>=◌, ◌>>◌, pure, raise,
  gets, on_error, in_stage, prompt_user_view, prompt_sys_view, try_exec, display_acl,
  enter_system_view, enter_acl_view, exec_in_acl_view, save, quit_acl_view, quit_sys_view,
}

-- "rule %d "
abbrev pub rule_prefix : ℤ → Bytes
rule_prefix rule_id = codes "rule " ++ (itoa_int rule_id ++ codes " ")

-- the loop over the lines of the output
unfoldable pub shows_rule : Bytes → ℤ → Bool
shows_rule out rule_id =
    any_of (λ line. has_prefix (trim_space line) (rule_prefix rule_id)) (split nl out)

-- `HeaderCount`
unfoldable pub header_count : Bytes → ℤ → ℤ
header_count display_out acl_num = elim (count display_out acl_num) [
  | ok n ↦ pos n
  | err e ↦ negsuc 0
]

-- the text of an error of `Count`, up to the numbers and the quoted output in it
count_error_text : CountError → Bytes
count_error_text (CountError.cut_short n m) =
    codes "the ACL header says "
    ++ (itoa n ++ (codes " rules but only " ++ (itoa m ++ codes " were read")))
count_error_text CountError.unreadable = codes "no readable ACL output"

abbrev pub guard_failed : Bytes → GoError
guard_failed why = session (codes "view") (codes "guard_failed: " ++ why) []

-- the comparison of the counts at the end of both guards; `none` is nil
judge_count : Result CountError ℕ → ℤ → Option GoError
unfolding count_error_text
judge_count (err e) expect_count = some (guard_failed (count_error_text e))
judge_count (ok n) expect_count =
    if eq_ℤ (pos n) expect_count
    then none
    else some (
        guard_failed
          (codes "expected " ++ (itoa_int expect_count ++ (codes " rules, got " ++ itoa n))))

unfoldable pub check_count : Bytes → ℤ → ℤ → Option GoError
unfolding judge_count
check_count out acl_num expect_count = judge_count (count out acl_num) expect_count

-- what `GuardCheck` makes of the output
unfoldable pub judge_absent : Bytes → ℤ → ℤ → ℤ → Option GoError
judge_absent out acl_num rule_id expect_count =
    if shows_rule out rule_id
    then some (guard_failed (codes "rule " ++ (itoa_int rule_id ++ codes " already exists")))
    else check_count out acl_num expect_count

-- what `GuardCheckExisting` makes of the output
unfoldable pub judge_present : Bytes → ℤ → ℤ → ℤ → Option GoError
judge_present out acl_num rule_id expect_count =
    if not (shows_rule out rule_id)
    then some (
        guard_failed
          (codes "rule " ++ (itoa_int rule_id ++ codes " is not in the ACL; nothing to delete")))
    else check_count out acl_num expect_count

abbrev pub raise_some : {C : Type 0} → Option GoError → M C (Unit {0})
raise_some none = pure tt
raise_some (some e) = raise e

-- a step that cannot reach the device
abbrev pub or_raise : {C : Type 0} {A : Type 0} → Result RenderError A → Bytes → M C A
or_raise (ok a) stage = pure a
or_raise (err e) stage = raise (session stage (render_error_text e) [])

-- the error of a comment that was refused, and of the undoing of its rule
unfoldable comment_error : GoError → Result GoError (Unit {0}) → GoError
comment_error e (err e') =
    session (codes "comment")
      (codes "comment failed + undo failed: " ++ (error_text e ++ (codes " / " ++ error_text e')))
      []
comment_error e (ok u) =
    session (codes "comment") (codes "comment failed, rule undone: " ++ error_text e) []

module _ {C : Type 0} (tr : Transport C) where
  unfoldable pub guard_display : M C Bytes
  guard_display =
      on_error (display_acl tr)
        (λ e. session (codes "view") (codes "guard display: " ++ error_text e) (output_of e))

  -- `GuardCheck`
  unfoldable pub guard_check : ℤ → ℤ → M C (Unit {0})
  unfolding guard_display
  guard_check rule_id expect_count = do
    out ← guard_display
    acl_num ← gets (λ s. s.acl_num)
    raise_some (judge_absent out acl_num rule_id expect_count)

  -- `GuardCheckExisting`
  unfoldable pub guard_check_existing : ℤ → ℤ → M C (Unit {0})
  unfolding guard_display
  guard_check_existing rule_id expect_count = do
    out ← guard_display
    acl_num ← gets (λ s. s.acl_num)
    raise_some (judge_present out acl_num rule_id expect_count)

  -- `Snapshot`: the error of the first command is ignored
  unfoldable pub snapshot : M C Bytes
  snapshot s =
      let (r, s') =
        try_exec tr (codes "screen-length disable") (prompt_user_view ∷ prompt_sys_view ∷ []) s in
      display_acl tr s'

  -- the comment command of a plan; the empty text is none
  unfoldable pub comment_cmd_of : Plan → M C Bytes
  comment_cmd_of p =
      if str_eq p.comment []
      then pure []
      else or_raise (build_comment_cmd p.rule_id p.comment) (codes "comment")

  -- when the comment is refused the rule is undone
  unfoldable pub undo_after_comment : ℤ → GoError → M C (Unit {0})
  unfolding comment_error
  undo_after_comment rule_id e s =
      let (undone, s') = exec_in_acl_view tr (build_undo_rule_cmd rule_id) s in
      (err (comment_error e undone), s')

  unfoldable pub write_comment : ℤ → Bytes → M C (Unit {0})
  unfolding undo_after_comment
  write_comment rule_id comment_cmd s =
      let (r, s') = exec_in_acl_view tr comment_cmd s in
      if str_eq comment_cmd []
      then (ok tt, s)
      else elim r [ ok u ↦ (ok tt, s') | err e ↦ undo_after_comment rule_id e s' ]

  -- what follows a guard that passed, in `Apply`
  unfoldable pub write_rule : Plan → Bytes → Bytes → M C (Unit {0})
  unfolding write_comment
  write_rule p rule_cmd comment_cmd = do
    in_stage (codes "write") (exec_in_acl_view tr rule_cmd)
    write_comment p.rule_id comment_cmd
    quit_acl_view tr
    quit_sys_view tr
    save tr

  -- `Apply`
  unfoldable pub apply : Plan → M C (Unit {0})
  unfolding comment_cmd_of
  apply p = do
    rule_cmd ← or_raise (build_rule_cmd p) (codes "write")
    comment_cmd ← comment_cmd_of p
    enter_system_view tr
    enter_acl_view tr
    guard_check p.rule_id p.expect_count_before
    write_rule p rule_cmd comment_cmd

  unfoldable pub remove_rule : ℤ → M C (Unit {0})
  remove_rule rule_id = do
    in_stage (codes "write") (exec_in_acl_view tr (build_undo_rule_cmd rule_id))
    quit_acl_view tr
    quit_sys_view tr
    save tr

  -- `Remove`
  unfoldable pub remove : ℤ → ℤ → M C (Unit {0})
  remove rule_id expect_count = do
    enter_system_view tr
    enter_acl_view tr
    guard_check_existing rule_id expect_count
    remove_rule rule_id

  -- `Rollback`: the error of the last step is ignored
  unfoldable pub rollback : ℤ → M C (Unit {0})
  rollback rule_id = do
    enter_system_view tr
    enter_acl_view tr
    in_stage (codes "write") (exec_in_acl_view tr (build_undo_rule_cmd rule_id))
    quit_acl_view tr
    λ s. (ok tt, (quit_sys_view tr s).1)
