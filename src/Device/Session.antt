-- ===== src/Device/Session.antt =====
-- internal/h3c/device/session.go and transport.go: a session over any transport. A method takes the
-- session and returns its result and the session after it. The connection is of any type, `C`; the
-- transcript is `raw_buf`, and the mirrors of it (`stream`, `wire`) are left out. `sent` is not in
-- the source: it lists every text that the session has sent, the last one first.
pub mod Monad
pub use Monad.*
use acl_edit_only.Base.{
  ℕ, zero, suc, Bool, true, false, ◌&&◌, ◌||◌, not, Option, none, some, List, [], ◌∷◌, ◌++◌, ltb,
  ◌==◌, if◌then◌else◌, length,
}
use acl_edit_only.Base.Text.{Bytes, codes, str_eq, contains, to_lower, drop_nul, quoted}
use acl_edit_only.Base.Decimal.{itoa, itoa_int}
use acl_edit_only.Base.Int.{ℤ}
use acl_edit_only.Base.Result.{Result, ok, err}
use acl_edit_only.Base.Regex.{Regex, matches}
use acl_edit_only.Device.Text.{
  prompt_re, more_re, username_prompt_re, password_prompt_re, acl_view_prompt_re,
  acl_view_numbered_re, display_this_acl_re, trailing_prompt, normalize_terminal,
  check_device_errors, quote_tail,
}

abbrev pub max_pages : ℕ
max_pages = 4000

abbrev crlf : Bytes
crlf = codes "\r\n"

abbrev pub prompt_user_view : Bytes
prompt_user_view = codes ">"

abbrev pub prompt_sys_view : Bytes
prompt_sys_view = codes "]"

module _ {C : Type 0} (tr : Transport C) where
  -- `s.tr.Send`
  unfoldable pub send : Bytes → M C (Unit {0})
  send txt s =
      let (r, conn) = tr.send txt s.conn in
      (nil_or r, record s { conn = conn; sent = txt ∷ s.sent })

  -- `record`: the auth phase is left out of the transcript, and so are the NUL bytes
  unfoldable pub record_out : Bytes → Session C → Session C
  record_out out s = if s.in_auth then s else record s { raw_buf = s.raw_buf ++ drop_nul out }

  unfoldable pub after_read : ReadResult → Session C → Result GoError (Bytes × ℕ) × Session C
  unfolding record_out
  after_read (got out i) s = (ok (out, i), record_out out s)
  after_read (fault out e) s = (err (session (codes "view") e out), record_out out s)

  -- `readUntilRe`; the text that was read before an error is kept in the error
  unfoldable pub read_until_re : List Regex → M C (Bytes × ℕ)
  unfolding after_read
  read_until_re res s =
      let (r, conn) = tr.read_until_re res s.conn in after_read r (record s { conn = conn })

  -- `readUntil`
  unfoldable pub read_until : List Bytes → M C (Bytes × ℕ)
  unfolding after_read
  read_until patterns s =
      let (r, conn) = tr.read_until patterns s.conn in after_read r (record s { conn = conn })

  -- `&SessionError{Stage: "write", Cause: checkDeviceErrors(out)}`, if it is an error
  abbrev pub refuse_errors : Bytes → M C (Unit {0})
  refuse_errors out = in_session (check_device_errors out) (λ e. session (codes "write") e out)

  -- `ExecOutput`
  unfoldable pub exec_output : Bytes → List Bytes → M C Bytes
  exec_output cmd wait_for = do
    in_stage (codes "write") (send (cmd ++ crlf))
    (out, i) ← read_until wait_for
    refuse_errors out
    pure out

  -- `Exec`
  unfoldable pub exec : Bytes → List Bytes → M C (Unit {0})
  exec cmd wait_for = do out ← exec_output cmd wait_for; pure tt

  -- `TryExec`
  unfoldable pub try_exec : Bytes → List Bytes → M C (Unit {0})
  try_exec cmd wait_for = do
    in_stage (codes "write") (send (cmd ++ crlf))
    (out, i) ← read_until wait_for
    in_session (check_device_errors out) plain

  -- what `Open` does when the first prompt asks who is connecting
  send_username : Auth → M C (Unit {0})
  send_username auth =
      if str_eq auth.username []
      then raise (
          session (codes "auth")
            (codes
              "the device asked for a username but the credential file holds only a password; put the username on the first line and the base64 of the password on the second")
            [])
      else do
        in_stage (codes "auth") (send (auth.username ++ crlf))
        on_error (read_until_re (password_prompt_re ∷ [])) (λ e.
            session (codes "auth")
              (codes "no password prompt: "
                ++ (error_text e ++ (codes "; the device sent " ++ quote_tail (output_of e))))
              [])
        pure tt

  login : Auth → M C (Unit {0})
  unfolding send_username
  login auth = do
    (out, idx) ←
        on_error (read_until_re (username_prompt_re ∷ password_prompt_re ∷ prompt_re ∷ [])) (λ e.
          session (codes "auth")
            (codes "no login prompt: "
              ++ (error_text e ++ (codes "; the device sent " ++ quote_tail (output_of e))))
            [])
    if idx == 0 then send_username auth else pure tt
    in_stage (codes "auth") (send (auth.password ++ crlf))
    (out', idx') ← on_error (read_until_re (prompt_re ∷ password_prompt_re ∷ [])) (λ e.
        session (codes "auth")
          (codes "login failed: "
            ++ (error_text e
                ++ (codes "; the device sent "
                    ++ quote_tail (scrub_password (output_of e) auth.password))))
          [])
    if idx' == 1
        then raise (session (codes "auth") (codes "authentication rejected") [])
        else pure tt

  -- `Open`
  unfoldable pub open_session : Auth → M C (Unit {0})
  unfolding login
  open_session auth = do
    set_auth true
    in_stage (codes "connect") (lift_conn tr.connect)
    login auth
    set_auth false

  -- The paging loop of `DisplayACL`; `left` is maxPages + 1 less `pages`. Each page but the last
  -- is answered with a space.
  unfoldable pub page_loop : ℕ → Bytes → M C Bytes
  page_loop zero full =
      raise (session (codes "view") (codes "output did not end after 4000 pages") full)
  page_loop (suc left) full = do
    (out, idx) ← read_until_re (more_re ∷ prompt_re ∷ [])
    elim (idx == 1) [
      | true ↦ pure (full ++ out)
      | false ↦ in_stage (codes "view") (send (codes " ")) >> page_loop left (full ++ out)
    ]

  unfoldable pub view_output : Bytes → M C Bytes
  view_output result = do
    in_session (check_device_errors result) (λ e. session (codes "view") e result)
    pure result

  -- `DisplayACL`
  unfoldable pub display_acl : M C Bytes
  unfolding view_output
  display_acl = do
    acl_num ← gets (λ s. s.acl_num)
    in_stage (codes "view") (send (codes "display acl " ++ (itoa_int acl_num ++ crlf)))
    full ← page_loop (suc max_pages) []
    view_output (normalize_terminal full)

  -- `EnterSystemView`
  unfoldable pub enter_system_view : M C (Unit {0})
  enter_system_view = exec (codes "system-view") (prompt_sys_view ∷ [])

  unfoldable pub mismatch : Bytes → ℤ → Bytes → GoError
  mismatch why acl_num out =
      session (codes "view")
        (why ++ (itoa_int acl_num ++ (codes "; the device sent " ++ quote_tail out))) []

  unfoldable pub names_acl : ℤ → Bytes → Bool
  names_acl acl_num out =
      matches (acl_view_prompt_re acl_num) out || matches (acl_view_numbered_re acl_num) out

  -- what `EnterACLView` does with the output of "display this"
  unfoldable pub accept_shown : ℤ → Bytes → M C (Unit {0})
  unfolding mismatch
  accept_shown acl_num conf =
      if matches (display_this_acl_re acl_num) conf
      then set_prompt (trailing_prompt conf)
      else raise (
          mismatch
            (codes
              "view_mismatch: the prompt does not name a view and \"display this\" does not show ACL ")
            acl_num conf)

  -- what it does with the output of the command that enters the view
  unfoldable pub accept_view : ℤ → Bytes → M C (Unit {0})
  unfolding mismatch names_acl
  accept_view acl_num out =
      if names_acl acl_num out
      then set_prompt (trailing_prompt out)
      else if str_eq (trailing_prompt out) []
      then raise
          (mismatch (codes "prompt_mismatch: no prompt after entering ACL view ") acl_num out)
      else (exec_output (codes "display this") (codes "]" ∷ []) >>= accept_shown acl_num)

  -- `EnterACLView`
  unfoldable pub enter_acl_view : M C (Unit {0})
  enter_acl_view = do
    acl_num ← gets (λ s. s.acl_num)
    out ← exec_output (codes "acl advanced " ++ itoa_int acl_num) (codes "]" ∷ [])
    accept_view acl_num out

  unfoldable pub left_view : Bytes → Bytes → GoError
  left_view was out =
      session (codes "view")
        (codes "prompt_mismatch: left ACL view; prompt was "
          ++ (quoted was
              ++ (codes ", now "
                  ++ (quoted (trailing_prompt out)
                      ++ (codes "; the device sent " ++ quote_tail out)))))
        []

  -- `execInACLView`, which `ExecRule`, `ExecComment` and `ExecUndoRule` call
  unfoldable pub exec_in_acl_view : Bytes → M C (Unit {0})
  unfolding left_view
  exec_in_acl_view cmd = do
    out ← exec_output cmd (codes "]" ∷ codes ">" ∷ [])
    was ← gets (λ s. s.acl_prompt)
    if str_eq (trailing_prompt out) was then pure tt else raise (left_view was out)
    in_session (check_device_errors out) plain

  unfoldable pub says_success : Bytes → Bool
  says_success out = contains (to_lower out) (codes "success")

  unfoldable pub confirm_save : M C (Unit {0})
  unfolding says_success
  confirm_save = do
    in_stage (codes "save") (send (codes "Y" ++ crlf))
    (out, i) ←
        in_stage (codes "save")
          (read_until (codes "successfully" ∷ prompt_user_view ∷ prompt_sys_view ∷ []))
    if says_success out
        then pure tt
        else raise (session (codes "save") (codes "save did not report success") [])

  -- `Save`
  unfoldable pub save : M C (Unit {0})
  unfolding confirm_save says_success
  save = do
    out ← in_stage (codes "save") (
        exec_output (codes "save force")
          (prompt_user_view ∷ prompt_sys_view ∷ codes "successfully" ∷ []))
    if says_success out
        then pure tt
        else if contains out (codes "Y/N")
        then confirm_save
        else raise (session (codes "save") (codes "save did not report success: " ++ out) [])

  -- `QuitACLView` and `QuitSysView`
  unfoldable pub quit_acl_view : M C (Unit {0})
  quit_acl_view = exec (codes "quit") (prompt_sys_view ∷ [])

  unfoldable pub quit_sys_view : M C (Unit {0})
  quit_sys_view = exec (codes "quit") (prompt_user_view ∷ [])
