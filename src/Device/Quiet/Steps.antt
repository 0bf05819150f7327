-- ===== src/Device/Quiet/Steps.antt =====
-- The methods of a session (internal/h3c/device/session.go) that only navigate and read.
use acl_edit_only.Base.{ℕ, zero, suc, ◌≡◌, refl, sym, subst, List, [], ◌∷◌, ◌++◌, ◌==◌}
use acl_edit_only.Base.Text.{Bytes, codes, str_eq, drop_nul}
use acl_edit_only.Base.Decimal.{itoa_int}
use acl_edit_only.Base.Int.{ℤ}
use acl_edit_only.Base.Regex.{Regex, matches}
use acl_edit_only.Device.Text.{
  check_device_errors, more_re, prompt_re, display_this_acl_re, normalize_terminal, trailing_prompt,
}
use acl_edit_only.Device.Session.{
  Transport, ReadResult, got, fault, Session, M, session, ◌>>◌, pure, in_stage, set_prompt, send,
  in_session, record_out, after_read, read_until, read_until_re, refuse_errors, exec_output, exec,
  page_loop, view_output, max_pages, display_acl, enter_system_view, enter_acl_view, accept_view,
  accept_shown, mismatch, names_acl,
}
use acl_edit_only.Device.Quiet.{
  crlf, Navigates, system, enter, this, show, page, if_both, case_both, Follows, Quiet,
  Follows-refl, pure-Quiet, bind-Quiet, stage-Quiet, in_session-Quiet,
}

module _ {C : Type 0} (n : ℤ) (tr : Transport C) where
  send-Quiet : (txt : Bytes) → Navigates n txt → Quiet n (send tr txt)
  unfolding send
  send-Quiet txt nav s h = record { bound = h; new = txt ∷ []; grows = refl; harmless = (nav, tt) }

  record_out-Quiet :
      (out : Bytes) (s s' : Session C) → Follows n s s' → Follows n s (record_out tr out s')
  unfolding record_out
  record_out-Quiet out s s' f =
      if_both (Follows n s) s'.in_auth s' (record s' { raw_buf = s'.raw_buf ++ drop_nul out }) f
        (record { bound = f.bound; new = f.new; grows = f.grows; harmless = f.harmless })

  after_read-Quiet :
      (r : ReadResult) (s s' : Session C) → Follows n s s' → Follows n s (after_read tr r s').1
  unfolding after_read
  after_read-Quiet (got out i) s s' f = record_out-Quiet out s s' f
  after_read-Quiet (fault out e) s s' f = record_out-Quiet out s s' f

  read_until-Quiet : (ps : List Bytes) → Quiet n (read_until tr ps)
  unfolding read_until
  read_until-Quiet ps s h =
      after_read-Quiet (tr.read_until ps s.conn).0 s
        (record s { conn = (tr.read_until ps s.conn).1 })
        (record { bound = h; new = []; grows = refl; harmless = tt })

  read_until_re-Quiet : (ps : List Regex) → Quiet n (read_until_re tr ps)
  unfolding read_until_re
  read_until_re-Quiet ps s h =
      after_read-Quiet (tr.read_until_re ps s.conn).0 s
        (record s { conn = (tr.read_until_re ps s.conn).1 })
        (record { bound = h; new = []; grows = refl; harmless = tt })

  refuse_errors-Quiet : (out : Bytes) → Quiet n (refuse_errors tr out)
  refuse_errors-Quiet out =
      in_session-Quiet n (check_device_errors out) (λ e. session (codes "write") e out)

  exec_output-Quiet :
      (cmd : Bytes) (ps : List Bytes) → Navigates n (cmd ++ crlf) → Quiet n (exec_output tr cmd ps)
  unfolding exec_output
  exec_output-Quiet cmd ps nav =
      bind-Quiet n (in_stage (codes "write") (send tr (cmd ++ crlf))) _
        (stage-Quiet n (codes "write") (send tr (cmd ++ crlf)) (send-Quiet (cmd ++ crlf) nav))
        (λ u. bind-Quiet n (read_until tr ps) _ (read_until-Quiet ps) (λ (out, i).
          bind-Quiet n (refuse_errors tr out) _ (refuse_errors-Quiet out) (λ v. pure-Quiet n out)))

  page_loop-Quiet : (left : ℕ) (full : Bytes) → Quiet n (page_loop tr left full)
  unfolding page_loop
  page_loop-Quiet zero full = λ s h. Follows-refl n h
  page_loop-Quiet (suc left) full =
      bind-Quiet n (read_until_re tr (more_re ∷ prompt_re ∷ [])) _
        (read_until_re-Quiet (more_re ∷ prompt_re ∷ []))
        (λ (out, idx).
          case_both (Quiet n) (idx == 1) (pure (full ++ out))
            (in_stage (codes "view") (send tr (codes " ")) >> page_loop tr left (full ++ out))
            (pure-Quiet n (full ++ out))
            (bind-Quiet n (in_stage (codes "view") (send tr (codes " "))) _
              (stage-Quiet n (codes "view") (send tr (codes " ")) (send-Quiet (codes " ") page))
              (λ u. page_loop-Quiet left (full ++ out))))

  pub enter_system_view-Quiet : Quiet n (enter_system_view tr)
  unfolding enter_system_view exec
  enter_system_view-Quiet =
      bind-Quiet n (exec_output tr (codes "system-view") (codes "]" ∷ [])) _
        (exec_output-Quiet (codes "system-view") (codes "]" ∷ []) system) (λ out. pure-Quiet n tt)

  view_output-Quiet : (result : Bytes) → Quiet n (view_output tr result)
  unfolding view_output
  view_output-Quiet result =
      bind-Quiet n (in_session (check_device_errors result) (λ e. session (codes "view") e result))
        _ (in_session-Quiet n (check_device_errors result) (λ e. session (codes "view") e result))
        (λ u. pure-Quiet n result)

  show-Navigates :
      (s : Session C)
      → s.acl_num ≡ n
      → Navigates n (codes "display acl " ++ (itoa_int s.acl_num ++ crlf))
  show-Navigates s h =
      subst (λ k. Navigates n (codes "display acl " ++ (itoa_int k ++ crlf))) (sym h) show

  pub display_acl-Quiet : Quiet n (display_acl tr)
  unfolding display_acl
  display_acl-Quiet s h =
      bind-Quiet n
        (in_stage (codes "view") (send tr (codes "display acl " ++ (itoa_int s.acl_num ++ crlf)))) _
        (stage-Quiet n (codes "view")
          (send tr (codes "display acl " ++ (itoa_int s.acl_num ++ crlf)))
          (send-Quiet (codes "display acl " ++ (itoa_int s.acl_num ++ crlf)) (show-Navigates s h)))
        (λ u.
          bind-Quiet n (page_loop tr (suc max_pages) []) _ (page_loop-Quiet (suc max_pages) [])
            (λ full. view_output-Quiet (normalize_terminal full)))
        s h

  enter-Navigates :
      (s : Session C)
      → s.acl_num ≡ n
      → Navigates n ((codes "acl advanced " ++ itoa_int s.acl_num) ++ crlf)
  enter-Navigates s h =
      subst (λ k. Navigates n ((codes "acl advanced " ++ itoa_int k) ++ crlf)) (sym h) enter

  set_prompt-Quiet : (p : Bytes) → Quiet n (set_prompt {C = C} p)
  set_prompt-Quiet p s h = record { bound = h; new = []; grows = refl; harmless = tt }

  accept_shown-Quiet : (acl_num : ℤ) (conf : Bytes) → Quiet n (accept_shown tr acl_num conf)
  unfolding accept_shown mismatch
  accept_shown-Quiet acl_num conf s h =
      if_both {A = M C (Unit {0})} (λ m. Follows n s (m s).1)
        (matches (display_this_acl_re acl_num) conf) _ _
        (set_prompt-Quiet (trailing_prompt conf) s h) (Follows-refl n h)

  accept_view-Quiet : (acl_num : ℤ) (out : Bytes) → Quiet n (accept_view tr acl_num out)
  unfolding accept_view mismatch names_acl
  accept_view-Quiet acl_num out s h =
      if_both {A = M C (Unit {0})} (λ m. Follows n s (m s).1) (names_acl tr acl_num out) _ _
        (set_prompt-Quiet (trailing_prompt out) s h)
        (if_both {A = M C (Unit {0})} (λ m. Follows n s (m s).1) (str_eq (trailing_prompt out) []) _
          _ (Follows-refl n h)
          (bind-Quiet n (exec_output tr (codes "display this") (codes "]" ∷ []))
            (accept_shown tr acl_num)
            (exec_output-Quiet (codes "display this") (codes "]" ∷ []) this)
            (accept_shown-Quiet acl_num) s h))

  pub enter_acl_view-Quiet : Quiet n (enter_acl_view tr)
  unfolding enter_acl_view
  enter_acl_view-Quiet s h =
      bind-Quiet n (exec_output tr (codes "acl advanced " ++ itoa_int s.acl_num) (codes "]" ∷ []))
        (accept_view tr s.acl_num)
        (exec_output-Quiet (codes "acl advanced " ++ itoa_int s.acl_num) (codes "]" ∷ [])
          (enter-Navigates s h))
        (accept_view-Quiet s.acl_num) s h
