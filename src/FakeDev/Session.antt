-- ===== src/FakeDev/Session.antt =====
-- internal/h3c/fakedev/session.go: one connection to the simulated switch.
pub mod Rounds
use acl_edit_only.Base.{
  ℕ, zero, suc, Bool, true, false, not, ◌||◌, Option, none, some, [], ◌∷◌, ◌++◌, length, drop,
  if◌then◌else◌,
}
use acl_edit_only.Base.Text.{Bytes, codes, str_eq, has_prefix, trim_space}
use acl_edit_only.Base.Int.{ℤ, eq_ℤ}
use acl_edit_only.Base.Decimal.{itoa_int}
use acl_edit_only.FakeDev.Wire.{iac, read_line, LineRead, line, closed, spent}
use acl_edit_only.FakeDev.Rules.{Switch, delete_rule, login_prompt, this_text, atoi_int}
use acl_edit_only.FakeDev.Commands.{
  View, user_view, system_view, acl_view, Conn, raw, out, on_dev, err_unrecognized, err_wrong_param,
  prompt, display_acl, rule_cmd,
}

-- the cases of the switch of `handle`, with what follows the prefix that was tested
pub data Command : Type 0 where
  quit screen_length_disable system_view_cmd display_this save unknown : Command
  acl_advanced display_acl_cmd rule undo_rule : Bytes → Command

-- strings.TrimPrefix, of a prefix that is there
abbrev behind : Bytes → Bytes → Bytes
behind prefix cmd = drop (length prefix) cmd

unfoldable pub command_of : Bytes → Command
command_of cmd =
    if str_eq cmd (codes "quit")
    then quit
    else if str_eq cmd (codes "screen-length disable")
    then screen_length_disable
    else if str_eq cmd (codes "system-view")
    then system_view_cmd
    else if has_prefix cmd (codes "acl advanced ")
    then acl_advanced (behind (codes "acl advanced ") cmd)
    else if str_eq cmd (codes "display this") || str_eq cmd (codes "dis this")
    then display_this
    else if has_prefix cmd (codes "display acl ")
    then display_acl_cmd (behind (codes "display acl ") cmd)
    else if has_prefix cmd (codes "rule ")
    then rule (behind (codes "rule ") cmd)
    else if has_prefix cmd (codes "undo rule ")
    then undo_rule (behind (codes "undo rule ") cmd)
    else if str_eq cmd (codes "save") || str_eq cmd (codes "save force")
    then save
    else unknown

abbrev pub go_to : View → Conn → Conn
go_to v s = record s { view = v }

unfoldable pub leave : View → Conn → Bool × Conn
unfolding out
leave acl_view s = (false, go_to system_view s)
leave system_view s = (false, go_to user_view s)
leave user_view s = (true, out (codes "\r\n") s)

unfoldable pub enter_system : View → Conn → Conn
unfolding out err_unrecognized
enter_system user_view s =
    go_to system_view (out (codes "\r\nSystem View: return to User View with Ctrl+Z.\r\n") s)
enter_system _ s = err_unrecognized s

unfoldable pub enter_acl_number : Option ℤ → Conn → Conn
unfolding out err_wrong_param
enter_acl_number none s = err_wrong_param s
enter_acl_number (some n) s =
    if not (eq_ℤ n s.dev.acl)
    then out
        (codes "\r\n% Error: ACL "
          ++ (itoa_int n ++ codes " is not permitted in this test device.\r\n"))
        s
    else go_to acl_view s

unfoldable pub enter_acl : View → Bytes → Conn → Conn
unfolding enter_acl_number err_unrecognized
enter_acl system_view arg s = enter_acl_number (atoi_int (trim_space arg)) s
enter_acl _ arg s = err_unrecognized s

unfoldable pub show_this : View → Conn → Conn
unfolding out this_text err_unrecognized
show_this acl_view s = out (this_text s.dev) s
show_this _ s = err_unrecognized s

unfoldable pub show_acl : Option ℤ → Conn → Conn
unfolding display_acl err_wrong_param
show_acl none s = err_wrong_param s
show_acl (some n) s = display_acl n s

unfoldable pub set_rule_in : View → Bytes → Conn → Conn
unfolding rule_cmd err_unrecognized
set_rule_in acl_view arg s = rule_cmd arg s
set_rule_in _ arg s = err_unrecognized s

unfoldable pub undo_number : Option ℤ → Conn → Conn
unfolding delete_rule err_wrong_param
undo_number none s = err_wrong_param s
undo_number (some id) s = on_dev (λ d. record d { rules = delete_rule id d.rules }) s

unfoldable pub undo_rule_in : View → Bytes → Conn → Conn
unfolding undo_number err_unrecognized
undo_rule_in acl_view arg s = undo_number (atoi_int (trim_space arg)) s
undo_rule_in _ arg s = err_unrecognized s

unfoldable pub save_in : View → Conn → Conn
unfolding out err_unrecognized
save_in acl_view s = err_unrecognized s
save_in _ s =
    if s.dev.save_fail
    then out (codes "\r\n% Error: Failed to save the configuration.\r\n") s
    else out (codes "Configuration is saved to device successfully.\r\n") (
        out (codes "\r\nValidating file. Please wait.......\r\n")
          (on_dev (λ d. record d { saved = true }) s))

unfoldable pub disable_paging : Conn → Conn
unfolding err_unrecognized
disable_paging s =
    if s.dev.no_screen_length then err_unrecognized s else record s { screen_len = 0 }

-- what `handle` does in each case; true ends the session
unfoldable pub obey : Command → Conn → Bool × Conn
unfolding leave disable_paging enter_system enter_acl show_this show_acl set_rule_in undo_rule_in
    save_in err_unrecognized
obey quit s = leave s.view s
obey screen_length_disable s = (false, disable_paging s)
obey system_view_cmd s = (false, enter_system s.view s)
obey (acl_advanced arg) s = (false, enter_acl s.view arg s)
obey display_this s = (false, show_this s.view s)
obey (display_acl_cmd arg) s = (false, show_acl (atoi_int (trim_space arg)) s)
obey (rule arg) s = (false, set_rule_in s.view arg s)
obey (undo_rule arg) s = (false, undo_rule_in s.view arg s)
obey save s = (false, save_in s.view s)
obey unknown s = (false, err_unrecognized s)

-- `handle`
unfoldable pub handle : Bytes → Conn → Bool × Conn
unfolding command_of obey
handle cmd s = obey (command_of cmd) s

abbrev view_name : View → Bytes
view_name user_view = codes "user"
view_name system_view = codes "system"
view_name acl_view = codes "acl"

unfoldable pub logged : Bytes → Conn → Conn
logged cmd s =
    on_dev (λ d. record d { cmd_log = d.cmd_log ++ (view_name s.view ++ (codes ": " ++ cmd)) ∷ [] })
      s

-- behind a command that does not end the session there is a prompt
unfoldable pub prompted : Bool × Conn → Bool × Conn
unfolding prompt
prompted (true, s) = (true, s)
prompted (false, s) = (false, prompt s)

-- the command that is logged and obeyed; the empty one gets a prompt only
unfoldable pub answer : Bytes → Conn → Bool × Conn
unfolding handle logged prompted
answer [] s = (false, prompt s)
answer (c ∷ cmd) s = prompted (handle (c ∷ cmd) (logged (c ∷ cmd) s))

unfoldable pub received : LineRead → Conn → Option Bytes × Conn
received (line text echoed rest) s = (some text, record (raw echoed s) { input = rest })
received (closed echoed) s = (none, record (raw echoed s) { input = [] })
received spent s = (none, s)

-- `readLine` on the connection: the line, if there is one
unfoldable pub next_line : Bool → Conn → Option Bytes × Conn
unfolding read_line received
next_line echo s = received (read_line (suc (length s.input)) echo [] [] s.input) s

-- the body of the loop of `serve`, where `again` goes on with the loop
unfoldable pub serve_line : (Conn → Conn) → Option Bytes × Conn → Conn
unfolding answer
serve_line again (none, s) = s
serve_line again (some text, s) =
    let (over, s₁) = answer (trim_space text) s in if over then s₁ else again s₁

-- the loop of `serve`, with fuel above the number of bytes that are to come
unfoldable pub serve_loop : ℕ → Conn → Conn
unfolding next_line serve_line
serve_loop zero s = s
serve_loop (suc fuel) s = serve_line (serve_loop fuel) (next_line true s)

abbrev banner : Bytes
banner =
    codes "\r\n******************************************************************\r\n"
    ++ (codes "* Copyright (c) 2004-2024 New H3C Technologies Co., Ltd.         *\r\n"
        ++ codes "******************************************************************\r\n\r\n")

-- the password, and what follows it
unfoldable pub log_in : Bytes → Option Bytes × Conn → Conn
unfolding serve_loop out prompt
log_in user (none, s) = s
log_in user (some pass, s) =
    if not (str_eq (trim_space user) s.dev.username) || not (str_eq pass s.dev.password)
    then out (codes "\r\nPassword:") (out (codes "\r\n% Login failed.\r\n") s)
    else let ready = prompt (out (codes "\r\n") s) in serve_loop (suc (length ready.input)) ready

unfoldable pub ask_password : Bytes → Conn → Conn
unfolding log_in next_line out
ask_password user s = log_in user (next_line false (out (codes "\r\nPassword:") s))

unfoldable pub ask_user : Option Bytes × Conn → Conn
unfolding ask_password
ask_user (none, s) = s
ask_user (some user, s) = ask_password user s

-- `serve`, of a client that sends `input` and closes the connection
unfoldable pub serve : Switch → Bytes → Conn
unfolding ask_user ask_password out login_prompt
serve d input =
    let s = out banner (record {
      dev = d;
      view = user_view;
      screen_len = d.page_lines;
      written = iac ∷ 251 ∷ 1 ∷ iac ∷ 253 ∷ 24 ∷ [];
      input = input;
    }) in
    if not (str_eq d.username [])
    then ask_user (next_line true (out (codes "\r\n" ++ login_prompt d) s))
    else ask_password [] s
