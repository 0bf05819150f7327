-- ===== src/Tests/FakeDev.antt =====
-- Concrete runs of the simulated switch of internal/h3c/fakedev.
use acl_edit_only.Base.{◌≡◌, ◌≢◌, true, [], ◌∷◌, ◌++◌, arith, All}
use acl_edit_only.Base.Text.{Bytes, codes}
use acl_edit_only.Base.Int.{pos}
use acl_edit_only.Device.Telnet.{escape_iac}
use acl_edit_only.FakeDev.Wire.{read_line, line, spent, echo_if, escape, after_return, crlf}
use acl_edit_only.FakeDev.Wire.Lines.{IsTyped, read_line_lem}
use acl_edit_only.FakeDev.Rules.{Switch, new_switch}
use acl_edit_only.FakeDev.Commands.{Conn, acl_view, user_view}
use acl_edit_only.FakeDev.Session.{handle}
use acl_edit_only.FakeDev.Guarded.{handle_rules}
use acl_edit_only.FakeDev.Rules.Ascending.{Ascending}

abbrev typed : Bytes
typed = codes "quit" ++ 13 ∷ 10 ∷ codes "save"

read_line_lem_example :
    (read_line 20 true [] [] typed ≢ spent)
    × ((s rest : Bytes)
        → All IsTyped s
        → typed ≡ escape_iac s ++ 13 ∷ rest
        → read_line 20 true [] [] typed
          ≡ line s (echo_if true (escape s ++ crlf)) (after_return rest))
read_line_lem_example = read_line_lem 20 true typed (omega arith)

abbrev two_rules : Switch
two_rules = record (new_switch (codes "sw") (pos 3000) [] (codes "secret") []) {
  rules =
      record { id = pos 5; body = codes "permit ip"; comment = [] }
      ∷ record { id = pos 10; body = codes "deny ip"; comment = codes "last" }
      ∷ [];
}

abbrev in_user_view : Conn
in_user_view = record {
  dev = two_rules;
  view = user_view;
  screen_len = 24;
  written = [];
  input = [];
}

handle_rules_example :
    (in_user_view.view ≢ acl_view
      → (handle (codes "undo rule 5") in_user_view).1.dev.rules ≡ two_rules.rules)
    × Ascending (handle (codes "undo rule 5") in_user_view).1.dev.rules
handle_rules_example = handle_rules (codes "undo rule 5") in_user_view (ground arith)
