-- ===== src/FakeDev/Commands.antt =====
-- internal/h3c/fakedev/session.go: the commands of the simulated switch.
use acl_edit_only.Base.{
  ℕ, suc, ◌%◌, false, not, ◌&&◌, Option, none, some, List, [], ◌∷◌, ◌++◌, length, drop, ltb, ◌==◌,
  if◌then◌else◌,
}
use acl_edit_only.Base.Text.{Bytes, codes, has_prefix, trim_space}
use acl_edit_only.Base.Int.{ℤ, eq_ℤ}
use acl_edit_only.Base.Decimal.{itoa_int}
use acl_edit_only.FakeDev.Wire.{wire_text, wait_more}
use acl_edit_only.FakeDev.Rules.{Rule, Switch, find_rule, put_rule, acl_lines, atoi_int}

pub data View : Type 0 where
  user_view system_view acl_view : View

-- `conn`, with what it has written and what is to come; a screen length of 0 is that paging is off
pub record Conn : Type 0 where
  pub dev : Switch
  pub view : View
  pub screen_len : ℕ
  pub written : Bytes
  pub input : Bytes

-- `raw`
abbrev pub raw : Bytes → Conn → Conn
raw b s = record s { written = s.written ++ b }

-- `out`
unfoldable pub out : Bytes → Conn → Conn
unfolding wire_text
out text s = raw (wire_text s.dev.plain_line_endings text) s

abbrev pub on_dev : (Switch → Switch) → Conn → Conn
on_dev f s = record s { dev = f s.dev }

unfoldable pub err_unrecognized : Conn → Conn
unfolding out
err_unrecognized s =
    out (codes "\r\n              ^\r\n% Unrecognized command found at '^' position.\r\n") s

unfoldable pub err_wrong_param : Conn → Conn
unfolding out
err_wrong_param s =
    out (codes "\r\n              ^\r\n% Wrong parameter found at '^' position.\r\n") s

unfoldable pub err_incomplete : Conn → Conn
unfolding out
err_incomplete s = out (codes "\r\n% Incomplete command found at '^' position.\r\n") s

unfoldable pub prompt_in : View → Conn → Conn
unfolding out
prompt_in user_view s = out (codes "<" ++ (s.dev.hostname ++ codes ">")) s
prompt_in system_view s = out (codes "[" ++ (s.dev.hostname ++ codes "]")) s
prompt_in acl_view s =
    if s.dev.acl_view_prompt_plain
    then out (codes "[" ++ (s.dev.hostname ++ codes "]")) s
    else out
        (codes "["
          ++ (s.dev.hostname ++ (codes "-acl-ipv4-adv-" ++ (itoa_int s.dev.acl ++ codes "]"))))
        s

-- `prompt`
unfoldable pub prompt : Conn → Conn
unfolding prompt_in
prompt s = prompt_in s.view s

-- the loop of `displayACL`, with `shown` lines shown
unfoldable pub show_lines : ℕ → List Bytes → Conn → Conn
unfolding out wait_more
show_lines shown [] s = s
show_lines shown (l ∷ ls) s =
    let s₁ = out (l ++ codes "\r\n") s in
    let s₂ = out (codes "  ---- More ----") s₁ in
    let (more, echo, rest) = wait_more (suc (length s₂.input)) s₂.input in
    let stopped = out echo (record s₂ { input = rest }) in
    let next = show_lines (suc shown) ls (out (codes "\r              \r") stopped) in
    let straight = show_lines (suc shown) ls s₁ in
    if ltb 0 s.screen_len && suc shown % s.screen_len == 0 && ltb 0 (length ls)
    then (if more then next else stopped)
    else straight

-- `displayACL`
unfoldable pub display_acl : ℤ → Conn → Conn
unfolding out show_lines acl_lines
display_acl n s =
    if not (eq_ℤ n s.dev.acl)
    then out (codes "\r\n") s
    else show_lines 0 (acl_lines s.dev) (out (codes "\r\n") s)

-- strings.SplitN(s, " ", 2), where it has two parts
unfoldable pub split_once : Bytes → Option (Bytes × Bytes)
split_once [] = none
split_once (c ∷ s) =
    let rest = split_once s in
    if c == 32 then some ([], s) else elim rest [ none ↦ none | some (a, b) ↦ some (c ∷ a, b) ]

-- the rule that `ruleCmd` sets, with the rule of that id as it is
unfoldable pub rule_body : ℤ → Bytes → Option Rule → Conn → Conn
unfolding out err_wrong_param put_rule
rule_body id body old s =
    if has_prefix body (codes "comment ")
    then elim old [
      | none ↦ out (codes "\r\n% Error: The rule does not exist.\r\n") s
      | some r ↦
          on_dev (λ d. record d { rules = put_rule (record r { comment = drop 8 body }) d.rules }) s
    ]
    else if not (has_prefix body (codes "permit ")) && not (has_prefix body (codes "deny "))
    then err_wrong_param s
    else elim old [
      | some r ↦ on_dev (λ d. record d { rules = put_rule (record r { body = body }) d.rules }) s
      | none ↦
          on_dev
            (λ d. record d {
              rules = put_rule (record { id = id; body = body; comment = [] }) d.rules;
              saved = false;
            })
            s
    ]

unfoldable pub rule_of : Option ℤ → Bytes → Conn → Conn
unfolding rule_body err_wrong_param find_rule
rule_of none b s = err_wrong_param s
rule_of (some id) b s = rule_body id (trim_space b) (find_rule id s.dev.rules) s

unfoldable pub rule_words : Option (Bytes × Bytes) → Conn → Conn
unfolding rule_of err_incomplete
rule_words none s = err_incomplete s
rule_words (some (a, b)) s = rule_of (atoi_int a) b s

-- `ruleCmd`
unfoldable pub rule_cmd : Bytes → Conn → Conn
unfolding split_once rule_words
rule_cmd rest s = rule_words (split_once (trim_space rest)) s
