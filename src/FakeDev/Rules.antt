-- ===== src/FakeDev/Rules.antt =====
-- internal/h3c/fakedev/fakedev.go: the simulated switch and its rules. The map of rules is the list of
-- them in the order of their ids, which is the order of every output.
pub mod Ascending
use acl_edit_only.Base.{
  ℕ, suc, Bool, true, false, not, Option, none, some, List, [], ◌∷◌, ◌++◌, length, ◌==◌,
  if◌then◌else◌,
}
use acl_edit_only.Base.Text.{Bytes, codes, str_eq}
use acl_edit_only.Base.Int.{ℤ, pos, negsuc, eq_ℤ, ltb_ℤ}
use acl_edit_only.Base.Decimal.{itoa, itoa_int, atoi, is_digit}

-- `Rule`
pub record Rule : Type 0 where
  pub id : ℤ
  pub body : Bytes
  pub comment : Bytes

-- `Device`
pub record Switch : Type 0 where
  pub hostname : Bytes
  pub acl : ℤ
  pub username : Bytes
  pub password : Bytes
  pub rules : List Rule
  pub saved : Bool
  pub save_fail : Bool
  pub omit_empty_count : Bool
  pub plain_line_endings : Bool
  pub cmd_log : List Bytes
  pub page_lines : ℕ
  pub no_screen_length : Bool
  pub acl_view_prompt_plain : Bool
  pub acl_view_display_this_acl : ℤ
  pub login_prompt_text : Bytes

-- d.rules[id]
unfoldable pub find_rule : ℤ → List Rule → Option Rule
find_rule id [] = none
find_rule id (r ∷ rs) = let found = find_rule id rs in if eq_ℤ r.id id then some r else found

-- d.rules[r.ID] = r
unfoldable pub put_rule : Rule → List Rule → List Rule
put_rule r [] = r ∷ []
put_rule r (x ∷ rs) =
    let rest = put_rule r rs in
    if eq_ℤ x.id r.id then r ∷ rs else if ltb_ℤ r.id x.id then r ∷ x ∷ rs else x ∷ rest

-- delete(d.rules, id)
unfoldable pub delete_rule : ℤ → List Rule → List Rule
delete_rule id [] = []
delete_rule id (r ∷ rs) = let rest = delete_rule id rs in if eq_ℤ r.id id then rs else r ∷ rest

unfoldable pub put_all : List Rule → List Rule → List Rule
unfolding put_rule
put_all [] rs = rs
put_all (r ∷ new) rs = put_all new (put_rule r rs)

-- `New`
unfoldable pub new_switch : Bytes → ℤ → Bytes → Bytes → List Rule → Switch
unfolding put_all
new_switch hostname acl user pass rules = record {
  hostname = hostname;
  acl = acl;
  username = user;
  password = pass;
  rules = put_all rules [];
  saved = false;
  save_fail = false;
  omit_empty_count = false;
  plain_line_endings = false;
  cmd_log = [];
  page_lines = 24;
  no_screen_length = false;
  acl_view_prompt_plain = false;
  acl_view_display_this_acl = pos 0;
  login_prompt_text = [];
}

-- `SetRule`
unfoldable pub set_rule : Rule → Switch → Switch
unfolding put_rule
set_rule r d = record d { rules = put_rule r d.rules }

-- `loginPrompt`
unfoldable pub login_prompt : Switch → Bytes
login_prompt d =
    if not (str_eq d.login_prompt_text []) then d.login_prompt_text else codes "Username:"

-- `plural`
unfoldable pub plural : ℕ → Bytes
plural n = if n == 1 then [] else codes "s"

-- a line of a rule, with its comment if it has one
unfoldable pub rule_lines : Rule → List Bytes
rule_lines r =
    (codes " rule " ++ (itoa_int r.id ++ (codes " " ++ r.body)))
    ∷ (if str_eq r.comment []
        then []
        else (codes " rule " ++ (itoa_int r.id ++ (codes " comment " ++ r.comment))) ∷ [])

unfoldable pub all_rule_lines : List Rule → List Bytes
unfolding rule_lines
all_rule_lines [] = []
all_rule_lines (r ∷ rs) = rule_lines r ++ all_rule_lines rs

-- the first line of `displayACL`
unfoldable pub acl_header : Switch → Bytes
unfolding plural
acl_header d = elim d.rules [
  | [] ↦
      if d.omit_empty_count
      then codes "Advanced IPv4 ACL " ++ (itoa_int d.acl ++ codes ", named -,")
      else codes "Advanced IPv4 ACL " ++ (itoa_int d.acl ++ codes ", named -, 0 rules,")
  | r ∷ rs ↦
      codes "Advanced IPv4 ACL "
      ++ (itoa_int d.acl
          ++ (codes ", named -, "
              ++ (itoa (suc (length rs))
                  ++ (codes " rule" ++ (plural (suc (length rs)) ++ codes ",")))))
]

-- the lines of `displayACL`
unfoldable pub acl_lines : Switch → List Bytes
unfolding acl_header all_rule_lines
acl_lines d = acl_header d ∷ codes "ACL's step is 5" ∷ all_rule_lines d.rules

abbrev pub line_end : Bytes
line_end = 13 ∷ 10 ∷ []

unfoldable pub with_line_ends : List Bytes → Bytes
with_line_ends [] = []
with_line_ends (l ∷ ls) = l ++ (line_end ++ with_line_ends ls)

-- the ACL that `displayThis` names
unfoldable pub shown_acl : Switch → ℤ
shown_acl d =
    if eq_ℤ d.acl_view_display_this_acl (pos 0) then d.acl else d.acl_view_display_this_acl

-- the text of `displayThis`
unfoldable pub this_text : Switch → Bytes
unfolding shown_acl all_rule_lines with_line_ends
this_text d =
    line_end
    ++ (with_line_ends
          (codes "#" ∷ (codes "acl number " ++ itoa_int (shown_acl d)) ∷ all_rule_lines d.rules)
        ++ with_line_ends (codes "#" ∷ codes "return" ∷ []))

-- the digits of `strconv.Atoi`, of which there is one at least
unfoldable pub atoi_digits : Bytes → Option ℕ
unfolding atoi
atoi_digits [] = none
atoi_digits (c ∷ s) = if all_digits (c ∷ s) then atoi (c ∷ s) else none
  where
    all_digits : Bytes → Bool
    all_digits [] = true
    all_digits (d ∷ t) = if is_digit d then all_digits t else false

unfoldable pub negated : Option ℕ → Option ℤ
negated none = none
negated (some ℕ.zero) = some (pos 0)
negated (some (suc n)) = some (negsuc n)

unfoldable pub positive : Option ℕ → Option ℤ
positive none = none
positive (some n) = some (pos n)

-- `strconv.Atoi`, but for the least int
unfoldable pub atoi_int : Bytes → Option ℤ
unfolding atoi_digits negated positive
atoi_int [] = none
atoi_int (c ∷ s) =
    if c == b'-'
    then negated (atoi_digits s)
    else if c == b'+'
    then positive (atoi_digits s)
    else positive (atoi_digits (c ∷ s))
