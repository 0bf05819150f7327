-- ===== src/Core/Artifacts.antt =====
-- internal/aclweb/core/core.go: the configuration that a change is expected to leave, from which the
-- diff that is approved is made.
use acl_edit_only.Base.{
  ℕ, ◌+◌, Bool, true, false, not, Option, none, some, List, [], ◌∷◌, ◌++◌, drop, take, any_of,
  keep_if, ◌==◌, if◌then◌else◌,
}
use mathlib.Core.List.{reverse}
use acl_edit_only.Base.Text.{Bytes, codes, str_eq, has_prefix, trim_space, split, join, nl}
use acl_edit_only.Base.Decimal.{itoa, itoa_int, atoi, max_int}
use acl_edit_only.Base.Int.{ℤ, pos, ltb_ℤ}
use acl_edit_only.Base.Result.{Result, ok, err}
use acl_edit_only.Base.Regex.{find, slice}
use acl_edit_only.Aclout.{count_re, rule_line_re}
use acl_edit_only.Plan.{Plan}
use acl_edit_only.Device.Render.{RenderError, build_rule_cmd, render_error_text}

-- `ruleExistsInSnapshot`
unfoldable pub rule_exists_in_snapshot : Bytes → ℤ → Bool
rule_exists_in_snapshot raw rule_id =
    any_of (λ line. has_prefix (trim_space line) (codes "rule " ++ (itoa_int rule_id ++ codes " ")))
      (split nl raw)

-- `renderRuleLine`
unfoldable pub render_rule_line : Plan → Result RenderError Bytes
render_rule_line p = build_rule_cmd p

-- `strings.TrimRight(s, "\n")`
drop_newlines : Bytes → Bytes
drop_newlines [] = []
drop_newlines (c ∷ s) = let rest = drop_newlines s in elim (c == 10) [ true ↦ rest | false ↦ c ∷ s ]

unfoldable pub trim_newlines : Bytes → Bytes
unfolding drop_newlines
trim_newlines s = reverse (drop_newlines (reverse s))

-- n + 1 as an int: it wraps around to the least one
abbrev next_int : ℕ → Bytes
next_int n = if n == max_int then codes "-9223372036854775808" else itoa (n + 1)

-- `bumpRuleCount`
unfoldable pub bump_rule_count : Bytes → Bytes
bump_rule_count line = elim (find count_re line) [
  | none ↦ line
  | some m ↦ elim (atoi (slice m.group_start m.group_end line)) [
    | none ↦ line
    | some n ↦ take m.group_start line ++ (next_int n ++ drop m.group_end line)
  ]
]

-- `ruleIDOfLine`
unfoldable pub rule_id_of_line : Bytes → Option ℕ
rule_id_of_line line = elim (find rule_line_re line) [
  | none ↦ none
  | some m ↦ atoi (slice m.group_start m.group_end line)
]

-- whether the line is of a rule behind `rule_id`
unfoldable pub is_later_rule : ℤ → Bytes → Bool
unfolding rule_id_of_line
is_later_rule rule_id line = elim (rule_id_of_line line) [
  | none ↦ false
  | some id ↦ ltb_ℤ rule_id (pos id)
]

-- the loop over the lines; `inserted` is a variable of it, and the lines that are still to come at
-- its end are appended
unfoldable pub insert_lines : Bool → ℤ → List Bytes → List Bytes → List Bytes
unfolding is_later_rule bump_rule_count
insert_lines true rule_id new_lines [] = []
insert_lines false rule_id new_lines [] = new_lines
insert_lines true rule_id new_lines (l ∷ ls) =
    bump_rule_count l ∷ insert_lines true rule_id new_lines ls
insert_lines false rule_id new_lines (l ∷ ls) = elim (is_later_rule rule_id l) [
  | true ↦ new_lines ++ bump_rule_count l ∷ insert_lines true rule_id new_lines ls
  | false ↦ bump_rule_count l ∷ insert_lines false rule_id new_lines ls
]

-- the lines of the rule and of its comment
unfoldable pub lines_of_rule : Plan → Bytes → List Bytes
lines_of_rule p cmd =
    (codes " " ++ cmd)
    ∷ (if str_eq p.comment []
        then []
        else (codes " rule " ++ (itoa_int p.rule_id ++ (codes " comment " ++ p.comment))) ∷ [])

-- `buildExpectedConfig`
unfoldable pub build_expected_config : Bytes → Plan → Bytes
unfolding trim_newlines insert_lines lines_of_rule render_rule_line
build_expected_config base p = elim (render_rule_line p) [
  | err e ↦
      trim_newlines base
      ++ (codes "\n !! cannot render rule "
          ++ (itoa_int p.rule_id ++ (codes ": " ++ (render_error_text e ++ codes "\n"))))
  | ok cmd ↦
      join nl (insert_lines false p.rule_id (lines_of_rule p cmd) (split nl (trim_newlines base)))
      ++ codes "\n"
]

-- `removeRuleFromConfig`
unfoldable pub remove_rule_from_config : Bytes → ℤ → Bytes
remove_rule_from_config base rule_id = join nl (
    keep_if (λ l. not (has_prefix l (codes " rule " ++ (itoa_int rule_id ++ codes " "))))
      (split nl base))
