-- ===== src/Core/Verify.antt =====
-- internal/aclweb/core/core.go: the judgement, from a snapshot before and one after, whether exactly
-- the change that was approved has come about.
pub mod Exact
use acl_edit_only.Base.{
  ℕ, zero, suc, ◌+◌, Bool, true, false, not, ◌&&◌, Option, none, some, List, [], ◌∷◌, ◌++◌, leb,
  length, keep_if, map, ◌==◌, if◌then◌else◌,
}
use acl_edit_only.Base.Text.{Bytes, codes, str_eq, trim_space, is_space, split, join, nl}
use acl_edit_only.Base.Int.{ℤ, pos, eq_ℤ}
use acl_edit_only.Base.Result.{Result, ok, err, Check, done, ◌>>=◌, ◌>>◌, map_err, fail_if}
use acl_edit_only.Base.Regex.{
  Regex, seq, word_boundary, matches, remove_all, text, opt, plus, digit, blank,
}
use acl_edit_only.Aclout.{CountError, count}
use acl_edit_only.Core.Artifacts.{rule_exists_in_snapshot, rule_id_of_line}

-- (?m)\d+[ \t]+rules?\b,?
abbrev pub count_clause_re : Regex
count_clause_re = seq (plus digit) (
    seq (plus blank) (
      seq (text (codes "rule"))
        (seq (opt (text (codes "s"))) (seq word_boundary (opt (text (codes ",")))))))

-- `strings.Fields`; `word` holds the bytes of the field that is being read
fields_from : Bytes → Bytes → List Bytes
fields_from word [] = if str_eq word [] then [] else word ∷ []
fields_from word (c ∷ s) = elim (is_space c) [
  | true ↦ (if str_eq word [] then [] else word ∷ []) ++ fields_from [] s
  | false ↦ fields_from (word ++ c ∷ []) s
]

unfoldable pub fields : Bytes → List Bytes
unfolding fields_from
fields s = fields_from [] s

-- `neutralizeRuleCount`
unfoldable pub neutralize_rule_count : Bytes → Bytes
neutralize_rule_count line =
    if not (matches count_clause_re line)
    then line
    else join 32 (fields (remove_all count_clause_re line))

unfoldable pub is_rule_line : ℤ → Bytes → Bool
is_rule_line rule_id l = elim (rule_id_of_line l) [ none ↦ false | some id ↦ eq_ℤ (pos id) rule_id ]

-- `significantLines`
unfoldable pub significant_lines : Bytes → ℤ → List Bytes
unfolding is_rule_line
significant_lines raw rule_id = map neutralize_rule_count (
    keep_if (λ l. not (is_rule_line rule_id l))
      (keep_if (λ l. not (str_eq l [])) (map trim_space (split nl raw))))

pub data Mismatch : Type 0 where
  pre_unread post_unread : CountError → Mismatch
  wrong_count : ℕ → ℕ → Mismatch  -- assertion A
  wrong_presence : Mismatch  -- assertion C
  other_lines : ℕ → ℕ → Mismatch  -- assertion B
  other_line : Bytes → Bytes → Mismatch

-- the loop over the lines, of which there are as many after as before
unfoldable pub compare_lines : List Bytes → List Bytes → Check Mismatch
compare_lines [] post = done
compare_lines (l ∷ pre) [] = done
compare_lines (l ∷ pre) (m ∷ post) =
    let rest = compare_lines pre post in if str_eq l m then rest else err (other_line l m)

-- the two tests of `assertOnlyRuleChanged`
unfoldable pub judge_lines : List Bytes → List Bytes → Check Mismatch
unfolding compare_lines
judge_lines pre post =
    if not (length pre == length post)
    then err (other_lines (length pre) (length post))
    else compare_lines pre post

-- `assertOnlyRuleChanged`
unfoldable pub assert_only_rule_changed : Bytes → Bytes → ℤ → Check Mismatch
unfolding judge_lines
assert_only_rule_changed pre_raw post_raw rule_id =
    judge_lines (significant_lines pre_raw rule_id) (significant_lines post_raw rule_id)

-- `verifyChange`
unfoldable pub verify_change : Bytes → Bytes → ℤ → ℤ → Check Mismatch
unfolding assert_only_rule_changed
verify_change pre_raw post_raw acl_num rule_id = do
  pre_count ← map_err pre_unread (count pre_raw acl_num)
  post_count ← map_err post_unread (count post_raw acl_num)
  fail_if (not (post_count == pre_count + 1)) (wrong_count pre_count post_count)
  fail_if (not (rule_exists_in_snapshot post_raw rule_id)) wrong_presence
  assert_only_rule_changed pre_raw post_raw rule_id

-- `verifyDeletion`; preCount − 1 is negative where preCount is 0
unfoldable pub verify_deletion : Bytes → Bytes → ℤ → ℤ → Check Mismatch
unfolding assert_only_rule_changed
verify_deletion pre_raw post_raw acl_num rule_id = do
  pre_count ← map_err pre_unread (count pre_raw acl_num)
  post_count ← map_err post_unread (count post_raw acl_num)
  fail_if (not (post_count + 1 == pre_count)) (wrong_count pre_count post_count)
  fail_if (rule_exists_in_snapshot post_raw rule_id) wrong_presence
  assert_only_rule_changed pre_raw post_raw rule_id

-- `sort.Strings`, by insertion; the order of strings is that of their bytes
unfoldable pub bytes_leb : Bytes → Bytes → Bool
bytes_leb [] t = true
bytes_leb (c ∷ s) [] = false
bytes_leb (c ∷ s) (d ∷ t) = let rest = bytes_leb s t in if c == d then rest else leb c d

unfoldable pub insert_sorted : Bytes → List Bytes → List Bytes
insert_sorted l [] = l ∷ []
insert_sorted l (m ∷ ms) =
    let rest = insert_sorted l ms in if bytes_leb l m then l ∷ m ∷ ms else m ∷ rest

unfoldable pub sort_lines : List Bytes → List Bytes
unfolding insert_sorted
sort_lines [] = []
sort_lines (l ∷ ls) = insert_sorted l (sort_lines ls)

-- `fingerprintRaw`, where `sha` is the hexadecimal text of crypto/sha256
unfoldable pub fingerprint_raw : (Bytes → Bytes) → Bytes → Bytes
unfolding sort_lines
fingerprint_raw sha raw =
    sha (join nl (sort_lines (keep_if (λ l. not (str_eq l [])) (map trim_space (split nl raw)))))
