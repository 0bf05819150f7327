-- ===== src/Core/Verify/Exact.antt =====
-- What the judgement of internal/aclweb/core/core.go on a change asks of the two snapshots.
use acl_edit_only.Base.{
  ℕ, ◌+◌, ◌≡◌, refl, sym, ap, ◌∙◌, ◌⊎◌, inl, inr, ◌↔◌, Bool-cases, true, false, not, List, [], ◌∷◌,
  length, map, keep_if, arith,
}
use acl_edit_only.Base.Text.{Bytes, str_eq, str_eq_iff, trim_space, split, nl}
use acl_edit_only.Base.Int.{ℤ}
use acl_edit_only.Base.Result.{ok, done}
use acl_edit_only.Base.Regex.{matches}
use acl_edit_only.Aclout.{count}
use acl_edit_only.Core.Artifacts.{rule_exists_in_snapshot}
use acl_edit_only.Core.Verify.{
  count_clause_re, neutralize_rule_count, is_rule_line, significant_lines, compare_lines,
  judge_lines, assert_only_rule_changed, verify_change, verify_deletion,
}

compare_lines_iff :
    (pre post : List Bytes)
    → length pre ≡ length post
    → (compare_lines pre post ≡ done) ↔ (pre ≡ post)
unfolding compare_lines
compare_lines_iff [] [] h = ground arith
compare_lines_iff [] (m ∷ post) h = ground arith
compare_lines_iff (l ∷ pre) [] h = ground arith
compare_lines_iff (l ∷ pre) (m ∷ post) h =
    ground (arith, str_eq_iff l m, compare_lines_iff pre post (ground arith))

judge_lines_iff : (pre post : List Bytes) → (judge_lines pre post ≡ done) ↔ (pre ≡ post)
unfolding judge_lines
judge_lines_iff pre post = (
  λ h. (compare_lines_iff pre post (ground arith)).0 (ground arith),
  λ e. ground (arith, compare_lines_iff pre post (ap length e), ap length e),
)

significant_iff :
    (pre_raw post_raw : Bytes) (rule_id : ℤ)
    → (assert_only_rule_changed pre_raw post_raw rule_id ≡ done)
      ↔ (significant_lines pre_raw rule_id ≡ significant_lines post_raw rule_id)
unfolding assert_only_rule_changed
significant_iff pre_raw post_raw rule_id =
    judge_lines_iff (significant_lines pre_raw rule_id) (significant_lines post_raw rule_id)

-- the lines of an output without those of the rule, trimmed and with the blank ones left out
abbrev pub other_lines : Bytes → ℤ → List Bytes
other_lines raw rule_id =
    keep_if (λ l. not (is_rule_line rule_id l))
      (keep_if (λ l. not (str_eq l [])) (map trim_space (split nl raw)))

-- the same line; or a clause "<n> rules" is in one of them, and they are the same once such clauses are
-- taken out and, in a line that had one, every run of spaces is one space
abbrev pub SameLine : Bytes → Bytes → Type 0
SameLine l m =
    (l ≡ m)
    ⊎ (((matches count_clause_re l ≡ true) ⊎ (matches count_clause_re m ≡ true))
        × (neutralize_rule_count l ≡ neutralize_rule_count m))

-- as many lines, and one by one the same
abbrev pub SameLines : List Bytes → List Bytes → Type 0
SameLines [] [] = Unit
SameLines [] (m ∷ post) = ⊥
SameLines (l ∷ pre) [] = ⊥
SameLines (l ∷ pre) (m ∷ post) = SameLine l m × SameLines pre post

neutralize-plain : (l : Bytes) → matches count_clause_re l ≡ false → neutralize_rule_count l ≡ l
unfolding neutralize_rule_count
neutralize-plain l h = rw h refl

SameLine-iff : (l m : Bytes) → (neutralize_rule_count l ≡ neutralize_rule_count m) ↔ SameLine l m
SameLine-iff l m = (
  λ h. elim (Bool-cases (matches count_clause_re l)) [
    | inl e ↦ inr (inl e, h)
    | inr e ↦ elim (Bool-cases (matches count_clause_re m)) [
      | inl k ↦ inr (inr k, h)
      | inr k ↦ inl (sym (neutralize-plain l e) ∙ h ∙ neutralize-plain m k)
    ]
  ],
  λ s. elim s [ inl e ↦ ap neutralize_rule_count e | inr (c, e) ↦ e ],
)

SameLines-iff :
    (pre post : List Bytes)
    → (map neutralize_rule_count pre ≡ map neutralize_rule_count post) ↔ SameLines pre post
SameLines-iff [] [] = ground arith
SameLines-iff [] (m ∷ post) = ground arith
SameLines-iff (l ∷ pre) [] = ground arith
SameLines-iff (l ∷ pre) (m ∷ post) = (
  λ h. ((SameLine-iff l m).0 (cc h), (SameLines-iff pre post).0 (cc h)),
  λ (s, ss). cc ((SameLine-iff l m).1 s, (SameLines-iff pre post).1 ss),
)

only_rule_changed_iff :
    (pre_raw post_raw : Bytes) (rule_id : ℤ)
    → (assert_only_rule_changed pre_raw post_raw rule_id ≡ done)
      ↔ SameLines (other_lines pre_raw rule_id) (other_lines post_raw rule_id)
unfolding significant_lines
only_rule_changed_iff pre_raw post_raw rule_id =
    let (f, g) = significant_iff pre_raw post_raw rule_id in
    let (f', g') = SameLines-iff (other_lines pre_raw rule_id) (other_lines post_raw rule_id) in
    (λ h. f' (f h), λ h. g (g' h))

-- the rules counted before and after
abbrev pub Counted : Bytes → Bytes → ℤ → ℕ → ℕ → Type 0
Counted pre_raw post_raw acl_num m n =
    (count pre_raw acl_num ≡ ok m) × (count post_raw acl_num ≡ ok n)

-- one rule more is counted, a line of the new rule is there, and the other lines are the same
abbrev pub Added : Bytes → Bytes → ℤ → ℤ → Type 0
Added pre_raw post_raw acl_num rule_id =
    ((n : ℕ) × Counted pre_raw post_raw acl_num n (n + 1))
    × (rule_exists_in_snapshot post_raw rule_id ≡ true)
    × SameLines (other_lines pre_raw rule_id) (other_lines post_raw rule_id)

-- one rule less is counted, no line of the rule is there, and the other lines are the same
abbrev pub Removed : Bytes → Bytes → ℤ → ℤ → Type 0
Removed pre_raw post_raw acl_num rule_id =
    ((n : ℕ) × Counted pre_raw post_raw acl_num (n + 1) n)
    × (rule_exists_in_snapshot post_raw rule_id ≡ false)
    × SameLines (other_lines pre_raw rule_id) (other_lines post_raw rule_id)

-- A change is verified exactly if both snapshots can be counted, the second one counts one rule more,
-- it has a line of the new rule, and the other lines, trimmed and without the blank ones, are as many
-- in both and in order the same, but that lines with a clause "<n> rules" are compared without it and
-- with every run of spaces as one. What the new rule says is not looked at.
pub verify_change_iff :
    (pre_raw post_raw : Bytes) (acl_num rule_id : ℤ)
    → (verify_change pre_raw post_raw acl_num rule_id ≡ done)
      ↔ Added pre_raw post_raw acl_num rule_id
unfolding verify_change
verify_change_iff pre_raw post_raw acl_num rule_id =
    ground (arith, only_rule_changed_iff pre_raw post_raw rule_id)

-- A deletion is verified exactly if both snapshots can be counted, the second one counts one rule
-- less, it has no line of the rule, and the other lines, trimmed and without the blank ones, are as
-- many in both and in order the same, but that lines with a clause "<n> rules" are compared without it
-- and with every run of spaces as one.
pub verify_deletion_iff :
    (pre_raw post_raw : Bytes) (acl_num rule_id : ℤ)
    → (verify_deletion pre_raw post_raw acl_num rule_id ≡ done)
      ↔ Removed pre_raw post_raw acl_num rule_id
unfolding verify_deletion
verify_deletion_iff pre_raw post_raw acl_num rule_id =
    ground (arith, only_rule_changed_iff pre_raw post_raw rule_id)
