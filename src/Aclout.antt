-- ===== src/Aclout.antt =====
-- internal/h3c/aclout/aclout.go: how the output of "display acl <n>" is read.
pub mod Laws
use acl_edit_only.Base.{
  ℕ, Bool, ◌||◌, Option, none, some, List, [], ◌∷◌, ◌++◌, ltb, ◌==◌, if◌then◌else◌, any_of, length,
}
use acl_edit_only.Base.Text.{Bytes, codes}
use acl_edit_only.Base.Decimal.{itoa_int, atoi}
use acl_edit_only.Base.Int.{ℤ}
use acl_edit_only.Base.Result.{Result, ok, err}
use acl_edit_only.Base.Regex.{
  Regex, seq, star, line_start, word_boundary, group, find, matches, find_all_groups, slice, Match,
  text, text_i, opt, plus, digit, blank, white, none_of,
}

-- (?m)(\d+)[ \t]+rules?\b
abbrev pub count_re : Regex
count_re =
    seq (group (plus digit))
      (seq (plus blank) (seq (text (codes "rule")) (seq (opt (text (codes "s"))) word_boundary)))

-- (?m)^\s*rule\s+(\d+)\s+
abbrev pub rule_line_re : Regex
rule_line_re = seq line_start (
    seq (star white)
      (seq (text (codes "rule")) (seq (plus white) (seq (group (plus digit)) (plus white)))))

-- (?im)^\s*ACL'?s?\s+step\s+is\s+\d+
abbrev pub step_re : Regex
step_re = seq line_start (
    seq (star white) (
      seq (text_i (codes "acl")) (
        seq (opt (text (codes "'"))) (
          seq (opt (text_i (codes "s"))) (
            seq (plus white) (
              seq (text_i (codes "step"))
                (seq (plus white) (seq (text_i (codes "is")) (seq (plus white) (plus digit))))))))))

-- (?im)^[^\n]*\bACL\s+%d\s*,
abbrev pub header_re : ℤ → Regex
header_re acl_num = seq line_start (
    seq (star (none_of (10 ∷ []))) (
      seq word_boundary (
        seq (text_i (codes "acl")) (
          seq (plus white) (seq (text (itoa_int acl_num)) (seq (star white) (text (codes ","))))))))

-- A set of ids, the `map[int]bool` of the source: a list without repetition.
abbrev pub IdSet : Type 0
IdSet = List ℕ

abbrev pub has_id : ℕ → IdSet → Bool
has_id n ids = any_of (λ m. n == m) ids

-- `ids[id] = true`
unfoldable pub add_id : ℕ → IdSet → IdSet
add_id n ids = if has_id n ids then ids else n ∷ ids

-- the loop over the matches: an id that is no int is passed over
unfoldable pub collect_ids : List Bytes → IdSet → IdSet
unfolding add_id
collect_ids [] ids = ids
collect_ids (m ∷ ms) ids = collect_ids ms (elim (atoi m) [ some id ↦ add_id id ids | none ↦ ids ])

-- `RuleIDs`
unfoldable pub rule_ids : Bytes → IdSet
unfolding collect_ids
rule_ids raw = collect_ids (find_all_groups rule_line_re raw) []

pub data CountError : Type 0 where
  cut_short : ℕ → ℕ → CountError
  unreadable : CountError

-- the number of the header's "N rules," clause, if there is one that fits an int
unfoldable pub header_count : Bytes → Option ℕ
header_count raw = elim (find count_re raw) [
  | some m ↦ atoi (slice m.group_start m.group_end raw)
  | none ↦ none
]

pub confirmed : Bytes → ℤ → Bool
confirmed raw acl_num = matches (header_re acl_num) raw || matches step_re raw

-- `Count`
unfoldable pub count : Bytes → ℤ → Result CountError ℕ
count raw acl_num =
    let ids = rule_ids raw in
    elim (header_count raw) [
      | some n ↦ if ltb (length ids) n then err (cut_short n (length ids)) else ok n
      | none ↦ if confirmed raw acl_num then ok (length ids) else err unreadable
    ]
