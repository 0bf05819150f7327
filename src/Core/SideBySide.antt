-- ===== src/Core/SideBySide.antt =====
-- internal/aclweb/core/sidebyside.go: the rows that the page shows for a stored diff. A line number
-- is an int, which wraps around at 2 ^ 64; it is kept as its unsigned reading.
pub mod Replays
pub mod Counts
use acl_edit_only.Base.{
  ℕ, ◌+◌, ◌%◌, ◌^◌, Bool, true, false, ◌||◌, Option, none, some, List, [], ◌∷◌, ◌++◌, drop, length,
  if◌then◌else◌,
}
use acl_edit_only.Base.Text.{Bytes, codes, str_eq, has_prefix, split, nl}
use acl_edit_only.Base.Decimal.{itoa, atoi_value}
use acl_edit_only.Base.Regex.{Regex, seq, text_start, group, find, slice, text, plus, digit}

-- the texts of `Kind`
pub data RowKind : Type 0 where
  row_equal row_replace row_add row_remove row_skip : RowKind

pub record DiffRow : Type 0 where
  pub kind : RowKind
  pub left_no : ℕ
  pub right_no : ℕ
  pub left : Bytes
  pub right : Bytes

-- ^@@ (\d+)
abbrev skip_re : Regex
skip_re = seq text_start (seq (text (codes "@@ ")) (seq (group (plus digit)) (text (codes " "))))

-- the variables of the loop
pub record View : Type 0 where
  pub rows : List DiffRow
  pub left_no : ℕ
  pub right_no : ℕ
  pub dels : List Bytes
  pub adds : List Bytes

abbrev pub advance : ℕ → ℕ → ℕ
advance n k = (n + k) % 2 ^ 64

-- the loop of `flush` over the two runs
unfoldable pub pair_up : ℕ → ℕ → List Bytes → List Bytes → List DiffRow
pair_up l r [] [] = []
pair_up l r [] (a ∷ adds) =
    record { kind = row_add; left_no = 0; right_no = advance r 1; left = []; right = a }
    ∷ pair_up l (advance r 1) [] adds
pair_up l r (d ∷ dels) [] =
    record { kind = row_remove; left_no = advance l 1; right_no = 0; left = d; right = [] }
    ∷ pair_up (advance l 1) r dels []
pair_up l r (d ∷ dels) (a ∷ adds) =
    record {
      kind = row_replace;
      left_no = advance l 1;
      right_no = advance r 1;
      left = d;
      right = a;
    }
    ∷ pair_up (advance l 1) (advance r 1) dels adds

-- `flush`
unfoldable pub flush : View → View
unfolding pair_up
flush v = record {
  rows = v.rows ++ pair_up v.left_no v.right_no v.dels v.adds;
  left_no = advance v.left_no (length v.dels);
  right_no = advance v.right_no (length v.adds);
  dels = [];
  adds = [];
}

-- the count of the elision marker; 0 where there is none
unfoldable pub skipped_count : Bytes → ℕ
skipped_count line = elim (find skip_re line) [
  | none ↦ 0
  | some m ↦ atoi_value (slice m.group_start m.group_end line)
]

-- "略过 %d 行未变更", in UTF-8
abbrev skip_text : ℕ → Bytes
skip_text n =
    231
    ∷ 149
    ∷ 165
    ∷ 232
    ∷ 191
    ∷ 135
    ∷ 32
    ∷ (itoa n ++ 32 ∷ 232 ∷ 161 ∷ 140 ∷ 230 ∷ 156 ∷ 170 ∷ 229 ∷ 143 ∷ 152 ∷ 230 ∷ 155 ∷ 180 ∷ [])

unfoldable pub skip_row : Bytes → View → View
unfolding skipped_count
skip_row line v =
    let n = skipped_count line in
    record v {
      rows =
          v.rows
          ++ record {
            kind = row_skip;
            left_no = 0;
            right_no = 0;
            left = skip_text n;
            right = skip_text n;
          }
            ∷ [];
      left_no = advance v.left_no n;
      right_no = advance v.right_no n;
    }

-- `strings.TrimPrefix(line, " ")`
unfoldable pub trim_one_space : Bytes → Bytes
trim_one_space line = if has_prefix line (codes " ") then drop 1 line else line

unfoldable pub equal_row : Bytes → View → View
unfolding trim_one_space
equal_row line v = record v {
  rows =
      v.rows
      ++ record {
        kind = row_equal;
        left_no = advance v.left_no 1;
        right_no = advance v.right_no 1;
        left = trim_one_space line;
        right = trim_one_space line;
      }
        ∷ [];
  left_no = advance v.left_no 1;
  right_no = advance v.right_no 1;
}

abbrev pub is_file_header : Bytes → Bool
is_file_header line = has_prefix line (codes "--- ") || has_prefix line (codes "+++ ")

-- the body of the loop over the lines
unfoldable pub read_line : View → Bytes → View
unfolding flush skip_row equal_row
read_line v line =
    if str_eq line []
    then v
    else if is_file_header line
    then v
    else if has_prefix line (codes "@@")
    then skip_row line (flush v)
    else if has_prefix line (codes "-")
    then record v { dels = v.dels ++ drop 1 line ∷ [] }
    else if has_prefix line (codes "+")
    then record v { adds = v.adds ++ drop 1 line ∷ [] }
    else equal_row line (flush v)

unfoldable pub read_lines : View → List Bytes → View
unfolding read_line
read_lines v [] = v
read_lines v (line ∷ lines) = read_lines (read_line v line) lines

abbrev pub start : View
start = record { rows = []; left_no = 0; right_no = 0; dels = []; adds = [] }

-- the rows of the lines of a diff
unfoldable pub rows_of : List Bytes → List DiffRow
unfolding read_lines
rows_of lines = (flush (read_lines start lines)).rows

-- `SideBySideDiff`
unfoldable pub side_by_side_diff : Bytes → List DiffRow
unfolding rows_of
side_by_side_diff unified = rows_of (split nl unified)

abbrev pub adds_one : RowKind → ℕ
adds_one row_equal = 0
adds_one row_replace = 1
adds_one row_add = 1
adds_one row_remove = 0
adds_one row_skip = 0

abbrev pub removes_one : RowKind → ℕ
removes_one row_equal = 0
removes_one row_replace = 1
removes_one row_add = 0
removes_one row_remove = 1
removes_one row_skip = 0

-- `DiffCounts`
unfoldable pub diff_counts : List DiffRow → ℕ × ℕ
diff_counts [] = (0, 0)
diff_counts (row ∷ rows) =
    let (added, removed) = diff_counts rows in
    (adds_one row.kind + added, removes_one row.kind + removed)
