-- ===== src/Core/SideBySide/Counts.antt =====
-- The counts above the table of internal/aclweb/core/sidebyside.go.
use acl_edit_only.Base.{
  ℕ, ◌+◌, ◌≡◌, refl, ap, ◌∙◌, false, List, [], ◌∷◌, ◌++◌, map, All, length, length-append, arith,
}
use acl_edit_only.Base.Text.{Bytes, str_eq, has_prefix}
use acl_edit_only.Core.Diff.{OpKind, op_equal, op_delete, op_insert, DiffOp, sign}
use acl_edit_only.Core.SideBySide.{
  row_equal, DiffRow, View, advance, pair_up, flush, is_file_header, equal_row, trim_one_space,
  read_line, read_lines, start, rows_of, diff_counts,
}
use acl_edit_only.Core.SideBySide.Replays.{line_of, Readable}

-- the counts of two sets of rows together
abbrev pub both : ℕ × ℕ → ℕ × ℕ → ℕ × ℕ
both (a, r) (b, s) = (a + b, r + s)

diff_counts-append :
    (xs ys : List DiffRow) → diff_counts (xs ++ ys) ≡ both (diff_counts xs) (diff_counts ys)
unfolding diff_counts
diff_counts-append [] ys = ground arith
diff_counts-append (r ∷ xs) ys = ground (arith, diff_counts-append xs ys)

diff_counts-pair_up :
    (l r : ℕ) (ds bs : List Bytes) → diff_counts (pair_up l r ds bs) ≡ (length bs, length ds)
unfolding diff_counts pair_up
diff_counts-pair_up l r [] [] = refl
diff_counts-pair_up l r [] (b ∷ bs) = ground (arith, diff_counts-pair_up l (advance r 1) [] bs)
diff_counts-pair_up l r (d ∷ ds) [] = ground (arith, diff_counts-pair_up (advance l 1) r ds [])
diff_counts-pair_up l r (d ∷ ds) (b ∷ bs) =
    ground (arith, diff_counts-pair_up (advance l 1) (advance r 1) ds bs)

-- the lines that a script inserts and deletes
abbrev pub changes_of : OpKind → ℕ × ℕ
changes_of op_equal = (0, 0)
changes_of op_delete = (0, 1)
changes_of op_insert = (1, 0)

abbrev pub changes : List DiffOp → ℕ × ℕ
changes [] = (0, 0)
changes (op ∷ ops) = both (changes_of op.kind) (changes ops)

-- the changes that a view has taken in
abbrev taken : View → ℕ × ℕ
taken v = both (diff_counts v.rows) (length v.adds, length v.dels)

flush-taken : (v : View) → diff_counts (flush v).rows ≡ taken v
unfolding flush
flush-taken v =
    diff_counts-append v.rows (pair_up v.left_no v.right_no v.dels v.adds)
    ∙ ap (both (diff_counts v.rows)) (diff_counts-pair_up v.left_no v.right_no v.dels v.adds)

counts_nothing : (row : DiffRow) → row.kind ≡ row_equal → diff_counts (row ∷ []) ≡ (0, 0)
unfolding diff_counts
counts_nothing row h = rw h refl

equal_row-taken :
    (v : View) (row : DiffRow)
    → diff_counts (row ∷ []) ≡ (0, 0)
    → both (diff_counts ((flush v).rows ++ row ∷ [])) (0, 0) ≡ both (taken v) (0, 0)
equal_row-taken v row h =
    ground (arith, diff_counts-append (flush v).rows (row ∷ []), flush-taken v)

read_line-taken :
    (v : View) (k : OpKind) (t : Bytes)
    → is_file_header (sign k ++ t) ≡ false
    → taken (read_line v (sign k ++ t)) ≡ both (taken v) (changes_of k)
unfolding read_line equal_row trim_one_space str_eq has_prefix
read_line-taken v op_equal t h = equal_row-taken v row (counts_nothing row refl)
  where
    row : DiffRow
    row = record {
      kind = row_equal;
      left_no = advance (flush v).left_no 1;
      right_no = advance (flush v).right_no 1;
      left = t;
      right = t;
    }
read_line-taken v op_delete t h = rw h (ground (arith, length-append v.dels (t ∷ [])))
read_line-taken v op_insert t h = rw h (ground (arith, length-append v.adds (t ∷ [])))

read_lines-taken :
    (v : View) (ops : List DiffOp)
    → All Readable ops
    → taken (read_lines v (map line_of ops)) ≡ both (taken v) (changes ops)
unfolding read_lines
read_lines-taken v [] h = ground arith
read_lines-taken v (op ∷ ops) (h, hs) =
    ground (
      arith,
      read_lines-taken (read_line v (line_of op)) ops hs,
      read_line-taken v op.kind op.text h,
    )

taken-start : taken start ≡ (0, 0)
unfolding diff_counts
taken-start = refl

-- The counts are exact: for the lines that a script prints, none of which looks like a file header,
-- they are the numbers of lines that the script inserts and deletes.
pub diff_counts-rows_of :
    (ops : List DiffOp) → All Readable ops → diff_counts (rows_of (map line_of ops)) ≡ changes ops
unfolding rows_of
diff_counts-rows_of ops h = ground (
  arith,
  flush-taken (read_lines start (map line_of ops)),
  read_lines-taken start ops h,
  taken-start,
)
