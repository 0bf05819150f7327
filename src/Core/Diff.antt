-- ===== src/Core/Diff.antt =====
-- The diff that the operator approves: `diffOps`, `unifiedDiff` and `splitKeep` of
-- internal/aclweb/core/core.go. The table is a list of rows, built from the last row up; the indices
-- of the loop are kept beside the lines that they leave.
pub mod Script
pub mod Minimal
use acl_edit_only.Base.{
  ℕ, zero, suc, ◌+◌, ◌-◌, Bool, true, false, not, Option, none, some, List, [], ◌∷◌, ◌++◌, leb, ltb,
  ◌==◌, ◌&&◌, if◌then◌else◌, length, map,
}
use acl_edit_only.Base.Text.{Bytes, codes, str_eq, split, nl}
use acl_edit_only.Base.Decimal.{itoa}

pub data OpKind : Type 0 where
  op_equal op_delete op_insert : OpKind

pub record DiffOp : Type 0 where
  pub kind : OpKind
  pub text : Bytes

-- the first entry of a row
abbrev pub head_or_zero : List ℕ → ℕ
head_or_zero [] = 0
head_or_zero (n ∷ row) = n

abbrev pub tail_of : List ℕ → List ℕ
tail_of [] = []
tail_of (n ∷ row) = row

-- an entry from its neighbours below, to the right, and diagonally
abbrev pub entry : Bool → ℕ → ℕ → ℕ → ℕ
entry same below right diagonal =
    if same then diagonal + 1 else if leb right below then below else right

-- row i of the table from row i + 1, over the columns that `ys` leaves
unfoldable pub fill_row : Bytes → List Bytes → List ℕ → List ℕ
fill_row x [] below = 0 ∷ []
fill_row x (y ∷ ys) below =
    let rest = fill_row x ys (tail_of below) in
    entry (str_eq x y) (head_or_zero below) (head_or_zero rest) (head_or_zero (tail_of below))
    ∷ rest

unfoldable pub zero_row : List Bytes → List ℕ
zero_row [] = 0 ∷ []
zero_row (y ∷ ys) = 0 ∷ zero_row ys

abbrev pub first_row : List (List ℕ) → List ℕ
first_row [] = []
first_row (row ∷ rows) = row

-- the table `lcs`
unfoldable pub table : List Bytes → List Bytes → List (List ℕ)
unfolding fill_row zero_row
table [] b = zero_row b ∷ []
table (x ∷ xs) b = let rows = table xs b in fill_row x b (first_row rows) ∷ rows

abbrev pub column : List ℕ → ℕ → ℕ
column [] j = 0
column (n ∷ row) zero = n
column (n ∷ row) (suc j) = column row j

-- `lcs[i][j]`
abbrev pub at : List (List ℕ) → ℕ → ℕ → ℕ
at [] i j = 0
at (row ∷ rows) zero j = column row j
at (row ∷ rows) (suc i) j = at rows i j

-- the loop over i and j, where `xs` is a[i:] and `ys` is b[j:], and the two loops behind it
unfoldable pub script : List (List ℕ) → ℕ → ℕ → List Bytes → List Bytes → List DiffOp
script t i j [] [] = []
script t i j [] (y ∷ ys) = record { kind = op_insert; text = y } ∷ script t i (j + 1) [] ys
script t i j (x ∷ xs) [] = record { kind = op_delete; text = x } ∷ script t (i + 1) j xs []
script t i j (x ∷ xs) (y ∷ ys) = elim (str_eq x y) [
  | true ↦ record { kind = op_equal; text = x } ∷ script t (i + 1) (j + 1) xs ys
  | false ↦ elim (leb (at t i (j + 1)) (at t (i + 1) j)) [
    | true ↦ record { kind = op_delete; text = x } ∷ script t (i + 1) j xs (y ∷ ys)
    | false ↦ record { kind = op_insert; text = y } ∷ script t i (j + 1) (x ∷ xs) ys
  ]
]

-- `diffOps`
unfoldable pub diff_ops : List Bytes → List Bytes → List DiffOp
unfolding script table
diff_ops a b = script (table a b) 0 0 a b

drop_last_empty : List Bytes → List Bytes
drop_last_empty [] = []
drop_last_empty (l ∷ []) = if str_eq l [] then [] else l ∷ []
drop_last_empty (l ∷ m ∷ ls) = l ∷ drop_last_empty (m ∷ ls)

-- `splitKeep`
unfoldable pub split_keep : Bytes → List Bytes
unfolding drop_last_empty
split_keep s = drop_last_empty (split nl s)

abbrev context : ℕ
context = 3

abbrev pub is_equal : OpKind → Bool
is_equal op_equal = true
is_equal op_delete = false
is_equal op_insert = false

-- `keep[j] = true` for the j from `first` to `last`; `i` is the index of the first flag
mark : ℕ → ℕ → ℕ → List Bool → List Bool
mark i first last [] = []
mark i first last (k ∷ keep) =
    (if leb first i && leb i last then true else k) ∷ mark (i + 1) first last keep

-- the loop that marks every change and `context` ops around it; j stays at 0 or above
mark_changes : ℕ → List DiffOp → List Bool → List Bool
unfolding mark
mark_changes i [] keep = keep
mark_changes i (op ∷ ops) keep =
    mark_changes (i + 1) ops
      (if is_equal op.kind then keep else mark 0 (i - context) (i + context) keep)

unfoldable pub keep_flags : List DiffOp → List Bool
unfolding mark_changes
keep_flags ops = mark_changes 0 ops (map (λ op. false) ops)

abbrev pub sign : OpKind → Bytes
sign op_equal = codes " "
sign op_delete = codes "-"
sign op_insert = codes "+"

-- the line that stands for a run of `n` ops that are left out
abbrev pub skip_line : ℕ → Bytes
skip_line n = codes "@@ " ++ (itoa n ++ codes " unchanged lines @@")

-- `flushSkip`, for a run of `n` ops; there is none where n is 0
flush_skip : ℕ → List Bytes
flush_skip zero = []
flush_skip (suc n) = skip_line (suc n) ∷ []

-- the loop that prints the ops that are kept; `skipped` is i - skipFrom, or 0 where skipFrom is -1
unfoldable pub print_ops : ℕ → List Bool → List DiffOp → List Bytes
unfolding flush_skip
print_ops skipped keep [] = flush_skip skipped
print_ops skipped [] (op ∷ ops) = print_ops (skipped + 1) [] ops
print_ops skipped (false ∷ keep) (op ∷ ops) = print_ops (skipped + 1) keep ops
print_ops skipped (true ∷ keep) (op ∷ ops) =
    flush_skip skipped ++ ((sign op.kind ++ op.text) ∷ print_ops 0 keep ops)

-- each line with the newline that ends it
unfoldable pub unlines : List Bytes → Bytes
unlines [] = []
unlines (l ∷ ls) = l ++ (nl ∷ unlines ls)

unfoldable pub unified_lines : List DiffOp → List Bytes
unfolding keep_flags print_ops
unified_lines ops = codes "--- before" ∷ codes "+++ after" ∷ print_ops 0 (keep_flags ops) ops

-- `unifiedDiff`
unfoldable pub unified_diff : Bytes → Bytes → Bytes
unfolding split_keep diff_ops unified_lines unlines
unified_diff a b = unlines (unified_lines (diff_ops (split_keep a) (split_keep b)))
