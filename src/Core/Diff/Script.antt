-- ===== src/Core/Diff/Script.antt =====
-- The edit script of internal/aclweb/core/core.go turns the one text into the other.
use acl_edit_only.Base.{ℕ, ◌+◌, ◌≡◌, refl, ap, List, [], ◌∷◌, arith}
use acl_edit_only.Base.Text.{Bytes, str_eq_iff}
use acl_edit_only.Core.Diff.{OpKind, op_equal, op_delete, op_insert, DiffOp, script, diff_ops}

-- the lines that an op takes from the old text, in front of `rest`, and those that it puts in the new
abbrev pub old_onto : OpKind → Bytes → List Bytes → List Bytes
old_onto op_equal t rest = t ∷ rest
old_onto op_delete t rest = t ∷ rest
old_onto op_insert t rest = rest

abbrev pub new_onto : OpKind → Bytes → List Bytes → List Bytes
new_onto op_equal t rest = t ∷ rest
new_onto op_delete t rest = rest
new_onto op_insert t rest = t ∷ rest

abbrev pub old_lines : List DiffOp → List Bytes
old_lines [] = []
old_lines (op ∷ ops) = old_onto op.kind op.text (old_lines ops)

abbrev pub new_lines : List DiffOp → List Bytes
new_lines [] = []
new_lines (op ∷ ops) = new_onto op.kind op.text (new_lines ops)

script_replays :
    (t : List (List ℕ)) (i j : ℕ) (a b : List Bytes)
    → (old_lines (script t i j a b) ≡ a) × (new_lines (script t i j a b) ≡ b)
unfolding script
script_replays t i j [] [] = (refl, refl)
script_replays t i j [] (y ∷ ys) =
    let (o, n) = script_replays t i (j + 1) [] ys in (o, ap (λ l. y ∷ l) n)
script_replays t i j (x ∷ xs) [] =
    let (o, n) = script_replays t (i + 1) j xs [] in (ap (λ l. x ∷ l) o, n)
script_replays t i j (x ∷ xs) (y ∷ ys) = ground (
  arith,
  str_eq_iff x y,
  script_replays t (i + 1) (j + 1) xs ys,
  script_replays t (i + 1) j xs (y ∷ ys),
  script_replays t i (j + 1) (x ∷ xs) ys,
)

-- The script loses nothing: the lines that it keeps or deletes are the old text, in order, and the
-- lines that it keeps or inserts are the new text, in order.
pub diff_ops_replays :
    (a b : List Bytes) → (old_lines (diff_ops a b) ≡ a) × (new_lines (diff_ops a b) ≡ b)
unfolding diff_ops
diff_ops_replays a b = script_replays _ 0 0 a b
