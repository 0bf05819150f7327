-- ===== src/Core/SideBySide/Replays.antt =====
-- The rows of internal/aclweb/core/sidebyside.go show both texts of a diff.
use acl_edit_only.Base.{
  ℕ, ◌≡◌, refl, sym, ap, ◌∙◌, false, List, [], ◌∷◌, ◌++◌, append_assoc, append-nil, map, All,
}
use acl_edit_only.Base.Text.{Bytes, str_eq, has_prefix}
use acl_edit_only.Core.Diff.{OpKind, op_equal, op_delete, op_insert, DiffOp, sign}
use acl_edit_only.Core.Diff.Script.{old_onto, new_onto, old_lines, new_lines}
use acl_edit_only.Core.SideBySide.{
  RowKind, row_equal, row_replace, row_add, row_remove, row_skip, DiffRow, View, advance, pair_up,
  flush, is_file_header, equal_row, trim_one_space, read_line, read_lines, start, rows_of,
}

-- the lines of the left and of the right column
abbrev pub left_onto : RowKind → Bytes → List Bytes → List Bytes
left_onto row_equal t rest = t ∷ rest
left_onto row_replace t rest = t ∷ rest
left_onto row_add t rest = rest
left_onto row_remove t rest = t ∷ rest
left_onto row_skip t rest = rest

abbrev pub right_onto : RowKind → Bytes → List Bytes → List Bytes
right_onto row_equal t rest = t ∷ rest
right_onto row_replace t rest = t ∷ rest
right_onto row_add t rest = t ∷ rest
right_onto row_remove t rest = rest
right_onto row_skip t rest = rest

abbrev pub lefts : List DiffRow → List Bytes
lefts [] = []
lefts (r ∷ rows) = left_onto r.kind r.left (lefts rows)

abbrev pub rights : List DiffRow → List Bytes
rights [] = []
rights (r ∷ rows) = right_onto r.kind r.right (rights rows)

-- the line of an op, and that it is not taken for a file header
abbrev pub line_of : DiffOp → Bytes
line_of op = sign op.kind ++ op.text

abbrev pub Readable : DiffOp → Type 0
Readable op = is_file_header (line_of op) ≡ false

left_onto-append :
    (k : RowKind) (t : Bytes) (xs ys : List Bytes)
    → left_onto k t (xs ++ ys) ≡ left_onto k t xs ++ ys
left_onto-append row_equal t xs ys = refl
left_onto-append row_replace t xs ys = refl
left_onto-append row_add t xs ys = refl
left_onto-append row_remove t xs ys = refl
left_onto-append row_skip t xs ys = refl

right_onto-append :
    (k : RowKind) (t : Bytes) (xs ys : List Bytes)
    → right_onto k t (xs ++ ys) ≡ right_onto k t xs ++ ys
right_onto-append row_equal t xs ys = refl
right_onto-append row_replace t xs ys = refl
right_onto-append row_add t xs ys = refl
right_onto-append row_remove t xs ys = refl
right_onto-append row_skip t xs ys = refl

lefts-append : (xs ys : List DiffRow) → lefts (xs ++ ys) ≡ lefts xs ++ lefts ys
lefts-append [] ys = refl
lefts-append (r ∷ xs) ys =
    ap (left_onto r.kind r.left) (lefts-append xs ys)
    ∙ left_onto-append r.kind r.left (lefts xs) (lefts ys)

rights-append : (xs ys : List DiffRow) → rights (xs ++ ys) ≡ rights xs ++ rights ys
rights-append [] ys = refl
rights-append (r ∷ xs) ys =
    ap (right_onto r.kind r.right) (rights-append xs ys)
    ∙ right_onto-append r.kind r.right (rights xs) (rights ys)

pair_up_lem :
    (l r : ℕ) (ds bs : List Bytes)
    → (lefts (pair_up l r ds bs) ≡ ds) × (rights (pair_up l r ds bs) ≡ bs)
unfolding pair_up
pair_up_lem l r [] [] = (refl, refl)
pair_up_lem l r [] (a ∷ bs) =
    let (p, q) = pair_up_lem l (advance r 1) [] bs in (p, ap (λ x. a ∷ x) q)
pair_up_lem l r (d ∷ ds) [] =
    let (p, q) = pair_up_lem (advance l 1) r ds [] in (ap (λ x. d ∷ x) p, q)
pair_up_lem l r (d ∷ ds) (a ∷ bs) =
    let (p, q) = pair_up_lem (advance l 1) (advance r 1) ds bs in
    (ap (λ x. d ∷ x) p, ap (λ x. a ∷ x) q)

-- the lines of both sides that a view has taken in
abbrev Seen : View → List Bytes → List Bytes → Type 0
Seen v old new = (lefts v.rows ++ v.dels ≡ old) × (rights v.rows ++ v.adds ≡ new)

flush-Seen :
    (v : View) (old new : List Bytes)
    → Seen v old new
    → (lefts (flush v).rows ≡ old) × (rights (flush v).rows ≡ new)
unfolding flush
flush-Seen v old new (p, q) =
    let (a, b) = pair_up_lem v.left_no v.right_no v.dels v.adds in
    (
      lefts-append v.rows (pair_up v.left_no v.right_no v.dels v.adds)
          ∙ (ap (λ x. lefts v.rows ++ x) a ∙ p),
      rights-append v.rows (pair_up v.left_no v.right_no v.dels v.adds)
          ∙ (ap (λ x. rights v.rows ++ x) b ∙ q),
    )

-- a line adds to what has been seen what its op takes from the old text and puts in the new
read_line-Seen :
    (v : View) (k : OpKind) (t : Bytes) (old new : List Bytes)
    → is_file_header (sign k ++ t) ≡ false
    → Seen v old new
    → Seen (read_line v (sign k ++ t)) (old ++ old_onto k t []) (new ++ new_onto k t [])
unfolding read_line equal_row trim_one_space str_eq has_prefix
read_line-Seen v op_equal t old new h s =
    let (a, b) = flush-Seen v old new s in
    (
      append-nil _ ∙ (lefts-append (flush v).rows _ ∙ ap (λ x. x ++ t ∷ []) a),
      append-nil _ ∙ (rights-append (flush v).rows _ ∙ ap (λ x. x ++ t ∷ []) b),
    )
read_line-Seen v op_delete t old new h (p, q) = rw h (
  sym (append_assoc (lefts v.rows) v.dels (t ∷ [])) ∙ ap (λ x. x ++ t ∷ []) p,
  q ∙ sym (append-nil new),
)
read_line-Seen v op_insert t old new h (p, q) = rw h (
  p ∙ sym (append-nil old),
  sym (append_assoc (rights v.rows) v.adds (t ∷ [])) ∙ ap (λ x. x ++ t ∷ []) q,
)

read_lines-Seen :
    (v : View) (ops : List DiffOp) (old new : List Bytes)
    → All Readable ops
    → Seen v old new
    → Seen (read_lines v (map line_of ops)) (old ++ old_lines ops) (new ++ new_lines ops)
unfolding read_lines
read_lines-Seen v [] old new h (p, q) = (p ∙ sym (append-nil old), q ∙ sym (append-nil new))
read_lines-Seen v (op ∷ ops) old new (h, hs) s =
    let (p, q) =
      read_lines-Seen (read_line v (line_of op)) ops (old ++ old_onto op.kind op.text [])
        (new ++ new_onto op.kind op.text []) hs (read_line-Seen v op.kind op.text old new h s) in
    (
      p ∙ onto_old op.kind op.text old (old_lines ops),
      q ∙ onto_new op.kind op.text new (new_lines ops),
    )
  where
    onto_old :
        (k : OpKind) (t : Bytes) (xs ys : List Bytes)
        → (xs ++ old_onto k t []) ++ ys ≡ xs ++ old_onto k t ys
    onto_old op_equal t xs ys = append_assoc xs (t ∷ []) ys
    onto_old op_delete t xs ys = append_assoc xs (t ∷ []) ys
    onto_old op_insert t xs ys = ap (λ l. l ++ ys) (append-nil xs)

    onto_new :
        (k : OpKind) (t : Bytes) (xs ys : List Bytes)
        → (xs ++ new_onto k t []) ++ ys ≡ xs ++ new_onto k t ys
    onto_new op_equal t xs ys = append_assoc xs (t ∷ []) ys
    onto_new op_delete t xs ys = ap (λ l. l ++ ys) (append-nil xs)
    onto_new op_insert t xs ys = append_assoc xs (t ∷ []) ys

-- The two columns show both texts: for the lines that a script prints, none of which looks like a file
-- header, the left column holds the old text and the right column the new text, line by line.
pub rows_of_replays :
    (ops : List DiffOp)
    → All Readable ops
    → (lefts (rows_of (map line_of ops)) ≡ old_lines ops)
      × (rights (rows_of (map line_of ops)) ≡ new_lines ops)
unfolding rows_of
rows_of_replays ops h =
    flush-Seen (read_lines start (map line_of ops)) (old_lines ops) (new_lines ops)
      (read_lines-Seen start ops [] [] h (refl, refl))
