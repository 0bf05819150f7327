-- ===== src/Core/Diff/Minimal.antt =====
-- The table of `diffOps` in internal/aclweb/core/core.go against longest common subsequences.
use acl_edit_only.Base.{
  ℕ, zero, suc, ◌+◌, ◌≤◌, ◌≡◌, ◌⊎◌, refl, sym, ap, ◌∙◌, Bool-cases, inl, inr, List, [], ◌∷◌,
  if◌then◌else◌, length, drop, arith,
}
use acl_edit_only.Base.Text.{Bytes, str_eq, str_eq_iff}
use acl_edit_only.Core.Diff.{
  DiffOp, is_equal, head_or_zero, entry, fill_row, zero_row, first_row, table, column, at, script,
  diff_ops,
}

-- the recursion that the table tabulates
lcs : List Bytes → List Bytes → ℕ
lcs [] b = 0
lcs (x ∷ xs) [] = 0
lcs (x ∷ xs) (y ∷ ys) = entry (str_eq x y) (lcs xs (y ∷ ys)) (lcs (x ∷ xs) ys) (lcs xs ys)

lcs_nil : (a : List Bytes) → lcs a [] ≡ 0
unfolding lcs
lcs_nil [] = refl
lcs_nil (x ∷ xs) = refl

-- the row of the table for the suffix `a` of the old text
lcs_row : List Bytes → List Bytes → List ℕ
lcs_row a [] = lcs a [] ∷ []
lcs_row a (y ∷ ys) = lcs a (y ∷ ys) ∷ lcs_row a ys

head-lcs_row : (a b : List Bytes) → head_or_zero (lcs_row a b) ≡ lcs a b
unfolding lcs_row
head-lcs_row a [] = refl
head-lcs_row a (y ∷ ys) = refl

zero_row-lcs_row : (b : List Bytes) → zero_row b ≡ lcs_row [] b
unfolding zero_row lcs_row lcs
zero_row-lcs_row [] = refl
zero_row-lcs_row (y ∷ ys) = ap (λ r. 0 ∷ r) (zero_row-lcs_row ys)

fill_row-lcs_row :
    (x : Bytes) (xs b : List Bytes) → fill_row x b (lcs_row xs b) ≡ lcs_row (x ∷ xs) b
unfolding fill_row lcs_row
fill_row-lcs_row x xs [] = unfold lcs in refl
fill_row-lcs_row x xs (y ∷ ys) =
    rw (fill_row-lcs_row x xs ys, head-lcs_row xs ys, head-lcs_row (x ∷ xs) ys) (unfold lcs in refl)

first_row-table : (a b : List Bytes) → first_row (table a b) ≡ lcs_row a b
unfolding table
first_row-table [] b = zero_row-lcs_row b
first_row-table (x ∷ xs) b = rw (first_row-table xs b) (fill_row-lcs_row x xs b)

column-lcs_row : (a b : List Bytes) (j : ℕ) → column (lcs_row a b) j ≡ lcs a (drop j b)
unfolding lcs_row
column-lcs_row a [] zero = refl
column-lcs_row a [] (suc j) = sym (lcs_nil a)
column-lcs_row a (y ∷ ys) zero = refl
column-lcs_row a (y ∷ ys) (suc j) = column-lcs_row a ys j

at_zero : (t : List (List ℕ)) (j : ℕ) → at t 0 j ≡ column (first_row t) j
at_zero [] j = refl
at_zero (row ∷ rows) j = refl

-- every entry of the table is the length for the two suffixes
at-table : (a b : List Bytes) (i j : ℕ) → at (table a b) i j ≡ lcs (drop i a) (drop j b)
at-table a b zero j = at_zero (table a b) j ∙ (rw (first_row-table a b) (column-lcs_row a b j))
at-table [] b (suc i) j = unfold table lcs in refl
at-table (x ∷ xs) b (suc i) j = at_tail x xs b i j (at-table xs b i j)
  where
    at_tail :
        (x : Bytes) (xs b : List Bytes) (i j : ℕ)
        → at (table xs b) i j ≡ lcs (drop i xs) (drop j b)
        → at (table (x ∷ xs) b) (suc i) j ≡ lcs (drop i xs) (drop j b)
    at_tail x xs b i j h = unfold table in h

-- the number of lines that a script keeps
abbrev pub kept : List DiffOp → ℕ
kept [] = 0
kept (op ∷ ops) = if is_equal op.kind then suc (kept ops) else kept ops

-- the entries from i and j on are those of the suffixes `xs` and `ys`
abbrev Agrees : List (List ℕ) → ℕ → ℕ → List Bytes → List Bytes → Type 0
Agrees t i j xs ys = (p q : ℕ) → at t (i + p) (j + q) ≡ lcs (drop p xs) (drop q ys)

module _ (t : List (List ℕ)) (i j : ℕ) (x : Bytes) (xs : List Bytes) where
  Agrees-down : (ys : List Bytes) → Agrees t i j (x ∷ xs) ys → Agrees t (i + 1) j xs ys
  Agrees-down ys h p q = let e : i + 1 + p ≡ i + suc p = omega arith in rw e (h (suc p) q)

Agrees-right :
    (t : List (List ℕ)) (i j : ℕ) (xs : List Bytes) (y : Bytes) (ys : List Bytes)
    → Agrees t i j xs (y ∷ ys)
    → Agrees t i (j + 1) xs ys
Agrees-right t i j xs y ys h p q = let e : j + 1 + q ≡ j + suc q = omega arith in rw e (h p (suc q))

Agrees-here :
    (t : List (List ℕ)) (i j : ℕ) (xs ys : List Bytes) → Agrees t i j xs ys → at t i j ≡ lcs xs ys
Agrees-here t i j xs ys h =
    let e : i + 0 ≡ i = omega arith in let f : j + 0 ≡ j = omega arith in rw (e, f) at (h 0 0)

lcs_cons :
    (x : Bytes) (xs : List Bytes) (y : Bytes) (ys : List Bytes)
    → lcs (x ∷ xs) (y ∷ ys) ≡ entry (str_eq x y) (lcs xs (y ∷ ys)) (lcs (x ∷ xs) ys) (lcs xs ys)
unfolding lcs
lcs_cons x xs y ys = refl

kept-script :
    (t : List (List ℕ)) (i j : ℕ) (a b : List Bytes)
    → Agrees t i j a b
    → kept (script t i j a b) ≡ lcs a b
unfolding script
kept-script t i j [] [] h = unfold lcs in refl
kept-script t i j [] (y ∷ ys) h =
    kept-script t i (j + 1) [] ys (Agrees-right t i j [] y ys h) ∙ (unfold lcs in refl)
kept-script t i j (x ∷ xs) [] h =
    kept-script t (i + 1) j xs [] (Agrees-down t i j x xs [] h)
    ∙ (lcs_nil xs ∙ sym (lcs_nil (x ∷ xs)))
kept-script t i j (x ∷ xs) (y ∷ ys) h =
    let down = Agrees-down t i j x xs (y ∷ ys) h in
    let right = Agrees-right t i j (x ∷ xs) y ys h in
    let diagonal = Agrees-right t (i + 1) j xs y ys down in
    ground (
      arith,
      lcs_cons x xs y ys,
      Agrees-here t (i + 1) j xs (y ∷ ys) down,
      Agrees-here t i (j + 1) (x ∷ xs) ys right,
      kept-script t (i + 1) (j + 1) xs ys diagonal,
      kept-script t (i + 1) j xs (y ∷ ys) down,
      kept-script t i (j + 1) (x ∷ xs) ys right,
    )

kept-diff_ops : (a b : List Bytes) → kept (diff_ops a b) ≡ lcs a b
unfolding diff_ops
kept-diff_ops a b = kept-script (table a b) 0 0 a b λ p q.
    let e : 0 + p ≡ p = omega arith in
    let f : 0 + q ≡ q = omega arith in rw (e, f) (at-table a b p q)

-- `c` is what is left of a text when some of its lines are left out.
pub data Subsequence : List Bytes → List Bytes → Type 0 where
  end : Subsequence [] []
  keep : {c l : List Bytes} (x : Bytes) → Subsequence c l → Subsequence (x ∷ c) (x ∷ l)
  leave : {c l : List Bytes} (x : Bytes) → Subsequence c l → Subsequence c (x ∷ l)

Subsequence-rest : {z : Bytes} {c l : List Bytes} → Subsequence (z ∷ c) l → Subsequence c l
Subsequence-rest (keep x s) = leave x s
Subsequence-rest (leave x s) = leave x (Subsequence-rest s)

-- without the first element on both sides
Subsequence-tails : {z x : Bytes} {c l : List Bytes} → Subsequence (z ∷ c) (x ∷ l) → Subsequence c l
Subsequence-tails (keep x s) = s
Subsequence-tails (leave x s) = Subsequence-rest s

-- the first line of the text is the first that is kept, or it is left out
Subsequence-cases :
    {z x : Bytes} {c l : List Bytes} → Subsequence (z ∷ c) (x ∷ l) → (z ≡ x) ⊎ Subsequence (z ∷ c) l
Subsequence-cases (keep x s) = inl refl
Subsequence-cases (leave x s) = inr s

-- No common subsequence is longer.
length-le-lcs : (a b c : List Bytes) → Subsequence c a → Subsequence c b → length c ≤ lcs a b
length-le-lcs a b [] p q = omega arith
length-le-lcs [] b (z ∷ c) p q = elim p [ ]
length-le-lcs (x ∷ xs) [] (z ∷ c) p q = elim q [ ]
length-le-lcs (x ∷ xs) (y ∷ ys) (z ∷ c) p q = elim (Bool-cases (str_eq x y)) [
  | inl same ↦
      let shorter = length-le-lcs xs ys c (Subsequence-tails p) (Subsequence-tails q) in
      ground (arith, lcs_cons x xs y ys)
  | inr other ↦ elim (Subsequence-cases p) [
    | inr p' ↦
        let shorter = length-le-lcs xs (y ∷ ys) (z ∷ c) p' q in ground (arith, lcs_cons x xs y ys)
    | inl zx ↦ elim (Subsequence-cases q) [
      | inr q' ↦
          let shorter = length-le-lcs (x ∷ xs) ys (z ∷ c) p q' in ground (arith, lcs_cons x xs y ys)
      | inl zy ↦ cc ((str_eq_iff x y).1 (sym zx ∙ zy))
    ]
  ]
]

-- The script is as short as it can be: it keeps at least as many lines as any common subsequence of
-- the two texts has.
pub diff_ops_minimal :
    (a b c : List Bytes) → Subsequence c a → Subsequence c b → length c ≤ kept (diff_ops a b)
diff_ops_minimal a b c p q = omega (arith, kept-diff_ops a b, length-le-lcs a b c p q)
