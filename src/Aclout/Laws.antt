-- ===== src/Aclout/Laws.antt =====
-- What internal/h3c/aclout/aclout.go guarantees of the ids that it reads.
use acl_edit_only.Base.{
  ℕ, ◌≡◌, ◌⊎◌, inl, inr, ◌↔◌, true, false, Bool-cases, some, List, [], ◌∷◌, Elem, arith,
}
use acl_edit_only.Base.Text.{Bytes}
use acl_edit_only.Base.Decimal.{atoi}
use acl_edit_only.Aclout.{IdSet, has_id, add_id}

-- no element twice
abbrev pub Distinct : IdSet → Type 0
Distinct [] = Unit
Distinct (n ∷ ids) = (¬ Elem n ids) × Distinct ids

pub has_id_iff : (n : ℕ) (ids : IdSet) → (has_id n ids ≡ true) ↔ Elem n ids
has_id_iff n [] = ground arith
has_id_iff n (m ∷ ids) = ground (arith, has_id_iff n ids)

pub has_id-false : (n : ℕ) (ids : IdSet) → has_id n ids ≡ false → ¬ Elem n ids
has_id-false n ids h e = cc ((has_id_iff n ids).1 e)

pub Elem-add_id : (n m : ℕ) (ids : IdSet) → Elem n (add_id m ids) ↔ ((n ≡ m) ⊎ Elem n ids)
unfolding add_id
Elem-add_id n m ids = elim (Bool-cases (has_id m ids)) [
  | inl e ↦ rw e (λ h. inr h, λ h. elim h [ inl p ↦ rw p ((has_id_iff m ids).0 e) | inr q ↦ q ])
  | inr e ↦ rw e (λ h. h, λ h. h)
]

pub add_id-Distinct : (m : ℕ) (ids : IdSet) → Distinct ids → Distinct (add_id m ids)
unfolding add_id
add_id-Distinct m ids d = elim (Bool-cases (has_id m ids)) [
  | inl e ↦ rw e d
  | inr e ↦ rw e (has_id-false m ids e, d)
]

-- some match reads as this id
abbrev pub Reads : ℕ → List Bytes → Type 0
Reads n [] = ⊥
Reads n (m ∷ ms) = (atoi m ≡ some n) ⊎ Reads n ms
