-- ===== src/Core/Alloc/Fresh.antt =====
-- Why an id that `allocateRuleID` of internal/aclweb/core/core.go returns is free.
use acl_edit_only.Base.{
  ℕ, ◌+◌, ◌≤◌, ◌≡◌, ◌⊎◌, inl, inr, ◌↔◌, refl, sym, true, Bool-cases, List, [], ◌∷◌, Elem, arith,
  ltb, if◌then◌else◌,
}
use acl_edit_only.Base.Text.{Bytes}
use acl_edit_only.Base.Decimal.{atoi_value}
use acl_edit_only.Base.Int.{ℤ, pos, ◌≤ℤ◌, ◌<ℤ◌}
use acl_edit_only.Base.Result.{ok, err}
use acl_edit_only.Base.Regex.{find_all_groups}
use acl_edit_only.Aclout.{IdSet, has_id, add_id, rule_line_re, count}
use acl_edit_only.Aclout.Laws.{has_id_iff, Elem-add_id}
use acl_edit_only.Core.Alloc.{
  AllocError, exhausted, in_window, collect_window, occupied_ids, max_id, choose_next, choose,
  allocate_rule_id,
}

le-max_id : (m : ℕ) (ids : IdSet) → m ≤ max_id m ids
unfolding max_id
le-max_id m [] = omega arith
le-max_id m (i ∷ ids) = ground (arith, le-max_id m ids, le-max_id i ids)

Elem-le-max_id : (n m : ℕ) (ids : IdSet) → Elem n ids → n ≤ max_id m ids
unfolding max_id
Elem-le-max_id n m [] h = elim h [ ]
Elem-le-max_id n m (i ∷ ids) (inl e) = ground (arith, le-max_id m ids, le-max_id i ids)
Elem-le-max_id n m (i ∷ ids) (inr h) = Elem-le-max_id n (if ltb m i then i else m) ids h

-- the maximum is where the loop began, or an element
max_id_cases : (m : ℕ) (ids : IdSet) (r : ℕ) → max_id m ids ≡ r → (r ≡ m) ⊎ Elem r ids
unfolding max_id
max_id_cases m [] r h = inl (sym h)
max_id_cases m (i ∷ ids) r h = elim (Bool-cases (ltb m i)) [
  | inl e ↦ inr (max_id_cases i ids r (rw e at h))
  | inr e ↦ elim (max_id_cases m ids r (rw e at h)) [ inl p ↦ inl p | inr q ↦ inr (inr q) ]
]

module _ (lo hi : ℤ) where
  abbrev Within : ℕ → Type 0
  Within n = (lo ≤ℤ pos n) × (pos n ≤ℤ hi)

  in_window_iff : (n : ℕ) → (in_window lo hi n ≡ true) ↔ Within n
  in_window_iff n = ground arith

  -- only ids of the window are collected
  collect_window-Within :
      (ms : List Bytes) (ids : IdSet)
      → ((n : ℕ) → Elem n ids → Within n)
      → (n : ℕ) → Elem n (collect_window lo hi ms ids)
      → Within n
  unfolding collect_window
  collect_window-Within [] ids h n e = h n e
  collect_window-Within (m ∷ ms) ids h n e = elim (Bool-cases (in_window lo hi (atoi_value m))) [
    | inl p ↦
        collect_window-Within ms (add_id (atoi_value m) ids)
          (λ k q. elim ((Elem-add_id k (atoi_value m) ids).0 q) [
            | inl s ↦ rw s ((in_window_iff (atoi_value m)).0 p)
            | inr o ↦ h k o
          ])
          n (rw p at e)
    | inr p ↦ collect_window-Within ms ids h n (rw p at e)
  ]

  occupied_ids-Within : (raw : Bytes) (n : ℕ) → Elem n (occupied_ids raw lo hi) → Within n
  unfolding occupied_ids
  occupied_ids-Within raw =
      collect_window-Within (find_all_groups rule_line_re raw) [] (λ n e. absurd e)

-- what a returned id satisfies, given the ids of the window that are in use
abbrev Free : ℤ → ℤ → IdSet → ℤ → Type 0
Free lo hi ids r = (lo ≤ℤ r) × (r ≤ℤ hi) × ((n : ℕ) → Elem n ids → pos n <ℤ r)

-- the maximum of a set that is not empty is in it
max_id-Elem : (i : ℕ) (ids : IdSet) → Elem (max_id 0 (i ∷ ids)) (i ∷ ids)
max_id-Elem i ids = elim (max_id_cases 0 (i ∷ ids) _ refl) [
  | inl z ↦ inl (omega (arith, z, Elem-le-max_id i 0 (i ∷ ids) (inl refl)))
  | inr q ↦ q
]

choose_next-err :
    (hi : ℤ) (ids : IdSet) {e : AllocError}
    → pos (max_id 0 ids) ≤ℤ hi
    → (¬ Elem (max_id 0 ids + 1) ids)
    → choose_next ids hi ≡ err e
    → (e ≡ exhausted (max_id 0 ids)) × (pos (max_id 0 ids) ≡ hi)
unfolding choose_next
choose_next-err hi ids h new e = elim (Bool-cases (has_id (max_id 0 ids + 1) ids)) [
  | inl p ↦ absurd (new ((has_id_iff (max_id 0 ids + 1) ids).0 p))
  | inr p ↦ ground arith
]

choose-err :
    (lo hi : ℤ) (ids : IdSet) {e : AllocError}
    → ((n : ℕ) → Elem n ids → (lo ≤ℤ pos n) × (pos n ≤ℤ hi))
    → choose ids lo hi ≡ err e
    → (m : ℕ) × (e ≡ exhausted m) × (pos m ≡ hi) × Elem m ids
choose-err lo hi [] w h = cc
choose-err lo hi (i ∷ ids) w h =
    let top = max_id 0 (i ∷ ids) in
    let new : ¬ Elem (top + 1) (i ∷ ids) =
      λ q. absurd (omega (arith, Elem-le-max_id (top + 1) 0 (i ∷ ids) q)) in
    let (s, at) = choose_next-err hi (i ∷ ids) (w top (max_id-Elem i ids)).1 new h in
    (top, s, at, max_id-Elem i ids)

chosen_of_err :
    (raw : Bytes) (acl_num lo hi : ℤ) {k : ℕ} {e : AllocError}
    → count raw acl_num ≡ ok k
    → allocate_rule_id raw acl_num lo hi ≡ err e
    → choose (occupied_ids raw lo hi) lo hi ≡ err e
unfolding allocate_rule_id
chosen_of_err raw acl_num lo hi c h = ground arith

-- Where the snapshot can be read, allocation fails only if the last id of
-- the window is in use: the check that the next id is occupied never fires.
pub allocate_rule_id_exhausted :
    (raw : Bytes) (acl_num range_min alloc_max : ℤ) {k : ℕ} {e : AllocError}
    → count raw acl_num ≡ ok k
    → allocate_rule_id raw acl_num range_min alloc_max ≡ err e
    → (m : ℕ) × (e ≡ exhausted m)
      × (pos m ≡ alloc_max)
      × Elem m (occupied_ids raw range_min alloc_max)
allocate_rule_id_exhausted raw acl_num lo hi c h =
    choose-err lo hi (occupied_ids raw lo hi) (occupied_ids-Within lo hi raw)
      (chosen_of_err raw acl_num lo hi c h)
