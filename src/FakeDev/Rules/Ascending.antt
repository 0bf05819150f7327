-- ===== src/FakeDev/Rules/Ascending.antt =====
-- internal/h3c/fakedev: the order of the rules of the simulated switch.
use acl_edit_only.Base.{◌≡◌, List, [], ◌∷◌, arith, All, subst}
use acl_edit_only.Base.Int.{ℤ, ◌<ℤ◌, eq_ℤ_iff}
use acl_edit_only.FakeDev.Rules.{Rule, put_rule, delete_rule}

-- the ids ascend, so that each of them is there once
abbrev pub Ascending : List Rule → Type 0
Ascending [] = Unit
Ascending (r ∷ rs) = All (λ x. r.id <ℤ x.id) rs × Ascending rs

put_rule-above :
    (a : ℤ) (r : Rule) (rs : List Rule)
    → a <ℤ r.id
    → All (λ x. a <ℤ x.id) rs
    → All (λ x. a <ℤ x.id) (put_rule r rs)
unfolding put_rule
put_rule-above a r [] h k = (h, tt)
put_rule-above a r (x ∷ rs) h k = ground (arith, put_rule-above a r rs h k.1)

above_trans :
    (a b : ℤ) (rs : List Rule) → a <ℤ b → All (λ x. b <ℤ x.id) rs → All (λ x. a <ℤ x.id) rs
above_trans a b [] h k = tt
above_trans a b (x ∷ rs) h k = (omega (arith, h, k.0), above_trans a b rs h k.1)

same_above : (a b : ℤ) (rs : List Rule) → a ≡ b → All (λ x. a <ℤ x.id) rs → All (λ x. b <ℤ x.id) rs
same_above a b rs h k = subst (λ y. All (λ x. y <ℤ x.id) rs) h k

pub put_rule-Ascending : (r : Rule) (rs : List Rule) → Ascending rs → Ascending (put_rule r rs)
unfolding put_rule
put_rule-Ascending r [] h = (tt, tt)
put_rule-Ascending r (x ∷ rs) h = ground (
  arith,
  same_above x.id r.id rs,
  eq_ℤ_iff x.id r.id,
  above_trans r.id x.id rs,
  put_rule-above x.id r rs,
  put_rule-Ascending r rs h.1,
)

delete_rule-above :
    (a id : ℤ) (rs : List Rule) → All (λ x. a <ℤ x.id) rs → All (λ x. a <ℤ x.id) (delete_rule id rs)
unfolding delete_rule
delete_rule-above a id [] h = tt
delete_rule-above a id (x ∷ rs) h = ground (arith, delete_rule-above a id rs h.1)

pub delete_rule-Ascending : (id : ℤ) (rs : List Rule) → Ascending rs → Ascending (delete_rule id rs)
unfolding delete_rule
delete_rule-Ascending id [] h = tt
delete_rule-Ascending id (x ∷ rs) h =
    ground (arith, delete_rule-above x.id id rs h.0, delete_rule-Ascending id rs h.1)
