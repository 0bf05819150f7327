-- ===== src/Device/Ops/Guard.antt =====
-- When the guards of internal/h3c/device/ops.go pass, and what the operations send before they do.
use acl_edit_only.Base.{ℕ, ◌≡◌, refl, ap, ◌⊎◌, inl, ◌↔◌, true, false, none, arith}
use acl_edit_only.Base.Text.{Bytes}
use acl_edit_only.Base.Int.{ℤ, pos, eq_ℤ_iff}
use acl_edit_only.Base.Result.{Result, ok, err}
use acl_edit_only.Aclout.{CountError, count}
use acl_edit_only.Device.Session.{Session, M, GoError, ◌>>=◌, after}
use acl_edit_only.Device.Quiet.{Quiet, Follows, Follows-trans}
use acl_edit_only.Device.Ops.{shows_rule, judge_count, check_count, judge_absent, judge_present}

-- the rules that the output counts for ACL `acl_num`
abbrev pub Counts : Bytes → ℤ → ℤ → Type 0
Counts out acl_num expect_count = (k : ℕ) × (count out acl_num ≡ ok k) × (pos k ≡ expect_count)

judge_count_iff :
    (r : Result CountError ℕ) (expect_count : ℤ)
    → (judge_count r expect_count ≡ none) ↔ ((k : ℕ) × (r ≡ ok k) × (pos k ≡ expect_count))
unfolding judge_count
judge_count_iff (ok k) expect_count = (
  λ e. (k, refl, ground (arith, eq_ℤ_iff (pos k) expect_count)),
  λ (j, c, e). ground (arith, eq_ℤ_iff (pos k) expect_count),
)
judge_count_iff (err e) expect_count = (λ q. ground arith, λ (j, c, p). ground arith)

-- The guard of `Apply` passes exactly on an output of the ACL that shows no line of the rule and
-- counts the expected number of rules.
pub judge_absent_iff :
    (out : Bytes) (acl_num rule_id expect_count : ℤ)
    → (judge_absent out acl_num rule_id expect_count ≡ none)
      ↔ ((shows_rule out rule_id ≡ false) × Counts out acl_num expect_count)
unfolding judge_absent check_count
judge_absent_iff out acl_num rule_id expect_count =
    ground (arith, judge_count_iff (count out acl_num) expect_count)

-- The guard of `Remove` passes exactly on an output of the ACL that shows a line of the rule and
-- counts the expected number of rules.
pub judge_present_iff :
    (out : Bytes) (acl_num rule_id expect_count : ℤ)
    → (judge_present out acl_num rule_id expect_count ≡ none)
      ↔ ((shows_rule out rule_id ≡ true) × Counts out acl_num expect_count)
unfolding judge_present check_count
judge_present_iff out acl_num rule_id expect_count =
    ground (arith, judge_count_iff (count out acl_num) expect_count)

abbrev pub Failed : Result GoError (Unit {0}) → Type 0
Failed r = (e : GoError) × (r ≡ err e)

module _ {C : Type 0} (n : ℤ) (s : Session C)
    (X : Result GoError (Unit {0}) × Session C → Type 0) where
  -- an operation that failed before the goal, having only navigated, or that came to the goal
  abbrev pub Either : Result GoError (Unit {0}) × Session C → Type 0
  Either res = (Follows n s res.1 × Failed res.0) ⊎ X res

  after-Either :
      {A : Type 0} (f : A → M C (Unit {0})) (r : Result GoError A) (s' : Session C)
      → Follows n s s'
      → ((a : A) → r ≡ ok a → Either (f a s'))
      → Either (after f r s')
  after-Either f (ok a) s' g k = k a refl
  after-Either f (err e) s' g k = inl (g, (e, refl))

  -- a quiet step, and then what the continuation does with its result
  pub bind-Either :
      {A : Type 0} (m : M C A) (f : A → M C (Unit {0})) (t : Session C)
      → Quiet n m
      → Follows n s t
      → ((a : A) (u : Session C) → m t ≡ (ok a, u) → Follows n s u → Either (f a u))
      → Either ((m >>= f) t)
  bind-Either m f t q g k =
      after-Either f (m t).0 (m t).1 (Follows-trans n g (q t g.bound))
        (λ a e. k a (m t).1 (ap (λ r. (r, (m t).1)) e) (Follows-trans n g (q t g.bound)))
