-- ===== src/Agent/Config/Bound.antt =====
-- What the configuration of cmd/aclagent/config.go promises once it has been accepted.
use acl_edit_only.Base.{◌≡◌, ◌↔◌, if◌then◌else◌, Bool, ◌||◌, false, [], arith}
use acl_edit_only.Base.Text.{str_eq}
use acl_edit_only.Base.Int.{ℤ, pos, ◌≤ℤ◌, ltb_ℤ, leb_ℤ}
use acl_edit_only.Base.Result.{ok, err}
use acl_edit_only.Agent.Config.{
  AgentConfig, BadConfig, bad_acl, range_not_positive, range_order, alloc_outside, no_device,
  positive_or, with_limits, validate,
}

-- the ACL, the window 0 < range_min ≤ alloc_max ≤ range_max, and the device
abbrev pub Window : AgentConfig → Type 0
Window c =
    (pos 2000 ≤ℤ c.acl)
    × (c.acl ≤ℤ pos 4999)
    × (pos 1 ≤ℤ c.range_min)
    × (c.range_min ≤ℤ c.alloc_max)
    × (c.alloc_max ≤ℤ c.range_max)
    × (str_eq c.device_addr [] ≡ false)

-- the waits and the daily limit are positive
abbrev pub Limits : AgentConfig → Type 0
Limits c = (pos 1 ≤ℤ c.daily_limit) × (pos 1 ≤ℤ c.read_timeout) × (pos 1 ≤ℤ c.connect_timeout)

positive_or-positive : (n d : ℤ) → pos 1 ≤ℤ d → pos 1 ≤ℤ positive_or n d
positive_or-positive n d h = ground arith

judged :
    {A : Type 0} (a b d e f : Bool) (x : A) (e₁ e₂ e₃ e₄ e₅ : BadConfig) (y : A)
    → ((if a
          then err e₁
          else if b
          then err e₂
          else if d
          then err e₃
          else if e
          then err e₄
          else if f
          then err e₅
          else ok x)
        ≡ ok y)
      ↔ ((a ≡ false) × (b ≡ false) × (d ≡ false) × (e ≡ false) × (f ≡ false) × (y ≡ x))
judged a b d e f x e₁ e₂ e₃ e₄ e₅ y = ground arith

-- A configuration is accepted exactly if its ACL lies within 2000 and 4999, its window is well formed
-- (0 < range_min ≤ alloc_max ≤ range_max) and it names a device; only the waits and the daily limit
-- are then changed, where they are not positive.
pub validate_iff : (c c' : AgentConfig) → (validate c ≡ ok c') ↔ (Window c × (c' ≡ with_limits c))
unfolding validate
validate_iff c c' =
    let j =
      judged (ltb_ℤ c.acl (pos 2000) || ltb_ℤ (pos 4999) c.acl)
        (leb_ℤ c.range_min (pos 0) || leb_ℤ c.range_max (pos 0)) (ltb_ℤ c.range_max c.range_min)
        (ltb_ℤ c.alloc_max c.range_min || ltb_ℤ c.range_max c.alloc_max) (str_eq c.device_addr [])
        (with_limits c) bad_acl range_not_positive range_order alloc_outside no_device c' in
    (
      λ h.
          let (p, q, r, s, t, u) = j.0 h in
          ((ground arith, ground arith, ground arith, ground arith, ground arith, t), u),
      λ ((p, q, r, s, t, u), v). j.1 (ground arith, ground arith, ground arith, ground arith, u, v),
    )

pub with_limits-Limits : (c : AgentConfig) → Limits (with_limits c)
with_limits-Limits c = (
  positive_or-positive c.daily_limit (pos 50) (ground arith),
  positive_or-positive c.read_timeout (pos 30) (ground arith),
  positive_or-positive c.connect_timeout (pos 10) (ground arith),
)
