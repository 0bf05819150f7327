-- ===== src/Core/Binding.antt =====
-- internal/aclweb/core/core.go: the test that the agent is bound to the same ACL and window.
pub mod Told
use acl_edit_only.Base.{Bool, not, ◌||◌, if◌then◌else◌}
use acl_edit_only.Base.Int.{ℤ, eq_ℤ}
use acl_edit_only.Base.Result.{Check, done, err}
use acl_edit_only.Agent.Run.{Response}
use acl_edit_only.Core.Request.{WebConfig}

pub data BindingError : Type 0 where
  binding_mismatch : BindingError

-- `assertBinding`; the numbers in the text of the error are left out
unfoldable pub assert_binding : WebConfig → Response → Check BindingError
assert_binding cfg r =
    if not (eq_ℤ r.bound_acl cfg.acl)
      || not (eq_ℤ r.bound_range_min cfg.range_min)
      || not (eq_ℤ r.bound_range_max cfg.range_max)
      || not (eq_ℤ r.bound_alloc_max cfg.alloc_max)
    then err binding_mismatch
    else done
