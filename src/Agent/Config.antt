-- ===== src/Agent/Config.antt =====
-- cmd/aclagent/config.go and internal/cfgpath/cfgpath.go: the configuration of the agent. The package
-- path/filepath is a parameter.
pub mod Bound
use acl_edit_only.Base.{ℕ, Bool, ◌||◌, List, [], ◌∷◌, ◌++◌, if◌then◌else◌}
use acl_edit_only.Base.Text.{Bytes, codes, str_eq}
use acl_edit_only.Base.Int.{ℤ, pos, ltb_ℤ, leb_ℤ, eq_ℤ}
use acl_edit_only.Base.Result.{Result, ok, err}

pub record AgentConfig : Type 0 where
  pub acl : ℤ
  pub range_min : ℤ
  pub range_max : ℤ
  pub alloc_max : ℤ
  pub credential_file : Bytes
  pub device_addr : Bytes
  pub connect_timeout : ℤ
  pub read_timeout : ℤ
  pub daily_limit : ℤ
  pub plan_dir : Bytes
  pub state_file : Bytes
  pub config_sha256 : Bytes

abbrev default_daily_limit : ℤ
default_daily_limit = pos 50

-- `filepath.IsAbs` and `filepath.Join`
pub record Paths : Type 0 where
  pub is_abs : Bytes → Bool
  pub join : Bytes → Bytes → Bytes

-- `Resolve`
unfoldable pub resolve : Paths → Bytes → Bytes → Bytes
resolve paths base_dir p =
    if str_eq p [] then [] else if paths.is_abs p then p else paths.join base_dir p

abbrev pub or_default : Bytes → Bytes → Bytes
or_default p d = if str_eq p [] then d else p

-- `applyDefaults`
unfoldable pub apply_defaults : Paths → Bytes → AgentConfig → AgentConfig
unfolding resolve
apply_defaults paths dir c = record c {
  alloc_max = if eq_ℤ c.alloc_max (pos 0) then c.range_max else c.alloc_max;
  credential_file = resolve paths dir (or_default c.credential_file (codes "credential"));
  plan_dir = resolve paths dir (or_default c.plan_dir (codes "plans"));
  state_file = resolve paths dir (or_default c.state_file (codes "agent-state.json"));
}

pub data BadConfig : Type 0 where
  bad_acl range_not_positive range_order alloc_outside no_device : BadConfig

abbrev pub positive_or : ℤ → ℤ → ℤ
positive_or n d = if leb_ℤ n (pos 0) then d else n

-- the defaults that `validate` sets where its tests have passed
abbrev pub with_limits : AgentConfig → AgentConfig
with_limits c = record c {
  connect_timeout = positive_or c.connect_timeout (pos 10);
  read_timeout = positive_or c.read_timeout (pos 30);
  daily_limit = positive_or c.daily_limit default_daily_limit;
}

-- `validate`
unfoldable pub validate : AgentConfig → Result BadConfig AgentConfig
validate c =
    if ltb_ℤ c.acl (pos 2000) || ltb_ℤ (pos 4999) c.acl
    then err bad_acl
    else if leb_ℤ c.range_min (pos 0) || leb_ℤ c.range_max (pos 0)
    then err range_not_positive
    else if ltb_ℤ c.range_max c.range_min
    then err range_order
    else if ltb_ℤ c.alloc_max c.range_min || ltb_ℤ c.range_max c.alloc_max
    then err alloc_outside
    else if str_eq c.device_addr []
    then err no_device
    else ok (with_limits c)
