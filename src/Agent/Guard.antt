-- ===== src/Agent/Guard.antt =====
-- cmd/aclagent/main.go: the limits that the agent sets on its own.
pub mod Quota
use acl_edit_only.Base.{
  ℕ, Bool, true, false, not, ◌||◌, ◌&&◌, Option, none, some, List, [], ◌∷◌, if◌then◌else◌,
}
use acl_edit_only.Base.Text.{Bytes, codes, str_eq, to_lower}
use acl_edit_only.Base.Int.{ℤ, pos, ◌+ℤ◌, leb_ℤ}
use acl_edit_only.Base.Result.{Result, ok, err, Check, done, map_err}
use acl_edit_only.Plan.{Plan, AddrMask, op_add}
use acl_edit_only.Plan.Validate.{Invalid, validate_comment}

pub data Refused : Type 0 where
  bad_comment : Invalid → Refused
  permit_ip too_broad : Refused

abbrev pub is_any : AddrMask → Bool
is_any am = str_eq am.ip (codes "0.0.0.0") && str_eq am.wildcard (codes "255.255.255.255")

abbrev pub src_any : Option AddrMask → Bool
src_any none = true
src_any (some am) = false

abbrev pub dst_any : Option AddrMask → Bool
dst_any none = true
dst_any (some am) = is_any am

-- `absoluteGuard`
unfoldable pub absolute_guard : Plan → Check Refused
absolute_guard p =
    if not (str_eq p.op op_add)
    then map_err bad_comment (validate_comment p.comment)
    else if str_eq (to_lower p.protocol) (codes "ip")
    then err permit_ip
    else if src_any p.src && dst_any p.dst
    then err too_broad
    else map_err bad_comment (validate_comment p.comment)

-- `agentState`
pub record AgentState : Type 0 where
  pub date : Bytes
  pub count : ℤ

-- the state that counts for today
abbrev pub state_of : Bytes → AgentState → AgentState
state_of today st =
    if not (str_eq st.date today) then record { date = today; count = pos 0 } else st

-- `checkAndIncrementQuota`, from what the state file holds to what is written to it; `none` is that
-- the limit is reached
unfoldable pub check_and_increment_quota : ℤ → Bytes → AgentState → Option AgentState
check_and_increment_quota daily_limit today stored =
    let st = state_of today stored in
    if leb_ℤ daily_limit st.count then none else some (record st { count = st.count +ℤ pos 1 })
