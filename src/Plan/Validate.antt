-- ===== src/Plan/Validate.antt =====
-- internal/h3c/plan/validate.go: what the agent demands of a plan, and the formats of the ownership
-- mark and of a request id.
pub mod Admits
use acl_edit_only.Base.{
  ℕ, Bool, true, false, ◌&&◌, ◌||◌, not, Option, none, some, [], ◌∷◌, ◌++◌, leb, ltb, ◌==◌,
  if◌then◌else◌, length, drop, take, all_of, ◌-◌,
}
use acl_edit_only.Base.Text.{Bytes, codes, str_eq, has_prefix, contains_any, to_lower}
use acl_edit_only.Base.Int.{ℤ, ltb_ℤ}
use acl_edit_only.Base.Result.{err, Check, done, fail_if, map_err, when_some, ◌>>◌}
use acl_edit_only.Plan.Address.{parse_ip}
use acl_edit_only.Plan.Wildcard.{WildcardError, require_contiguous_wildcard}
use acl_edit_only.Plan.{
  Plan, AddrMask, PortCond, op_snapshot, op_add, op_delete, op_rollback, action_permit,
}

pub data Invalid : Type 0 where
  unknown_op : Bytes → Invalid
  outside_range above_alloc : ℤ → Invalid
  bad_action : Bytes → Invalid
  protocol_required dst_required illegal_characters : Invalid
  unsupported_protocol bad_ip bad_wildcard unknown_port_op bad_comment bad_request_id :
      Bytes → Invalid
  wildcard : WildcardError → Invalid
  low_above_high : ℕ → ℕ → Invalid
  in_dst in_src in_dst_port in_src_port : Invalid → Invalid

-- [A-Za-z0-9_-]
unfoldable pub is_word_byte : ℕ → Bool
is_word_byte c =
    (leb b'A' c && leb c b'Z')
    || (leb b'a' c && leb c b'z')
    || (leb b'0' c && leb c b'9')
    || (c == b'_')
    || (c == b'-')

-- [0-9a-f]
unfoldable pub is_lower_hex : ℕ → Bool
is_lower_hex c = (leb b'0' c && leb c b'9') || (leb b'a' c && leb c b'f')

abbrev pub mark_prefix : Bytes
mark_prefix = codes "ACLSYS-REQ-"

-- `[A-Za-z0-9_-]+-[0-9a-f]{8}$` on what follows the prefix: the last eight bytes, the dash before
-- them, and one byte or more in front
unfoldable pub mark_tail : Bytes → Bool
unfolding is_word_byte is_lower_hex
mark_tail s =
    let n = length s - 9 in
    ltb 9 (length s)
    && all_of is_word_byte (take n s)
    && has_prefix (drop n s) (b'-' ∷ [])
    && all_of is_lower_hex (drop 1 (drop n s))

-- `commentRe.MatchString`
unfoldable pub matches_comment_re : Bytes → Bool
unfolding mark_tail has_prefix
matches_comment_re s = has_prefix s mark_prefix && mark_tail (drop (length mark_prefix) s)

-- `reqIDRe.MatchString`
unfoldable pub matches_req_id_re : Bytes → Bool
unfolding is_word_byte
matches_req_id_re id = ltb 0 (length id) && all_of is_word_byte id

unfoldable pub validate_comment : Bytes → Check Invalid
unfolding str_eq
validate_comment s =
    if str_eq s [] then done else fail_if (not (matches_comment_re s)) (bad_comment s)

unfoldable pub validate_request_id : Bytes → Check Invalid
validate_request_id id = fail_if (not (matches_req_id_re id)) (bad_request_id id)

abbrev pub dangerous_chars : Bytes
dangerous_chars = codes "\n\r?|;"

is_none : {A : Type 0} → Option A → Bool
is_none none = true
is_none (some a) = false

unfoldable pub validate_addr_mask : AddrMask → Check Invalid
unfolding is_none
validate_addr_mask am = do
  fail_if (is_none (parse_ip am.ip)) (bad_ip am.ip)
  fail_if (is_none (parse_ip am.wildcard)) (bad_wildcard am.wildcard)
  map_err wildcard (require_contiguous_wildcard am.wildcard)
  fail_if (contains_any (am.ip ++ am.wildcard) dangerous_chars) illegal_characters

unfoldable pub is_one_value_op : Bytes → Bool
is_one_value_op op =
    str_eq op (codes "eq")
    || str_eq op (codes "lt")
    || str_eq op (codes "gt")
    || str_eq op (codes "neq")

unfoldable pub validate_port_cond : PortCond → Check Invalid
unfolding is_one_value_op
validate_port_cond pc =
    if is_one_value_op pc.op
    then done
    else if str_eq pc.op (codes "range")
    then fail_if (ltb pc.high pc.low) (low_above_high pc.low pc.high)
    else err (unknown_port_op pc.op)

is_known_protocol : Bytes → Bool
is_known_protocol proto =
    str_eq proto (codes "tcp")
    || str_eq proto (codes "udp")
    || str_eq proto (codes "icmp")
    || str_eq proto (codes "ip")

unfoldable pub validate_protocol : Bytes → Check Invalid
unfolding is_known_protocol
validate_protocol protocol =
    let proto = to_lower protocol in
    if is_known_protocol proto
    then done
    else if str_eq proto []
    then err protocol_required
    else err (unsupported_protocol protocol)

unfoldable pub validate_dst : Option AddrMask → Check Invalid
validate_dst none = err dst_required
validate_dst (some dst) = map_err in_dst (validate_addr_mask dst)

unfoldable pub validate_rule_fields : Plan → Check Invalid
unfolding validate_protocol validate_dst
validate_rule_fields p = do
  validate_protocol p.protocol
  validate_dst p.dst
  when_some p.src (λ src. map_err in_src (validate_addr_mask src))
  when_some p.dst_port (λ pc. map_err in_dst_port (validate_port_cond pc))
  when_some p.src_port (λ pc. map_err in_src_port (validate_port_cond pc))
  validate_comment p.comment

is_known_op : Bytes → Bool
is_known_op op =
    str_eq op op_snapshot || str_eq op op_add || str_eq op op_delete || str_eq op op_rollback

pub validate_add : Plan → Check Invalid
validate_add p = do
  fail_if (not (str_eq p.action action_permit)) (bad_action p.action)
  validate_rule_fields p

unfoldable pub validate_for_agent : Plan → ℤ → ℤ → ℤ → Check Invalid
unfolding is_known_op validate_add
validate_for_agent p range_min range_max alloc_max =
    if not (is_known_op p.op)
    then err (unknown_op p.op)
    else if str_eq p.op op_snapshot
    then done
    else do
      fail_if (ltb_ℤ p.rule_id range_min || ltb_ℤ range_max p.rule_id) (outside_range p.rule_id)
      fail_if (str_eq p.op op_add && ltb_ℤ alloc_max p.rule_id) (above_alloc p.rule_id)
      if str_eq p.op op_add then validate_add p else done
