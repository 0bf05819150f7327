-- ===== src/Tests/Switch.antt =====
-- Concrete plans, wildcards, chunks and sessions for the theorems on internal/h3c/plan and
-- internal/h3c/device.
use acl_edit_only.Base.{
  ℕ, ◌≤◌, ◌^◌, ◌-◌, ◌≡◌, refl, ◌⊎◌, ◌↔◌, false, Option, none, some, List, [], ◌∷◌, ◌++◌, length,
  arith,
}
use acl_edit_only.Base.Text.{Bytes, codes, str_eq, to_lower, contains_any}
use acl_edit_only.Base.Decimal.{itoa_int}
use acl_edit_only.Base.Int.{pos}
use acl_edit_only.Base.Result.{ok, done}
use acl_edit_only.Base.Clean.{IsClean}
use acl_edit_only.Plan.{Plan, AddrMask, op_add, op_snapshot, action_permit}
use acl_edit_only.Plan.Address.{parse_ip, to4}
use acl_edit_only.Plan.Wildcard.{require_contiguous_wildcard, IsPowerOfTwo}
use acl_edit_only.Plan.Wildcard.Accepted.{ReadsAs, word, require_contiguous_wildcard_iff}
use acl_edit_only.Plan.Validate.{
  validate_for_agent, validate_rule_fields, validate_addr_mask, validate_port_cond,
  validate_comment,
}
use acl_edit_only.Plan.Validate.Admits.{Admitted, validate_for_agent_iff}
use acl_edit_only.Device.Telnet.{fresh, strip, escape_iac, first_match, occurs, read_loop, deadline}
use acl_edit_only.Device.Telnet.Framing.{Refusals, strip-append, strip-escape_iac, strip-Refusals}
use acl_edit_only.Device.Telnet.Reading.{joined, text_of, Ended, read_loop_lem}
use acl_edit_only.Device.Render.{
  dangerous_bytes, fmt_addr, fmt_port, rule_head, build_rule_cmd, build_comment_cmd,
}
use acl_edit_only.Device.Render.Safe.{build_rule_cmd_safe, build_comment_cmd_safe}
use acl_edit_only.Device.Render.Accepted.{build_rule_cmd-ok}
use acl_edit_only.Device.Session.{Transport, ReadResult, got, fault, Session}
use acl_edit_only.Device.Quiet.{Follows}
use acl_edit_only.Device.Ops.{judge_present, apply, remove, remove_rule}
use acl_edit_only.Device.Ops.Guard.{Failed}
use acl_edit_only.Device.Ops.Written.{UndoesRule}
use acl_edit_only.Device.Ops.Guarded.{Past, Writes, apply_guarded, remove_guarded}

abbrev host : AddrMask
host = record { ip = codes "10.0.0.1"; wildcard = codes "0.0.0.0" }

abbrev plan : Plan
plan = record {
  request_id = codes "REQ-20260101-0001";
  op = op_add;
  rule_id = pos 100;
  action = action_permit;
  protocol = codes "tcp";
  src = none;
  dst = some host;
  src_port = none;
  dst_port = some (record { op = codes "eq"; value = 443; low = 0; high = 0 });
  comment = [];
  expect_count_before = pos 1;
}

subnet-ReadsAs : ReadsAs (codes "0.0.0.255") 0 0 0 255
unfolding parse_ip to4
subnet-ReadsAs = record {
  ip = 0 ∷ 0 ∷ 0 ∷ 0 ∷ 0 ∷ 0 ∷ 0 ∷ 0 ∷ 0 ∷ 0 ∷ 255 ∷ 255 ∷ 0 ∷ 0 ∷ 0 ∷ 255 ∷ [];
  parsed = refl;
  four = refl;
  a_byte = omega arith;
  b_byte = omega arith;
  c_byte = omega arith;
  d_byte = omega arith;
}

require_contiguous_wildcard_iff_example :
    (require_contiguous_wildcard (codes "0.0.0.255") ≡ done)
    ↔ IsPowerOfTwo (2 ^ 32 - word 0 0 0 255)
require_contiguous_wildcard_iff_example = require_contiguous_wildcard_iff subnet-ReadsAs

validate_for_agent_iff_example :
    (validate_for_agent plan (pos 100) (pos 199) (pos 150) ≡ done)
    ↔ ((plan.op ≡ op_snapshot) ⊎ Admitted plan (pos 100) (pos 199) (pos 150))
validate_for_agent_iff_example = validate_for_agent_iff plan (pos 100) (pos 199) (pos 150)

valid : validate_rule_fields plan ≡ done
unfolding validate_rule_fields str_eq to_lower validate_addr_mask parse_ip
    require_contiguous_wildcard to4 contains_any validate_port_cond validate_comment
valid = refl

build_rule_cmd-ok_example : (cmd : Bytes) × (build_rule_cmd plan ≡ ok cmd)
build_rule_cmd-ok_example = build_rule_cmd-ok plan valid

abbrev command : Bytes
command = codes "rule 100 permit tcp destination 10.0.0.1 0 destination-port eq 443"

built : build_rule_cmd plan ≡ ok command
unfolding build_rule_cmd fmt_addr contains_any fmt_port str_eq itoa_int to_lower
built = refl

build_rule_cmd_safe_example :
    ((rest : Bytes) × (command ≡ rule_head (pos 100) (codes "tcp") ++ rest))
    × IsClean dangerous_bytes command
build_rule_cmd_safe_example = build_rule_cmd_safe plan command built

abbrev comment_command : Bytes
comment_command = codes "rule 100 comment ACLSYS"

commented : build_comment_cmd (pos 100) (codes "ACLSYS") ≡ ok comment_command
unfolding build_comment_cmd contains_any itoa_int
commented = refl

build_comment_cmd_safe_example :
    (comment_command
      ≡ codes "rule " ++ (itoa_int (pos 100) ++ (codes " comment " ++ codes "ACLSYS")))
    × IsClean dangerous_bytes (codes "ACLSYS")
    × (1 ≤ length (codes "ACLSYS"))
    × (length (codes "ACLSYS") ≤ 127)
build_comment_cmd_safe_example =
    build_comment_cmd_safe (pos 100) (codes "ACLSYS") comment_command commented

strip-append_example :
    let first = strip fresh (65 ∷ 255 ∷ 253 ∷ []) in
    let second = strip first.decoder (24 ∷ 66 ∷ []) in
    let whole = strip fresh ((65 ∷ 255 ∷ 253 ∷ []) ++ (24 ∷ 66 ∷ [])) in
    (whole.out ≡ first.out ++ second.out)
    × (whole.sent ≡ first.sent ++ second.sent)
    × (whole.decoder ≡ second.decoder)
strip-append_example = strip-append fresh (65 ∷ 255 ∷ 253 ∷ []) (24 ∷ 66 ∷ [])

strip-escape_iac_example :
    strip fresh (escape_iac (1 ∷ 255 ∷ 2 ∷ []))
    ≡ record { decoder = fresh; out = 1 ∷ 255 ∷ 2 ∷ []; sent = [] }
strip-escape_iac_example = strip-escape_iac fresh (1 ∷ 255 ∷ 2 ∷ []) refl

strip-Refusals_example : Refusals (strip fresh (255 ∷ 253 ∷ 24 ∷ [])).sent
strip-Refusals_example = strip-Refusals fresh (255 ∷ 253 ∷ 24 ∷ [])

abbrev prompt : Bytes → Option ℕ
prompt = first_match (occurs (codes ">") ∷ []) 0

abbrev chunks : List Bytes
chunks = codes "hel" ∷ codes "lo>" ∷ codes "more" ∷ []

read_loop_lem_example :
    let (o, d', rest) = read_loop prompt fresh [] chunks deadline in
    (used : List Bytes) × (chunks ≡ used ++ rest)
    × (text_of o ≡ (strip fresh (joined used)).out)
    × (d' ≡ (strip fresh (joined used)).decoder)
    × Ended prompt deadline rest o
read_loop_lem_example = read_loop_lem prompt fresh chunks deadline

abbrev shown : Bytes
shown = codes "Advanced IPv4 ACL 3000, 1 rules,\n rule 50 permit tcp\n[H3C-acl-ipv4-adv-3000]"

-- a device that gives one answer after the other, and then fails
abbrev next : List Bytes → ReadResult × List Bytes
next [] = (fault [] (codes "timeout waiting for prompt"), [])
next (a ∷ answers) = (got a 0, answers)

abbrev device : Transport (List Bytes)
device = record {
  connect = λ c. (none, c);
  send = λ txt c. (none, c);
  read_until = λ ps c. next c;
  read_until_re = λ ps c. next c;
}

abbrev in_view : Session (List Bytes)
in_view = record {
  conn = codes "[H3C]" ∷ codes "[H3C-acl-ipv4-adv-3000]" ∷ shown ∷ [];
  acl_num = pos 3000;
  raw_buf = [];
  in_auth = false;
  acl_prompt = [];
  sent = [];
}

apply_guarded_example :
    (Follows (pos 3000) in_view (apply device plan in_view).1
      × Failed (apply device plan in_view).0)
    ⊎ Writes device (pos 3000) plan in_view (apply device plan in_view)
apply_guarded_example = apply_guarded device (pos 3000) plan in_view refl

remove_guarded_example :
    (Follows (pos 3000) in_view (remove device (pos 50) (pos 1) in_view).1
      × Failed (remove device (pos 50) (pos 1) in_view).0)
    ⊎ Past device
        (pos 3000)
        in_view
        (λ out. judge_present out (pos 3000) (pos 50) (pos 1))
        (remove_rule device (pos 50))
        (UndoesRule device (pos 50))
        (remove device (pos 50) (pos 1) in_view)
remove_guarded_example = remove_guarded device (pos 3000) (pos 50) (pos 1) in_view refl
