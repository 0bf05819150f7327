-- ===== src/Device/Render.antt =====
-- internal/h3c/device/render.go: the commands that a plan is turned into.
pub mod Safe
pub mod Accepted
use acl_edit_only.Base.{
  ℕ, Bool, ◌||◌, Option, none, some, List, [], ◌∷◌, ◌++◌, ltb, if◌then◌else◌, length,
}
use acl_edit_only.Base.Text.{Bytes, codes, str_eq, contains_any, to_lower, quoted}
use acl_edit_only.Base.Decimal.{itoa, itoa_int}
use acl_edit_only.Base.Int.{ℤ}
use acl_edit_only.Base.Result.{Result, ok, err, Check, fail_if, map_err, ◌>>=◌, ◌>>◌}
use acl_edit_only.Plan.{Plan, AddrMask, PortCond}

pub data RenderError : Type 0 where
  illegal_characters : RenderError
  unknown_port_op : Bytes → RenderError
  comment_length : ℕ → RenderError
  nil_dst : RenderError
  in_src in_src_port in_dst in_dst_port in_comment : RenderError → RenderError

-- the text of an error; a nil destination is a panic, which has none
unfoldable pub render_error_text : RenderError → Bytes
render_error_text illegal_characters = codes "command contains illegal characters"
render_error_text (unknown_port_op op) = codes "unknown port op " ++ quoted op
render_error_text (comment_length n) =
    codes "comment length " ++ (itoa n ++ codes " out of [1,127]")
render_error_text nil_dst = []
render_error_text (in_src e) = codes "src: " ++ render_error_text e
render_error_text (in_src_port e) = codes "src_port: " ++ render_error_text e
render_error_text (in_dst e) = codes "dst: " ++ render_error_text e
render_error_text (in_dst_port e) = codes "dst_port: " ++ render_error_text e
render_error_text (in_comment e) = codes "comment: " ++ render_error_text e

abbrev pub dangerous_bytes : Bytes
dangerous_bytes = codes "\n\r?|;"

unfoldable pub reject_injection : Bytes → Check RenderError
reject_injection s = fail_if (contains_any s dangerous_bytes) illegal_characters

-- the wildcard as it is written in a command
pub wildcard_text : Bytes → Bytes
wildcard_text wc = if str_eq wc (codes "0") || str_eq wc (codes "0.0.0.0") then codes "0" else wc

unfoldable pub fmt_addr : AddrMask → Result RenderError Bytes
unfolding reject_injection wildcard_text
fmt_addr am = do
  reject_injection (am.ip ++ am.wildcard)
  ok (am.ip ++ (codes " " ++ wildcard_text am.wildcard))

unfoldable pub is_one_value_op : Bytes → Bool
is_one_value_op op =
    str_eq op (codes "eq")
    || str_eq op (codes "lt")
    || str_eq op (codes "gt")
    || str_eq op (codes "neq")

unfoldable pub fmt_port : Bytes → PortCond → Result RenderError Bytes
unfolding is_one_value_op
fmt_port keyword pc =
    if is_one_value_op pc.op
    then ok (codes " " ++ (keyword ++ (codes " " ++ (pc.op ++ (codes " " ++ itoa pc.value)))))
    else if str_eq pc.op (codes "range")
    then ok (
        codes " " ++ (keyword ++ (codes " range " ++ (itoa pc.low ++ (codes " " ++ itoa pc.high)))))
    else err (unknown_port_op pc.op)

pub fmt_port_opt : Bytes → Option PortCond → Result RenderError Bytes
fmt_port_opt keyword none = ok []
fmt_port_opt keyword (some pc) = fmt_port keyword pc

-- The source port is written only behind a source.
pub source_part : Option AddrMask → Option PortCond → Result RenderError Bytes
unfolding fmt_port_opt
source_part none src_port = ok []
source_part (some am) src_port = do
  src ← map_err in_src (fmt_addr am)
  sp ← map_err in_src_port (fmt_port_opt (codes "source-port") src_port)
  ok (codes " source " ++ (src ++ sp))

-- A nil `Dst` is a fault of `fmtAddr`, which no validated plan reaches.
pub dest_part : Option AddrMask → Option PortCond → Result RenderError Bytes
unfolding fmt_port_opt
dest_part none dst_port = err nil_dst
dest_part (some am) dst_port = do
  dst ← map_err in_dst (fmt_addr am)
  dp ← map_err in_dst_port (fmt_port_opt (codes "destination-port") dst_port)
  ok (codes " destination " ++ (dst ++ dp))

-- "rule %d permit %s"
abbrev pub rule_head : ℤ → Bytes → Bytes
rule_head rule_id protocol =
    codes "rule " ++ (itoa_int rule_id ++ (codes " permit " ++ to_lower protocol))

unfoldable pub build_rule_cmd : Plan → Result RenderError Bytes
unfolding source_part dest_part reject_injection
build_rule_cmd p = do
  src ← source_part p.src p.src_port
  dst ← dest_part p.dst p.dst_port
  let cmd = rule_head p.rule_id p.protocol ++ (src ++ dst)
  reject_injection cmd
  ok cmd

unfoldable pub build_comment_cmd : ℤ → Bytes → Result RenderError Bytes
unfolding reject_injection
build_comment_cmd rule_id comment = do
  map_err in_comment (reject_injection comment)
  fail_if (ltb (length comment) 1 || ltb 127 (length comment)) (comment_length (length comment))
  ok (codes "rule " ++ (itoa_int rule_id ++ (codes " comment " ++ comment)))

unfoldable pub build_undo_rule_cmd : ℤ → Bytes
build_undo_rule_cmd rule_id = codes "undo rule " ++ itoa_int rule_id
