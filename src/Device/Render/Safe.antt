-- ===== src/Device/Render/Safe.antt =====
-- What internal/h3c/device/render.go can and cannot produce.
use acl_edit_only.Base.{
  ◌≡◌, refl, Option, none, sym, ◌++◌, inl, inr, Bool-cases, ◌≤◌, length, arith,
}
use acl_edit_only.Base.Text.{Bytes, codes, contains_any}
use acl_edit_only.Base.Decimal.{itoa_int}
use acl_edit_only.Base.Int.{ℤ}
use acl_edit_only.Base.Result.{done, ok, >>=-eq-ok}
use acl_edit_only.Base.Clean.{IsClean}
use acl_edit_only.Plan.{Plan, PortCond}
use acl_edit_only.Device.Render.{
  dangerous_bytes, reject_injection, source_part, dest_part, rule_head, build_rule_cmd,
  build_comment_cmd,
}

pub reject_injection-IsClean : (s : Bytes) → reject_injection s ≡ done → IsClean dangerous_bytes s
unfolding reject_injection
reject_injection-IsClean s h = elim (Bool-cases (contains_any s dangerous_bytes)) [
  | inl e ↦ cc (rw e at h)
  | inr e ↦ e
]

pub IsClean-reject_injection : (s : Bytes) → IsClean dangerous_bytes s → reject_injection s ≡ done
unfolding reject_injection
IsClean-reject_injection s h = rw h

-- Every rule command that is built begins with "rule <id> permit <protocol>", so it is never a deny,
-- and it holds none of the bytes newline, carriage return, '?', '|' and ';' that could end it or
-- start another command.
pub build_rule_cmd_safe :
    (p : Plan) (cmd : Bytes)
    → build_rule_cmd p ≡ ok cmd
    → ((rest : Bytes) × (cmd ≡ rule_head p.rule_id p.protocol ++ rest))
      × IsClean dangerous_bytes cmd
unfolding build_rule_cmd
build_rule_cmd_safe p cmd h =
    let (src, _, h₁) = >>=-eq-ok (source_part p.src p.src_port) _ h in
    let (dst, _, h₂) = >>=-eq-ok (dest_part p.dst p.dst_port) _ h₁ in
    let built = rule_head p.rule_id p.protocol ++ (src ++ dst) in
    let (_, passed, h₃) = >>=-eq-ok (reject_injection built) _ h₂ in
    let same : built ≡ cmd = cc h₃ in
    ((src ++ dst, sym same), rw same at (reject_injection-IsClean built passed))

-- A comment command is built only for a comment of 1 to 127 bytes, it is "rule <id> comment " and the
-- comment, and the comment holds none of the dangerous bytes.
pub build_comment_cmd_safe :
    (rule_id : ℤ) (comment cmd : Bytes)
    → build_comment_cmd rule_id comment ≡ ok cmd
    → (cmd ≡ codes "rule " ++ (itoa_int rule_id ++ (codes " comment " ++ comment)))
      × IsClean dangerous_bytes comment
      × (1 ≤ length comment)
      × (length comment ≤ 127)
unfolding build_comment_cmd
build_comment_cmd_safe rule_id comment cmd h =
    elim (Bool-cases (contains_any comment dangerous_bytes)) [
      | inl e ↦ cc (rw (e, reject_injection) at h)
      | inr e ↦ ground (arith, IsClean-reject_injection comment e, e)
    ]

-- In a plan with no source, the source port condition has no part in the command: any condition, or
-- none, gives the same rule.
pub build_rule_cmd_drops_src_port :
    (p : Plan) (cond : Option PortCond)
    → p.src ≡ none
    → build_rule_cmd (record p { src_port = cond }) ≡ build_rule_cmd p
unfolding build_rule_cmd source_part
build_rule_cmd_drops_src_port p cond h = rw h refl
