-- ===== src/Device/Render/Accepted.antt =====
-- A plan that internal/h3c/plan/validate.go accepts is one that internal/h3c/device/render.go can render.
use acl_edit_only.Base.{
  ◌≡◌, refl, ℕ, ◌+◌, ◌<◌, true, false, Option, none, some, [], ◌++◌, inl, inr, ◌⊎◌, arith,
}
use acl_edit_only.Base.Text.{Bytes, codes, contains_any, byte_in, str_eq, str_eq_iff, to_lower}
use acl_edit_only.Base.Decimal.{itoa, itoa_int}
use acl_edit_only.Base.Int.{ℤ}
use acl_edit_only.Base.Result.{Result, done, ok, map_err, when_some, ◌>>=◌, >>=-eq-ok}
use acl_edit_only.Base.Clean.{
  IsClean, append-IsClean, IsClean-left, IsClean-right, itoa-IsClean, itoa_int-IsClean,
}
use acl_edit_only.Plan.{Plan, AddrMask, PortCond}
use acl_edit_only.Plan.Validate.{
  Invalid, validate_addr_mask, validate_port_cond, validate_protocol, validate_dst,
  validate_rule_fields,
}
use acl_edit_only.Device.Render.{
  RenderError, dangerous_bytes, wildcard_text, fmt_addr, fmt_port, fmt_port_opt,
  is_one_value_op as fmt_op, source_part, dest_part, rule_head, build_rule_cmd,
}

abbrev Clean : Bytes → Type 0
Clean = IsClean dangerous_bytes

-- a piece of a command that is rendered, and harmless
abbrev Renders : Result RenderError Bytes → Type 0
Renders r = (s : Bytes) × (r ≡ ok s) × Clean s

digit_clean : (d : ℕ) → d < 10 → byte_in (b'0' + d) dangerous_bytes ≡ false
unfolding byte_in
digit_clean d h = ground arith

number_clean : (n : ℕ) → Clean (itoa n)
number_clean = itoa-IsClean dangerous_bytes digit_clean

-- a text that equals one of the literals
literal_clean : (s t : Bytes) → str_eq s t ≡ true → Clean t → Clean s
literal_clean s t e h = rw ((str_eq_iff s t).0 e) h

protocols_clean :
    Clean (codes "tcp") × Clean (codes "udp") × Clean (codes "icmp") × Clean (codes "ip")
unfolding contains_any
protocols_clean = (refl, refl, refl, refl)

protocol_clean : (s : Bytes) → validate_protocol s ≡ done → Clean (to_lower s)
unfolding validate_protocol
protocol_clean s h = ground (
  arith,
  protocols_clean,
  literal_clean (to_lower s) (codes "tcp"),
  literal_clean (to_lower s) (codes "udp"),
  literal_clean (to_lower s) (codes "icmp"),
  literal_clean (to_lower s) (codes "ip"),
)

addr_clean : (am : AddrMask) → validate_addr_mask am ≡ done → Clean (am.ip ++ am.wildcard)
unfolding validate_addr_mask
addr_clean am h = ground arith

ops_clean :
    Clean (codes "eq")
    × Clean (codes "lt")
    × Clean (codes "gt")
    × Clean (codes "neq")
    × Clean (codes " ")
    × Clean (codes " range ")
    × Clean (codes " source ")
    × Clean (codes " destination ")
unfolding contains_any
ops_clean = (refl, refl, refl, refl, refl, refl, refl, refl)

abbrev one_value : Bytes → PortCond → Bytes
one_value keyword pc =
    codes " " ++ (keyword ++ (codes " " ++ (pc.op ++ (codes " " ++ itoa pc.value))))

abbrev two_values : Bytes → PortCond → Bytes
two_values keyword pc =
    codes " " ++ (keyword ++ (codes " range " ++ (itoa pc.low ++ (codes " " ++ itoa pc.high))))

join : (s t : Bytes) → Clean s → Clean t → Clean (s ++ t)
join = append-IsClean dangerous_bytes

one_value_clean :
    (keyword : Bytes) (pc : PortCond) → Clean keyword → Clean pc.op → Clean (one_value keyword pc)
one_value_clean keyword pc k o = join (codes " ") _ ops_clean.4 (
    join keyword _ k (
      join (codes " ") _ ops_clean.4
        (join pc.op _ o (join (codes " ") _ ops_clean.4 (number_clean pc.value)))))

two_values_clean : (keyword : Bytes) (pc : PortCond) → Clean keyword → Clean (two_values keyword pc)
two_values_clean keyword pc k = join (codes " ") _ ops_clean.4 (
    join keyword _ k (
      join (codes " range ") _ ops_clean.5 (
        join (itoa pc.low) _ (number_clean pc.low)
          (join (codes " ") _ ops_clean.4 (number_clean pc.high)))))

-- what the switch on the operator of a valid port condition can find
port_op_cases :
    (pc : PortCond)
    → validate_port_cond pc ≡ done
    → ((fmt_op pc.op ≡ true) × Clean pc.op)
      ⊎ ((fmt_op pc.op ≡ false) × (str_eq pc.op (codes "range") ≡ true))
unfolding validate_port_cond fmt_op
port_op_cases pc h = ground (
  arith,
  ops_clean,
  literal_clean pc.op (codes "eq"),
  literal_clean pc.op (codes "lt"),
  literal_clean pc.op (codes "gt"),
  literal_clean pc.op (codes "neq"),
)

port-Renders :
    (keyword : Bytes) (pc : PortCond)
    → Clean keyword
    → validate_port_cond pc ≡ done
    → Renders (fmt_port keyword pc)
unfolding fmt_port
port-Renders keyword pc k h = elim (port_op_cases pc h) [
  | inl (e, o) ↦ rw e (one_value keyword pc, refl, one_value_clean keyword pc k o)
  | inr (e, f) ↦ rw (e, f) (two_values keyword pc, refl, two_values_clean keyword pc k)
]

wildcard_clean : (wc : Bytes) → Clean wc → Clean (wildcard_text wc)
unfolding wildcard_text contains_any
wildcard_clean wc h = ground arith

addr-Renders : (am : AddrMask) → validate_addr_mask am ≡ done → Renders (fmt_addr am)
unfolding fmt_addr
addr-Renders am h =
    let both = addr_clean am h in
    let ip = IsClean-left dangerous_bytes am.ip am.wildcard both in
    let wc = wildcard_clean am.wildcard (IsClean-right dangerous_bytes am.ip am.wildcard both) in
    (
      am.ip ++ (codes " " ++ wildcard_text am.wildcard),
      rw both,
      join am.ip _ ip (join (codes " ") _ ops_clean.4 wc),
    )

port_opt-Renders :
    (f : Invalid → Invalid) (keyword : Bytes) (pc : Option PortCond)
    → Clean keyword
    → when_some pc (λ c. map_err f (validate_port_cond c)) ≡ done
    → Renders (fmt_port_opt keyword pc)
unfolding fmt_port_opt
port_opt-Renders f keyword none k h = ([], refl, unfold contains_any in refl)
port_opt-Renders f keyword (some c) k h = port-Renders keyword c k (ground arith)

-- a part of the command: the keyword, the address and the port condition
module _ (f g : RenderError → RenderError) (word : Bytes) (clean : Clean word) where
  part-Renders :
      (a b : Result RenderError Bytes)
      → Renders a
      → Renders b
      → Renders (map_err f a >>= λ s. map_err g b >>= λ t. ok (word ++ (s ++ t)))
  part-Renders a b (s, e, hs) (t, d, ht) =
      (word ++ (s ++ t), rw (e, d), join word _ clean (join s t hs ht))

keywords_clean : Clean (codes "source-port") × Clean (codes "destination-port")
unfolding contains_any
keywords_clean = (refl, refl)

source-Renders :
    (f g : Invalid → Invalid) (src : Option AddrMask) (pc : Option PortCond)
    → when_some src (λ am. map_err f (validate_addr_mask am)) ≡ done
    → when_some pc (λ c. map_err g (validate_port_cond c)) ≡ done
    → Renders (source_part src pc)
unfolding source_part
source-Renders f g none pc h k = ([], refl, unfold contains_any in refl)
source-Renders f g (some am) pc h k =
    part-Renders _ _ (codes " source ") ops_clean.6 _ _ (addr-Renders am (ground arith))
      (port_opt-Renders g (codes "source-port") pc keywords_clean.0 k)

dest-Renders :
    (g : Invalid → Invalid) (dst : Option AddrMask) (pc : Option PortCond)
    → validate_dst dst ≡ done
    → when_some pc (λ c. map_err g (validate_port_cond c)) ≡ done
    → Renders (dest_part dst pc)
unfolding dest_part validate_dst
dest-Renders g none pc h k = cc
dest-Renders g (some am) pc h k =
    part-Renders _ _ (codes " destination ") ops_clean.7 _ _ (addr-Renders am (ground arith))
      (port_opt-Renders g (codes "destination-port") pc keywords_clean.1 k)

head_words :
    Clean (codes "rule ") × Clean (codes " permit ") × (byte_in b'-' dangerous_bytes ≡ false)
unfolding contains_any byte_in
head_words = (refl, refl, refl)

head_clean : (n : ℤ) (protocol : Bytes) → Clean (to_lower protocol) → Clean (rule_head n protocol)
head_clean n protocol h = join (codes "rule ") _ head_words.0 (
    join (itoa_int n) _ (itoa_int-IsClean dangerous_bytes digit_clean head_words.2 n)
      (join (codes " permit ") _ head_words.1 h))

-- Every plan whose match fields the agent accepts can be rendered: the rule command is built, with no
-- error of an address, a port condition or an illegal character.
pub build_rule_cmd-ok :
    (p : Plan) → validate_rule_fields p ≡ done → (cmd : Bytes) × (build_rule_cmd p ≡ ok cmd)
unfolding build_rule_cmd validate_rule_fields
build_rule_cmd-ok p h =
    let (_, proto, h₁) = >>=-eq-ok (validate_protocol p.protocol) _ h in
    let (_, dst, h₂) = >>=-eq-ok (validate_dst p.dst) _ h₁ in
    let (_, src, h₃) =
      >>=-eq-ok (when_some p.src (λ am. map_err Invalid.in_src (validate_addr_mask am))) _ h₂ in
    let (_, dp, h₄) =
      >>=-eq-ok (when_some p.dst_port (λ c. map_err Invalid.in_dst_port (validate_port_cond c))) _
        h₃ in
    let (_, sp, h₅) =
      >>=-eq-ok (when_some p.src_port (λ c. map_err Invalid.in_src_port (validate_port_cond c))) _
        h₄ in
    let (s, es, cs) = source-Renders Invalid.in_src Invalid.in_src_port p.src p.src_port src sp in
    let (d, ed, cd) = dest-Renders Invalid.in_dst_port p.dst p.dst_port dst dp in
    let all =
      join (rule_head p.rule_id p.protocol) _
        (head_clean p.rule_id p.protocol (protocol_clean p.protocol proto)) (join s d cs cd) in
    (rule_head p.rule_id p.protocol ++ (s ++ d), rw (es, ed, all))
