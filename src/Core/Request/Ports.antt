-- ===== src/Core/Request/Ports.antt =====
-- The port conditions of a plan that internal/aclweb/core/core.go makes of a request.
use acl_edit_only.Base.{
  ℕ, ◌^◌, ◌<◌, ◌≡◌, ◌≢◌, refl, sym, ◌∙◌, ap, ◌⊎◌, ◌↔◌, true, false, Option, none, some, [], arith,
}
use acl_edit_only.Base.Text.{Bytes, str_eq, str_eq_iff}
use acl_edit_only.Base.Int.{ℤ, pos, eq_ℤ, eq_ℤ_iff}
use acl_edit_only.Plan.{PortCond}
use acl_edit_only.Core.Request.{SubmitRequest, op_of, val_of, normalize, uint16, port_of, plan_of}

op_is_empty : (op : Bytes) → (str_eq op [] ≡ true) ↔ (op ≡ [])
op_is_empty op = str_eq_iff op []

empty_is_empty : str_eq [] [] ≡ true
empty_is_empty = (str_eq_iff [] []).1 refl

port_of-none :
    (op : Bytes) (val : ℤ)
    → (port_of (op_of op val) (val_of (op_of op val) val) ≡ none) ↔ ((op ≡ []) ⊎ (val ≡ pos 0))
unfolding port_of
port_of-none op val = ground (arith, op_is_empty op, eq_ℤ_iff val (pos 0), empty_is_empty)

-- the condition on port `n`
abbrev pub on_port : Bytes → ℕ → Option PortCond
on_port op n = some (record { op = op; value = n; low = 0; high = 0 })

value_of-on_port : (op : Bytes) (m n : ℕ) → (on_port op m ≡ on_port op n) ↔ (m ≡ n)
value_of-on_port op m n = ground arith

not_empty : (op : Bytes) → op ≢ [] → str_eq op [] ≡ false
not_empty op h = ground (arith, op_is_empty op)

port_of-asked :
    (op : Bytes) (val : ℤ)
    → str_eq op [] ≡ false
    → eq_ℤ val (pos 0) ≡ false
    → port_of (op_of op val) (val_of (op_of op val) val) ≡ on_port op (uint16 val)
unfolding port_of
port_of-asked op val h k = ground arith

uint16-exact : (n : ℕ) → (uint16 (pos n) ≡ n) ↔ (n < 2 ^ 16)
unfolding uint16
uint16-exact n = ground arith

port_of-exact :
    (op : Bytes) (n : ℕ)
    → op ≢ []
    → n ≢ 0
    → (port_of (op_of op (pos n)) (val_of (op_of op (pos n)) (pos n)) ≡ on_port op n) ↔ (n < 2 ^ 16)
port_of-exact op n h k =
    let asked = port_of-asked op (pos n) (not_empty op h) (ground arith) in
    (
      (λ e. (uint16-exact n).0 ((value_of-on_port op (uint16 (pos n)) n).0 (sym asked ∙ e))),
      (λ l. asked ∙ ap (on_port op) ((uint16-exact n).1 l)),
    )

-- The plan of a normalized request has no destination port condition exactly if the request has no
-- operator or the number 0.
pub plan_of-no_port :
    (code comment : Bytes) (rule_id expect_count : ℤ) (r : SubmitRequest)
    → ((plan_of code rule_id comment expect_count (normalize r)).dst_port ≡ none)
      ↔ ((r.dst_port_op ≡ []) ⊎ (r.dst_port_val ≡ pos 0))
unfolding plan_of normalize
plan_of-no_port code comment rule_id expect_count r = port_of-none r.dst_port_op r.dst_port_val

-- For an operator and a number that is not 0, the plan has the condition on that number exactly if the
-- number is below 2 ^ 16: a greater one silently becomes another port.
pub plan_of-port :
    (code comment : Bytes) (rule_id expect_count : ℤ) (r : SubmitRequest) (n : ℕ)
    → r.dst_port_op ≢ []
    → n ≢ 0
    → r.dst_port_val ≡ pos n
    → ((plan_of code rule_id comment expect_count (normalize r)).dst_port ≡ on_port r.dst_port_op n)
      ↔ (n < 2 ^ 16)
unfolding plan_of normalize
plan_of-port code comment rule_id expect_count r n h k e = rw e (port_of-exact r.dst_port_op n h k)
