-- ===== src/FakeDev/Guarded.antt =====
-- internal/h3c/fakedev: which commands change the rules of the simulated switch.
use acl_edit_only.FakeDev.Rules.Ascending.{Ascending, put_rule-Ascending, delete_rule-Ascending}
use acl_edit_only.FakeDev.Wire.{read_byte, at_data}
use acl_edit_only.FakeDev.Wire.Lines.{read_from_shorter}
use acl_edit_only.Base.{
  zero, ◌≤◌, ap, ◌∙◌, Option-cases, inl, inr, ℕ, ◌≡◌, ◌≢◌, refl, Bool, true, false, Option, none,
  some, List, [], ◌∷◌, ◌++◌, suc, length, arith, if◌then◌else◌, subst, sym, not, drop,
}
use acl_edit_only.Base.Text.{Bytes, codes, trim_space}
use acl_edit_only.Base.Int.{ℤ, eq_ℤ}
use acl_edit_only.FakeDev.Wire.{wait_more}
use acl_edit_only.FakeDev.Rules.{Rule, find_rule, atoi_int, acl_lines}
use acl_edit_only.FakeDev.Commands.{
  View, user_view, system_view, acl_view, Conn, out, err_unrecognized, err_wrong_param,
  err_incomplete, show_lines, display_acl, rule_body, rule_of, rule_words, rule_cmd, split_once,
}
use acl_edit_only.FakeDev.Session.{
  Command, quit, screen_length_disable, system_view_cmd, display_this, save, unknown, acl_advanced,
  display_acl_cmd, rule, undo_rule, command_of, leave, enter_system, enter_acl, enter_acl_number,
  show_this, show_acl, set_rule_in, undo_rule_in, undo_number, save_in, disable_paging, obey,
  handle,
}

-- the rules are those of before, and no byte is put back
abbrev Same : Conn → Conn → Type 0
Same s s' = (s'.dev.rules ≡ s.dev.rules) × (length s'.input ≤ length s.input)

unchanged : (s : Conn) → Same s s
unchanged s = (refl, omega arith)

either_Same : (b : Bool) (s x y : Conn) → Same s x → Same s y → Same s (if b then x else y)
either_Same true s x y h k = h
either_Same false s x y h k = k

Same-trans : (s t u : Conn) → Same s t → Same t u → Same s u
Same-trans s t u h k = (k.0 ∙ h.0, omega (arith, h.1, k.1))

wait_more_shorter : (fuel : ℕ) (s : Bytes) → length (wait_more fuel s).2 ≤ length s
unfolding wait_more read_byte
wait_more_shorter zero s = omega arith
wait_more_shorter (suc fuel) s = elim (Option-cases (read_byte s)) [
  | inl e ↦ ground (arith, e)
  | inr ((b, rest), e) ↦
      ground (arith, e, read_from_shorter at_data s b rest e, wait_more_shorter fuel rest)
]

show_lines-Same : (shown : ℕ) (ls : List Bytes) (s : Conn) → Same s (show_lines shown ls s)
unfolding show_lines out
show_lines-Same shown [] s = unchanged s
show_lines-Same shown (l ∷ ls) s =
    let s₁ = out (l ++ codes "\r\n") s in
    let s₂ = out (codes "  ---- More ----") s₁ in
    let w = wait_more (suc (length s₂.input)) s₂.input in
    let stopped = out w.1 (record s₂ { input = w.2 }) in
    let waited : Same s stopped = (refl, wait_more_shorter (suc (length s₂.input)) s₂.input) in
    either_Same _ s _ _
      (either_Same w.0 s _ _
        (Same-trans s stopped (show_lines (suc shown) ls (out (codes "\r              \r") stopped))
          waited (show_lines-Same (suc shown) ls (out (codes "\r              \r") stopped)))
        waited)
      (show_lines-Same (suc shown) ls s₁)

show_acl-Same : (n : Option ℤ) (s : Conn) → Same s (show_acl n s)
unfolding show_acl display_acl err_wrong_param out
show_acl-Same none s = unchanged s
show_acl-Same (some n) s =
    either_Same (not (eq_ℤ n s.dev.acl)) s _ _ (unchanged s)
      (show_lines-Same 0 (acl_lines s.dev) (out (codes "\r\n") s))

enter_number-Same : (n : Option ℤ) (s : Conn) → Same s (enter_acl_number n s)
unfolding enter_acl_number err_wrong_param out
enter_number-Same none s = unchanged s
enter_number-Same (some n) s =
    either_Same (not (eq_ℤ n s.dev.acl)) s _ _ (unchanged s) (unchanged s)

enter_acl-Same : (v : View) (arg : Bytes) (s : Conn) → Same s (enter_acl v arg s)
unfolding enter_acl err_unrecognized out
enter_acl-Same user_view arg s = unchanged s
enter_acl-Same acl_view arg s = unchanged s
enter_acl-Same system_view arg s = enter_number-Same (atoi_int (trim_space arg)) s

enter_system-Same : (v : View) (s : Conn) → Same s (enter_system v s)
unfolding enter_system err_unrecognized out
enter_system-Same user_view s = unchanged s
enter_system-Same system_view s = unchanged s
enter_system-Same acl_view s = unchanged s

leave-Same : (v : View) (s : Conn) → Same s (leave v s).1
unfolding leave out
leave-Same user_view s = unchanged s
leave-Same system_view s = unchanged s
leave-Same acl_view s = unchanged s

show_this-Same : (v : View) (s : Conn) → Same s (show_this v s)
unfolding show_this err_unrecognized out
show_this-Same user_view s = unchanged s
show_this-Same system_view s = unchanged s
show_this-Same acl_view s = unchanged s

save_in-Same : (v : View) (s : Conn) → Same s (save_in v s)
unfolding save_in err_unrecognized out
save_in-Same user_view s = either_Same s.dev.save_fail s _ _ (unchanged s) (unchanged s)
save_in-Same system_view s = either_Same s.dev.save_fail s _ _ (unchanged s) (unchanged s)
save_in-Same acl_view s = unchanged s

disable_paging-Same : (s : Conn) → Same s (disable_paging s)
unfolding disable_paging err_unrecognized out
disable_paging-Same s = either_Same s.dev.no_screen_length s _ _ (unchanged s) (unchanged s)

rule_body-Ascending :
    (id : ℤ) (body : Bytes) (old : Option Rule) (s : Conn)
    → Ascending s.dev.rules
    → Ascending (rule_body id body old s).dev.rules
unfolding rule_body err_wrong_param out
rule_body-Ascending id body none s h =
    ground (arith, put_rule-Ascending (record { id = id; body = body; comment = [] }) s.dev.rules h)
rule_body-Ascending id body (some r) s h = ground (
  arith,
  put_rule-Ascending (record r { comment = drop 8 body }) s.dev.rules h,
  put_rule-Ascending (record r { body = body }) s.dev.rules h,
)

rule_of-Ascending :
    (id : Option ℤ) (b : Bytes) (s : Conn)
    → Ascending s.dev.rules
    → Ascending (rule_of id b s).dev.rules
unfolding rule_of err_wrong_param out
rule_of-Ascending none b s h = h
rule_of-Ascending (some id) b s h =
    rule_body-Ascending id (trim_space b) (find_rule id s.dev.rules) s h

rule_words-Ascending :
    (words : Option (Bytes × Bytes)) (s : Conn)
    → Ascending s.dev.rules
    → Ascending (rule_words words s).dev.rules
unfolding rule_words err_incomplete out
rule_words-Ascending none s h = h
rule_words-Ascending (some (a, b)) s h = rule_of-Ascending (atoi_int a) b s h

undo_number-Ascending :
    (id : Option ℤ) (s : Conn) → Ascending s.dev.rules → Ascending (undo_number id s).dev.rules
unfolding undo_number err_wrong_param out
undo_number-Ascending none s h = h
undo_number-Ascending (some id) s h = delete_rule-Ascending id s.dev.rules h

rule_body-input :
    (id : ℤ) (body : Bytes) (old : Option Rule) (s : Conn)
    → (rule_body id body old s).input ≡ s.input
unfolding rule_body err_wrong_param out
rule_body-input id body none s = ground arith
rule_body-input id body (some r) s = ground arith

rule_words-input :
    (words : Option (Bytes × Bytes)) (s : Conn) → (rule_words words s).input ≡ s.input
unfolding rule_words rule_of err_incomplete err_wrong_param out
rule_words-input none s = refl
rule_words-input (some (a, b)) s = go (atoi_int a)
  where
    go : (id : Option ℤ) → (rule_of id b s).input ≡ s.input
    go none = refl
    go (some id) = rule_body-input id (trim_space b) (find_rule id s.dev.rules) s

undo_number-input : (id : Option ℤ) (s : Conn) → (undo_number id s).input ≡ s.input
unfolding undo_number err_wrong_param out
undo_number-input none s = refl
undo_number-input (some id) s = refl

-- the rules stay in order, and only in the view of the ACL do they change
abbrev Guarded : View → Conn → Conn → Type 0
Guarded v s s' =
    (v ≢ acl_view → s'.dev.rules ≡ s.dev.rules)
    × (Ascending s.dev.rules → Ascending s'.dev.rules)
    × (length s'.input ≤ length s.input)

kept-Guarded : (v : View) (s s' : Conn) → Same s s' → Guarded v s s'
kept-Guarded v s s' h = (λ _. h.0, λ k. subst Ascending (sym h.0) k, h.1)

set_rule_in-Guarded : (v : View) (arg : Bytes) (s : Conn) → Guarded v s (set_rule_in v arg s)
unfolding set_rule_in rule_cmd err_unrecognized out
set_rule_in-Guarded user_view arg s = kept-Guarded user_view s (err_unrecognized s) (unchanged s)
set_rule_in-Guarded system_view arg s =
    kept-Guarded system_view s (err_unrecognized s) (unchanged s)
set_rule_in-Guarded acl_view arg s = (
  λ h. absurd (h refl),
  rule_words-Ascending (split_once (trim_space arg)) s,
  omega (arith, ap length (rule_words-input (split_once (trim_space arg)) s)),
)

undo_rule_in-Guarded : (v : View) (arg : Bytes) (s : Conn) → Guarded v s (undo_rule_in v arg s)
unfolding undo_rule_in err_unrecognized out
undo_rule_in-Guarded user_view arg s = kept-Guarded user_view s (err_unrecognized s) (unchanged s)
undo_rule_in-Guarded system_view arg s =
    kept-Guarded system_view s (err_unrecognized s) (unchanged s)
undo_rule_in-Guarded acl_view arg s = (
  λ h. absurd (h refl),
  undo_number-Ascending (atoi_int (trim_space arg)) s,
  omega (arith, ap length (undo_number-input (atoi_int (trim_space arg)) s)),
)

pub obey-Guarded : (c : Command) (s : Conn) → Guarded s.view s (obey c s).1
unfolding obey err_unrecognized out
obey-Guarded quit s = kept-Guarded s.view s (leave s.view s).1 (leave-Same s.view s)
obey-Guarded screen_length_disable s =
    kept-Guarded s.view s (disable_paging s) (disable_paging-Same s)
obey-Guarded system_view_cmd s =
    kept-Guarded s.view s (enter_system s.view s) (enter_system-Same s.view s)
obey-Guarded (acl_advanced arg) s =
    kept-Guarded s.view s (enter_acl s.view arg s) (enter_acl-Same s.view arg s)
obey-Guarded display_this s = kept-Guarded s.view s (show_this s.view s) (show_this-Same s.view s)
obey-Guarded (display_acl_cmd arg) s =
    kept-Guarded s.view s (show_acl (atoi_int (trim_space arg)) s)
      (show_acl-Same (atoi_int (trim_space arg)) s)
obey-Guarded (rule arg) s = set_rule_in-Guarded s.view arg s
obey-Guarded (undo_rule arg) s = undo_rule_in-Guarded s.view arg s
obey-Guarded save s = kept-Guarded s.view s (save_in s.view s) (save_in-Same s.view s)
obey-Guarded unknown s = kept-Guarded s.view s (err_unrecognized s) (unchanged s)

-- Whatever a client types, a command changes the rules of the switch only in the view of the ACL, and
-- behind it the rules are in the order of their ids, each id once, if they were before.
pub handle_rules :
    (cmd : Bytes) (s : Conn)
    → Ascending s.dev.rules
    → (s.view ≢ acl_view → (handle cmd s).1.dev.rules ≡ s.dev.rules)
      × Ascending (handle cmd s).1.dev.rules
unfolding handle
handle_rules cmd s h = ((obey-Guarded (command_of cmd) s).0, (obey-Guarded (command_of cmd) s).1 h)
