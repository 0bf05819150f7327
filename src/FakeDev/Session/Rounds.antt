-- ===== src/FakeDev/Session/Rounds.antt =====
-- internal/h3c/fakedev/session.go: that a connection to the simulated switch comes to its end.
use acl_edit_only.Base.{
  ℕ, zero, suc, ◌<◌, ◌≤◌, ◌≡◌, refl, ap, Bool, true, false, Option, none, some, [], ◌∷◌, length,
  if◌then◌else◌, arith,
}
use acl_edit_only.Base.Text.{Bytes, trim_space}
use acl_edit_only.FakeDev.Wire.{LineRead, line, closed, spent, read_line}
use acl_edit_only.FakeDev.Wire.Lines.{EndsWithin, read_line-EndsWithin}
use acl_edit_only.FakeDev.Commands.{
  View, user_view, system_view, acl_view, Conn, out, prompt_in, prompt,
}
use acl_edit_only.FakeDev.Session.{
  command_of, handle, answer, received, next_line, serve_line, serve_loop, logged, prompted,
}
use acl_edit_only.FakeDev.Guarded.{obey-Guarded}

-- a line was taken off the bytes that are to come
abbrev LeavesFewer : ℕ → Option Bytes × Conn → Type 0
LeavesFewer n (none, s) = Unit
LeavesFewer n (some text, s) = length s.input < n

received-LeavesFewer :
    (n : ℕ) (r : LineRead) (s : Conn) → EndsWithin n r → LeavesFewer n (received r s)
unfolding received
received-LeavesFewer n (line text echoed rest) s h = h
received-LeavesFewer n (closed echoed) s h = tt
received-LeavesFewer n spent s h = tt

next_line-LeavesFewer : (echo : Bool) (s : Conn) → LeavesFewer (length s.input) (next_line echo s)
unfolding next_line
next_line-LeavesFewer echo s =
    received-LeavesFewer (length s.input) (read_line (suc (length s.input)) echo [] [] s.input) s
      (read_line-EndsWithin (suc (length s.input)) echo [] [] s.input (omega arith))

prompt-input : (v : View) (s : Conn) → (prompt_in v s).input ≡ s.input
unfolding prompt_in out
prompt-input user_view s = refl
prompt-input system_view s = refl
prompt-input acl_view s = ground arith

prompted_shorter :
    (n : ℕ) (r : Bool × Conn) → length r.1.input ≤ n → length (prompted r).1.input ≤ n
unfolding prompted prompt
prompted_shorter n (true, s) h = h
prompted_shorter n (false, s) h = omega (arith, h, ap length (prompt-input s.view s))

answer_shorter : (cmd : Bytes) (s : Conn) → length (answer cmd s).1.input ≤ length s.input
unfolding answer prompt handle logged
answer_shorter [] s = omega (arith, ap length (prompt-input s.view s))
answer_shorter (c ∷ cmd) s =
    let before = logged (c ∷ cmd) s in
    prompted_shorter (length s.input) (handle (c ∷ cmd) before)
      (obey-Guarded (command_of (c ∷ cmd)) before).2

serve_line_same :
    (n : ℕ) (f g : Conn → Conn) (r : Option Bytes × Conn)
    → ((s : Conn) → length s.input < n → f s ≡ g s)
    → LeavesFewer n r
    → serve_line f r ≡ serve_line g r
unfolding serve_line
serve_line_same n f g (none, s) h k = refl
serve_line_same n f g (some text, s) h k =
    let a = answer (trim_space text) s in
    ap (λ x. if a.0 then a.1 else x) (h a.1 (omega (arith, k, answer_shorter (trim_space text) s)))

-- However much more fuel than bytes that are to come the loop of the simulated switch has, the
-- connection ends in the same way, so that its fuel never cuts a session short.
pub serve_loop_lem :
    (n m : ℕ) (s : Conn) → length s.input < n → length s.input < m → serve_loop n s ≡ serve_loop m s
unfolding serve_loop
serve_loop_lem zero m s h k = absurd (omega (arith, h))
serve_loop_lem (suc n) zero s h k = absurd (omega (arith, k))
serve_loop_lem (suc n) (suc m) s h k =
    serve_line_same (length s.input) (serve_loop n) (serve_loop m) (next_line true s)
      (λ t j. serve_loop_lem n m t (omega (arith, h, j)) (omega (arith, k, j)))
      (next_line-LeavesFewer true s)
