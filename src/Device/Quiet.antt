-- ===== src/Device/Quiet.antt =====
-- Steps of a session (internal/h3c/device) that send nothing but commands that navigate and read.
pub mod Steps
use acl_edit_only.Base.{
  ℕ, zero, suc, ◌≡◌, refl, sym, subst, ap, ◌∙◌, Bool, true, false, Option, none, some, List, [],
  ◌∷◌, ◌++◌, append_assoc, All, All-append, if◌then◌else◌, ◌==◌,
}
use acl_edit_only.Base.Text.{Bytes, codes, str_eq, drop_nul}
use acl_edit_only.Base.Decimal.{itoa_int}
use acl_edit_only.Base.Int.{ℤ}
use acl_edit_only.Base.Result.{Result, ok, err}
use acl_edit_only.Base.Regex.{Regex, matches}
use acl_edit_only.Device.Text.{
  check_device_errors, more_re, prompt_re, display_this_acl_re, normalize_terminal, trailing_prompt,
}
use acl_edit_only.Device.Session.{
  Transport, ReadResult, got, fault, Session, M, GoError, session, ◌>>=◌, ◌>>◌, pure, raise,
  on_error, in_stage, set_prompt, send, after, in_session, record_out, after_read, read_until,
  read_until_re, refuse_errors, exec_output, exec, page_loop, view_output, max_pages, display_acl,
  enter_system_view, enter_acl_view, accept_view, accept_shown, mismatch, names_acl,
}

abbrev crlf : Bytes
crlf = codes "\r\n"

-- what is sent to move between views and to read ACL n
pub data Navigates (n : ℤ) : Bytes → Type 0 where
  system : Navigates n (codes "system-view" ++ crlf)
  enter : Navigates n ((codes "acl advanced " ++ itoa_int n) ++ crlf)
  this : Navigates n (codes "display this" ++ crlf)
  show : Navigates n (codes "display acl " ++ (itoa_int n ++ crlf))
  page : Navigates n (codes " ")

-- what holds of both branches holds of the test
pub if_both :
    {A : Type 0} (P : A → Type 0) (b : Bool) (x y : A) → P x → P y → P (if b then x else y)
if_both P true x y p q = p
if_both P false x y p q = q

case_both :
    {A : Type 0} (P : A → Type 0) (b : Bool) (x y : A)
    → P x
    → P y
    → P (elim b as (λ x. A) [ true ↦ x | false ↦ y ])
case_both P true x y p q = p
case_both P false x y p q = q

module _ {C : Type 0} (n : ℤ) where
  -- a session that is bound to ACL n, and has sent nothing but such texts since `s`
  pub record Follows (s s' : Session C) : Type 0 where
    pub bound : s'.acl_num ≡ n
    pub new : List Bytes
    pub grows : s'.sent ≡ new ++ s.sent
    pub harmless : All (Navigates n) new

  abbrev pub Quiet : {A : Type 0} → M C A → Type 0
  Quiet m = (s : Session C) → s.acl_num ≡ n → Follows s (m s).1

  pub Follows-refl : {s : Session C} → s.acl_num ≡ n → Follows s s
  Follows-refl h = record { bound = h; new = []; grows = refl; harmless = tt }

  pub Follows-trans : {s t u : Session C} → Follows s t → Follows t u → Follows s u
  Follows-trans {s} f g = record {
    bound = g.bound;
    new = g.new ++ f.new;
    grows = g.grows ∙ (ap (λ l. g.new ++ l) f.grows ∙ sym (append_assoc g.new f.new s.sent));
    harmless = All-append (Navigates n) g.new f.new g.harmless f.harmless;
  }

  pub pure-Quiet : {A : Type 0} (a : A) → Quiet (pure a)
  pure-Quiet a s h = Follows-refl h

  after-Quiet :
      {A B : Type 0} (f : A → M C B) (r : Result GoError A) (s s' : Session C)
      → Follows s s'
      → ((a : A) → Quiet (f a))
      → Follows s (after f r s').1
  after-Quiet f (ok a) s s' g q = Follows-trans g (q a s' g.bound)
  after-Quiet f (err e) s s' g q = g

  pub bind-Quiet :
      {A B : Type 0} (m : M C A) (f : A → M C B)
      → Quiet m
      → ((a : A) → Quiet (f a))
      → Quiet (m >>= f)
  bind-Quiet m f p q s h = after-Quiet f (m s).0 s (m s).1 (p s h) q

  stage-Quiet : {A : Type 0} (stage : Bytes) (m : M C A) → Quiet m → Quiet (in_stage stage m)
  stage-Quiet stage m p s h = p s h

  in_session-Quiet : (o : Option Bytes) (f : Bytes → GoError) → Quiet (in_session {C = C} o f)
  in_session-Quiet none f s h = Follows-refl h
  in_session-Quiet (some e) f s h = Follows-refl h
