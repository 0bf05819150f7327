-- ===== src/Device/Session/Monad.antt =====
-- The state of a session of internal/h3c/device, its errors, and the steps that its methods are made of.
use acl_edit_only.Base.{
  ℕ, ◌-◌, Bool, Option, none, some, List, [], ◌∷◌, ◌++◌, ltb, true, false, zero, suc, ◌||◌, ◌==◌,
  if◌then◌else◌, length,
}
use mathlib.Core.List.{reverse}
use acl_edit_only.Base.Text.{Bytes, codes, has_prefix}
use acl_edit_only.Base.Int.{ℤ}
use acl_edit_only.Base.Result.{Result, ok, err}
use acl_edit_only.Base.Regex.{Regex}

-- What a read returns: the text and the index that matched, or the text so far and the error.
pub data ReadResult : Type 0 where
  got : Bytes → ℕ → ReadResult
  fault : Bytes → Bytes → ReadResult

-- The interface `Transport`, over the connections `C`; an error is its text. The address and the
-- deadlines belong to the connection.
pub record Transport (C : Type 0) : Type 0 where
  pub connect : C → Option Bytes × C
  pub send : Bytes → C → Option Bytes × C
  pub read_until : List Bytes → C → ReadResult × C
  pub read_until_re : List Regex → C → ReadResult × C

pub record Auth : Type 0 where
  pub username : Bytes
  pub password : Bytes

-- An error that is no `SessionError`, with its text; or one, with its stage, the text of its cause, and
-- the output that the method returns beside it.
pub data GoError : Type 0 where
  plain : Bytes → GoError
  session : Bytes → Bytes → Bytes → GoError

-- `Error()`
unfoldable pub error_text : GoError → Bytes
error_text (plain e) = e
error_text (session stage cause out) = codes "[" ++ (stage ++ (codes "] " ++ cause))

unfoldable pub output_of : GoError → Bytes
output_of (plain e) = []
output_of (session stage cause out) = out

pub record Session (C : Type 0) : Type 0 where
  pub conn : C
  pub acl_num : ℤ
  pub raw_buf : Bytes
  pub in_auth : Bool
  pub acl_prompt : Bytes
  pub sent : List Bytes

abbrev pub M : Type 0 → Type 0 → Type 0
M C A = Session C → Result GoError A × Session C

abbrev pub relabel : {A : Type 0} → (GoError → GoError) → Result GoError A → Result GoError A
relabel f (ok a) = ok a
relabel f (err e) = err (f e)

-- an error of the transport
abbrev pub nil_or : Option Bytes → Result GoError (Unit {0})
nil_or none = ok tt
nil_or (some e) = err (plain e)

module _ {C : Type 0} where
  -- what follows a step, by how the step ended
  abbrev pub after : {A B : Type 0} → (A → M C B) → Result GoError A → M C B
  after f (ok a) s = f a s
  after f (err e) s = (err e, s)

  infixl 5 ◌>>=◌ ◌>>◌
  abbrev pub ◌>>=◌ : {A B : Type 0} → M C A → (A → M C B) → M C B
  ◌>>=◌ m f s = after f (m s).0 (m s).1

  abbrev pub ◌>>◌ : {A B : Type 0} → M C A → M C B → M C B
  m >> k = m >>= λ _. k

  abbrev pub pure : {A : Type 0} → A → M C A
  pure a s = (ok a, s)

  abbrev pub raise : {A : Type 0} → GoError → M C A
  raise e s = (err e, s)

  -- `if err := …; err != nil { return … }` for a text that is the error, if there is one
  abbrev pub in_session : Option Bytes → (Bytes → GoError) → M C (Unit {0})
  in_session none f = pure tt
  in_session (some e) f = raise (f e)

  abbrev pub gets : {A : Type 0} → (Session C → A) → M C A
  gets f s = (ok (f s), s)

  abbrev pub on_error : {A : Type 0} → M C A → (GoError → GoError) → M C A
  on_error m f s = (relabel f (m s).0, (m s).1)

  -- `&SessionError{Stage: stage, Cause: err}`
  abbrev pub in_stage : {A : Type 0} → Bytes → M C A → M C A
  in_stage stage m = on_error m (λ e. session stage (error_text e) (output_of e))

  abbrev pub set_auth : Bool → M C (Unit {0})
  set_auth b s = (ok tt, record s { in_auth = b })

  abbrev pub set_prompt : Bytes → M C (Unit {0})
  set_prompt p s = (ok tt, record s { acl_prompt = p })

  abbrev pub lift_conn : (C → Option Bytes × C) → M C (Unit {0})
  lift_conn f s = (nil_or (f s.conn).0, record s { conn = (f s.conn).1 })

is_crlf : ℕ → Bool
is_crlf c = (c == 13) || (c == 10)

trim_crlf : Bytes → Bytes
trim_crlf [] = []
trim_crlf (c ∷ s) = let rest = trim_crlf s in elim (is_crlf c) [ true ↦ rest | false ↦ c ∷ s ]

-- `strings.ReplaceAll(s, old, "<password>")` for a text `old` that is not empty; `skip` counts the
-- bytes of the last occurrence that are still to be passed over
replace_password : ℕ → Bytes → Bytes → Bytes
replace_password skip old [] = []
replace_password (suc skip) old (c ∷ s) = replace_password skip old s
replace_password zero old (c ∷ s) = elim (has_prefix (c ∷ s) old) [
  | true ↦ codes "<password>" ++ replace_password (length old - 1) old s
  | false ↦ c ∷ replace_password zero old s
]

-- `scrubPassword`
unfoldable pub scrub_password : Bytes → Bytes → Bytes
unfolding trim_crlf is_crlf replace_password
scrub_password out password =
    let pw = reverse (trim_crlf (reverse password)) in
    if ltb (length pw) 3 then out else replace_password 0 pw out
