-- ===== src/Agent/Credentials.antt =====
-- cmd/aclagent/main.go: the credential file. What os.ReadFile gives of it and the decoding of base64
-- are parameters.
use acl_edit_only.Base.{◌≡◌, ◌≢◌, sym, ap, ◌∙◌, Option, none, some, List, [], ◌∷◌, map}
use acl_edit_only.Base.Text.{Bytes, trim_space, split, nl}
use acl_edit_only.Base.Result.{Result, ok, err, ◌>>=◌, >>=-eq-ok}
use acl_edit_only.Device.Session.{Auth}

pub data CredentialError : Type 0 where
  unreadable empty_file not_base64 empty_password : CredentialError

-- the switch of `credLines`
unfoldable two_lines : List Bytes → Result CredentialError (Bytes × Bytes)
two_lines [] = err empty_file
two_lines ([] ∷ []) = err empty_file
two_lines ((c ∷ l) ∷ []) = ok ([], c ∷ l)
two_lines (user ∷ password ∷ rest) = ok (user, password)

-- `credLines`: a username, which may be empty, and the base64 of a password
unfoldable cred_lines : Option Bytes → Result CredentialError (Bytes × Bytes)
unfolding two_lines
cred_lines none = err unreadable
cred_lines (some raw) = two_lines (map trim_space (split nl (trim_space raw)))

unfoldable not_empty : Option Bytes → Result CredentialError Bytes
not_empty none = err not_base64
not_empty (some []) = err empty_password
not_empty (some (c ∷ password)) = ok (c ∷ password)

-- `loadPassword`
unfoldable load_password : (Bytes → Option Bytes) → Option Bytes → Result CredentialError Bytes
unfolding cred_lines not_empty
load_password decode file = cred_lines file >>= λ lines. not_empty (decode lines.1)

unfoldable username_of : Result CredentialError (Bytes × Bytes) → Bytes
username_of (ok lines) = lines.0
username_of (err e) = []

-- the username of `loadUsername`, which is empty where the file cannot be read
unfoldable load_username : Option Bytes → Bytes
unfolding cred_lines username_of
load_username file = username_of (cred_lines file)

-- the credentials that `openSession` sends
unfoldable auth_of : (Bytes → Option Bytes) → Option Bytes → Result CredentialError Auth
unfolding load_password load_username
auth_of decode file = load_password decode file >>= λ password.
    ok (record { username = load_username file; password = password })

not_empty-eq-ok : (o : Option Bytes) (p : Bytes) → not_empty o ≡ ok p → (o ≡ some p) × (p ≢ [])
unfolding not_empty
not_empty-eq-ok none p h = cc h
not_empty-eq-ok (some []) p h = cc h
not_empty-eq-ok (some (c ∷ q)) p h = (cc h, λ e. cc (h, e))

ok_injective : {x a : Auth} → ◌≡◌ {A = Result CredentialError Auth} (ok x) (ok a) → x ≡ a
ok_injective h = cc h

-- Credentials are sent only if the file gives a line for the password that decodes to a text that is
-- not empty, which is the password, and the username is what the same reading of the file gives.
auth_of-eq-ok :
    (decode : Bytes → Option Bytes) (file : Option Bytes) (a : Auth)
    → auth_of decode file ≡ ok a
    → (lines : Bytes × Bytes) × (cred_lines file ≡ ok lines)
      × (decode lines.1 ≡ some a.password)
      × (a.username ≡ lines.0)
      × (a.password ≢ [])
unfolding auth_of load_password load_username username_of
auth_of-eq-ok decode file a h =
    let (password, loaded, given) = >>=-eq-ok (load_password decode file) _ h in
    let (lines, read, left) = >>=-eq-ok (cred_lines file) _ loaded in
    let (decoded, filled) = not_empty-eq-ok (decode lines.1) password left in
    let same : record { username = load_username file; password = password } ≡ a =
      ok_injective given in
    (
      lines,
      read,
      decoded ∙ ap (λ x. some x.password) same,
      sym (ap (λ x. x.username) same) ∙ ap username_of read,
      λ e. filled (ap (λ x. x.password) same ∙ e),
    )
