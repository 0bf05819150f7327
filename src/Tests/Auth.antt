-- ===== src/Tests/Auth.antt =====
-- Concrete calls of the service of internal/aclweb/auth, with two users.
use acl_edit_only.Base.{ℕ, ◌+◌, ◌≤◌, ◌≡◌, refl, true, false, none, some, List, [], ◌∷◌, All, arith}
use acl_edit_only.Base.Text.{Bytes, codes, str_eq}
use acl_edit_only.Base.Result.{ok, err, done}
use acl_edit_only.Auth.Tables.{Account, AuthDb, AuthHost, AuthState, session_expired, find_name}
use acl_edit_only.Auth.Limits.{find_limit, max_tries}
use acl_edit_only.Auth.Limits.Counted.{Attempt, IsWrong, IsWithin, tested, tested_max}
use acl_edit_only.Auth.Users.{set_active, change_password, reset_password}
use acl_edit_only.Auth.Sessions.{login, logout, validate_session}
use acl_edit_only.Auth.Sessions.Revoked.{SignedOut, sessions_revoked}
use acl_edit_only.Auth.Sessions.RoundTrip.{SignedIn, login-validate_session}
use acl_edit_only.Auth.Admins.{Inv}
use acl_edit_only.Auth.History.{
  AuthCall, sets_active, creates_user, resets_password, auth_calls, auth_calls-Inv,
}

-- a host whose hashes are the passwords, and whose state is the time
abbrev clock : AuthHost ℕ
clock = record {
  now = λ t. t;
  random_bytes = λ n t. (n ∷ t ∷ [], t + 1);
  hex = λ b. b;
  generate = λ password t. (ok password, t);
  compare = str_eq;
}

abbrev account : ℕ → Bytes → Bytes → Account
account id name role = record {
  user = record { id = id; username = name; role = role; active = true };
  password_hash = codes "correct horse";
  last_login_at = none;
}

abbrev tables : AuthDb
tables = record {
  users = account 1 (codes "ann") (codes "admin") ∷ account 2 (codes "bob") (codes "operator") ∷ [];
  last_user = 2;
  sessions = record { id = codes "t"; user_id = 2; expires_at = 9000 } ∷ [];
  rate_limits = [];
}

abbrev start : AuthState ℕ
start = record { db = tables; world = 1000 }

tables-Inv : Inv tables
unfolding str_eq
tables-Inv = record { ordered = (omega arith, (omega arith, omega arith)); admin = refl }

abbrev history : List (AuthCall × ℕ)
history =
    (sets_active 2 1 false, 1000)
    ∷ (creates_user (codes "eve") (codes "correct battery") (codes "viewer"), 2000)
    ∷ (resets_password (codes "bob"), 3000)
    ∷ []

auth_calls-Inv_example : Inv (auth_calls clock history start).db
auth_calls-Inv_example = auth_calls-Inv clock history start tables-Inv

signed_in :
    (login clock (codes "bob") (codes "correct horse") (codes "::1") start).0 ≡ ok (32 ∷ 1000 ∷ [])
unfolding login str_eq
signed_in = refl

login-validate_session_example :
    SignedIn clock
      (codes "bob")
      (codes "correct horse")
      (32 ∷ 1000 ∷ [])
      tables.users
      (login clock (codes "bob") (codes "correct horse") (codes "::1") start).1
login-validate_session_example =
    login-validate_session clock (codes "bob") (codes "correct horse") (codes "::1")
      (32 ∷ 1000 ∷ []) start tables-Inv signed_in

sessions_revoked_example :
    ((actor id : ℕ)
      → (set_active actor id false start).0 ≡ done
      → SignedOut clock id (set_active actor id false start).1)
    × ((id : ℕ) (old new : Bytes)
        → (change_password clock id old new start).0 ≡ done
        → SignedOut clock id (change_password clock id old new start).1)
    × ((username : Bytes) (a : Account) (p : Bytes)
        → find_name username start.db.users ≡ some a
        → (reset_password clock username start).0 ≡ ok p
        → SignedOut clock a.user.id (reset_password clock username start).1)
    × ((token : Bytes) → validate_session clock token (logout token start) ≡ err session_expired)
sessions_revoked_example = sessions_revoked clock start

abbrev guesses : List (Attempt clock (codes "bob"))
guesses = (codes "guess", codes "::1", 1000) ∷ (codes "again", codes "::2", 1200) ∷ []

guesses-IsWrong : All (IsWrong clock (codes "bob") tables.users) guesses
unfolding find_name str_eq
guesses-IsWrong = (λ a e k. ground arith, (λ a e k. ground arith, tt))

guesses-IsWithin : All (IsWithin clock (codes "bob") 1000) guesses
guesses-IsWithin = ((omega arith, omega arith), ((omega arith, omega arith), tt))

tested_max_example : tested clock (codes "bob") guesses start ≤ max_tries
unfolding find_limit
tested_max_example =
    tested_max clock (codes "bob") guesses 1000 start guesses-IsWrong guesses-IsWithin refl
