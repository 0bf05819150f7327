-- ===== src/Auth/Tables.antt =====
-- internal/aclweb/auth/auth.go: the tables users, sessions and rate_limits
-- (internal/aclweb/db/schema.go), as lists of rows, and the statements on them. A statement fails
-- only where a constraint of the schema is violated.
use acl_edit_only.Base.{
  ℕ, suc, ◌%◌, Bool, true, not, Option, none, some, List, [], ◌∷◌, ◌++◌, ◌==◌, any_of, map, length,
  get_elem?, if◌then◌else◌,
}
use acl_edit_only.Base.Text.{Bytes, codes, str_eq}
use acl_edit_only.Base.Result.{Result, ok, err}

-- `User`
pub record User : Type 0 where
  pub id : ℕ
  pub username : Bytes
  pub role : Bytes
  pub active : Bool

abbrev pub role_admin : Bytes
role_admin = codes "admin"

-- the table users
pub record Account : Type 0 where
  pub user : User
  pub password_hash : Bytes
  pub last_login_at : Option ℕ

-- the table sessions
pub record LoginSession : Type 0 where
  pub id : Bytes
  pub user_id : ℕ
  pub expires_at : ℕ

-- the table rate_limits
pub record RateLimit : Type 0 where
  pub key : Bytes
  pub count : ℕ
  pub window_end : ℕ

-- `last_user` is what AUTOINCREMENT counts.
pub record AuthDb : Type 0 where
  pub users : List Account
  pub last_user : ℕ
  pub sessions : List LoginSession
  pub rate_limits : List RateLimit

-- What the service has of its host, whose state is of type `W`: the clock, crypto/rand, encoding/hex
-- and bcrypt, whose comparison succeeds or fails.
pub record AuthHost (W : Type 0) : Type 0 where
  pub now : W → ℕ
  pub random_bytes : ℕ → W → Bytes × W
  pub hex : Bytes → Bytes
  pub generate : Bytes → W → Result Bytes Bytes × W
  pub compare : Bytes → Bytes → Bool

pub data AuthError : Type 0 where
  bad_credentials rate_limited session_expired : AuthError
  short_password no_account wrong_password own_account last_admin : AuthError
  bcrypt_error : Bytes → AuthError
  constraint : Bytes → AuthError  -- the column whose constraint a statement violates

pub record AuthState (W : Type 0) : Type 0 where
  pub db : AuthDb
  pub world : W

-- SELECT … FROM users WHERE username=?
unfoldable pub find_name : Bytes → List Account → Option Account
find_name name [] = none
find_name name (a ∷ rest) =
    let found = find_name name rest in if str_eq a.user.username name then some a else found

-- SELECT … FROM users WHERE id=?
unfoldable pub find_user : ℕ → List Account → Option Account
find_user id [] = none
find_user id (a ∷ rest) = let found = find_user id rest in if a.user.id == id then some a else found

-- UPDATE users SET … WHERE id=?
unfoldable pub update_user : ℕ → (Account → Account) → List Account → List Account
update_user id set [] = []
update_user id set (a ∷ rest) =
    let updated = update_user id set rest in
    if a.user.id == id then set a ∷ updated else a ∷ updated

abbrev pub set_active_to : Bool → Account → Account
set_active_to b a = record a { user = record a.user { active = b } }

-- CHECK(role IN ('admin','approver','operator','viewer'))
unfoldable pub is_role : Bytes → Bool
is_role role =
    any_of (λ r. str_eq role r)
      (codes "admin" ∷ codes "approver" ∷ codes "operator" ∷ codes "viewer" ∷ [])

abbrev pub with_new_user : Bytes → Bytes → Bytes → AuthDb → AuthDb
with_new_user username hash role db = record db {
  last_user = suc db.last_user;
  users =
      db.users
      ++ record {
        user = record { id = suc db.last_user; username = username; role = role; active = true };
        password_hash = hash;
        last_login_at = none;
      }
        ∷ [];
}

-- INSERT INTO users(username, password_hash, role, active) VALUES(?,?,?,1)
unfoldable pub insert_user : Bytes → Bytes → Bytes → AuthDb → Result AuthError AuthDb
unfolding find_name is_role
insert_user username hash role db = elim (find_name username db.users) [
  | some a ↦ err (constraint (codes "username"))
  | none ↦
      if not (is_role role)
      then err (constraint (codes "role"))
      else ok (with_new_user username hash role db)
]

unfoldable pub find_session : Bytes → List LoginSession → Option LoginSession
find_session token [] = none
find_session token (s ∷ rest) =
    let found = find_session token rest in if str_eq s.id token then some s else found

-- DELETE FROM sessions WHERE …
unfoldable pub delete_sessions : (LoginSession → Bool) → List LoginSession → List LoginSession
delete_sessions where_ [] = []
delete_sessions where_ (s ∷ rest) =
    let kept = delete_sessions where_ rest in if where_ s then kept else s ∷ kept

-- WHERE user_id=?
abbrev pub of_user : ℕ → LoginSession → Bool
of_user id s = s.user_id == id

-- INSERT INTO sessions(id, user_id, expires_at) VALUES(?,?,?)
unfoldable pub insert_session : Bytes → ℕ → ℕ → AuthDb → Result AuthError AuthDb
unfolding find_session
insert_session token user_id expires_at db = elim (find_session token db.sessions) [
  | some s ↦ err (constraint (codes "id"))
  | none ↦ ok (record db {
    sessions =
        db.sessions ++ record { id = token; user_id = user_id; expires_at = expires_at } ∷ [];
  })
]

abbrev pub password_chars : Bytes
password_chars = codes "abcdefghijklmnopqrstuvwxyzABCDEFGHIJKLMNOPQRSTUVWXYZ0123456789!@#$%^&*"

abbrev pub char_or_nul : Option ℕ → ℕ
char_or_nul none = 0
char_or_nul (some c) = c

module _ {W : Type 0} (h : AuthHost W) where
  -- `randomHex`
  unfoldable pub random_hex : ℕ → W → Bytes × W
  random_hex n w = let (b, w') = h.random_bytes n w in (h.hex b, w')

  -- `randomPassword`
  unfoldable pub random_password : ℕ → W → Bytes × W
  random_password n w =
      let (b, w') = h.random_bytes n w in
      (map (λ c. char_or_nul (get_elem? password_chars (c % length password_chars))) b, w')
