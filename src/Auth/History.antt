-- ===== src/Auth/History.antt =====
-- Histories of calls of the service of internal/aclweb/auth/auth.go.
use acl_edit_only.Base.{ℕ, refl, Bool, List, [], ◌∷◌}
use acl_edit_only.Base.Text.{Bytes}
use acl_edit_only.Auth.Tables.{AuthHost, AuthState}
use acl_edit_only.Auth.Users.{
  set_active, create_user, change_password, reset_password, create_initial_admin,
}
use acl_edit_only.Auth.Sessions.{login, logout, purge_expired_sessions}
use acl_edit_only.Auth.Admins.{Inv}
use acl_edit_only.Auth.Kept.{
  create_user-Inv, initial-Inv, set_active-Inv, change_password-Inv, reset_password-Inv, login-Inv,
}

-- one call of the handlers, or of the start of the program
pub data AuthCall : Type 0 where
  initial_admin : Bytes → AuthCall
  logs_in : Bytes → Bytes → Bytes → AuthCall
  logs_out : Bytes → AuthCall
  changes_password : ℕ → Bytes → Bytes → AuthCall
  resets_password : Bytes → AuthCall
  sets_active : ℕ → ℕ → Bool → AuthCall
  creates_user : Bytes → Bytes → Bytes → AuthCall
  purges : AuthCall

module _ {W : Type 0} (h : AuthHost W) where
  unfoldable pub auth_call : AuthCall → AuthState W → AuthState W
  unfolding create_initial_admin login logout change_password reset_password set_active create_user
      purge_expired_sessions
  auth_call (initial_admin username) s = (create_initial_admin h username s).1
  auth_call (logs_in username password ip) s = (login h username password ip s).1
  auth_call (logs_out token) s = logout token s
  auth_call (changes_password id old new) s = (change_password h id old new s).1
  auth_call (resets_password username) s = (reset_password h username s).1
  auth_call (sets_active actor target b) s = (set_active actor target b s).1
  auth_call (creates_user username password role) s = (create_user h username password role s).1
  auth_call purges s = purge_expired_sessions h s

  -- Between two calls the outside world, the clock among it, becomes what it may.
  unfoldable pub auth_calls : List (AuthCall × W) → AuthState W → AuthState W
  unfolding auth_call
  auth_calls [] s = s
  auth_calls ((c, w) ∷ cs) s = auth_calls cs (auth_call c (record s { world = w }))

  auth_call-Inv : (c : AuthCall) (s : AuthState W) → Inv s.db → Inv (auth_call c s).db
  unfolding auth_call create_initial_admin logout purge_expired_sessions
  auth_call-Inv (initial_admin username) s v = initial-Inv h username s.db.users s refl v
  auth_call-Inv (logs_in username password ip) s v = login-Inv h username password ip s v
  auth_call-Inv (logs_out token) s v = record { ordered = v.ordered; admin = v.admin }
  auth_call-Inv (changes_password id old new) s v = change_password-Inv h id old new s v
  auth_call-Inv (resets_password username) s v = reset_password-Inv h username s v
  auth_call-Inv (sets_active actor target b) s v = set_active-Inv h actor target b s v
  auth_call-Inv (creates_user username password role) s v =
      create_user-Inv h username password role s v
  auth_call-Inv purges s v = record { ordered = v.ordered; admin = v.admin }

  -- Whatever the calls and their order, and whatever the clock, the random bytes and bcrypt are: where
  -- the ids of the users ascend up to the last one that was given and an administrator is active, this
  -- is so after every history.
  pub auth_calls-Inv :
      (cs : List (AuthCall × W)) (s : AuthState W) → Inv s.db → Inv (auth_calls cs s).db
  unfolding auth_calls
  auth_calls-Inv [] s v = v
  auth_calls-Inv ((c, w) ∷ cs) s v =
      auth_calls-Inv cs (auth_call c (record s { world = w }))
        (auth_call-Inv c (record s { world = w }) v)
