-- ===== src/Auth/Sessions.antt =====
-- internal/aclweb/auth/auth.go: the logins and the sessions.
pub mod Revoked
pub mod RoundTrip
use acl_edit_only.Base.{
  ℕ, ◌+◌, Bool, true, false, not, ◌&&◌, Option, none, some, List, [], ◌∷◌, ltb, ◌==◌, if◌then◌else◌,
}
use acl_edit_only.Base.Text.{Bytes, str_eq}
use acl_edit_only.Base.Result.{Result, ok, err, Check, done}
use acl_edit_only.Auth.Tables.{
  User, Account, LoginSession, AuthDb, AuthHost, AuthState, AuthError, bad_credentials,
  rate_limited, session_expired, find_name, find_user, update_user, find_session, delete_sessions,
  insert_session, random_hex,
}
use acl_edit_only.Auth.Limits.{keys_of, any_limited, increment_rate_limit, reset_rate_limit}

-- `sessionTTL` in seconds
abbrev pub session_ttl : ℕ
session_ttl = 28800

abbrev pub logged_in : ℕ → Account → Account
logged_in now a = record a { last_login_at = some now }

-- the user of a session, if both are there and in force
unfoldable pub owner_of : ℕ → List Account → LoginSession → Result AuthError User
unfolding find_user
owner_of now us l = elim (find_user l.user_id us) [
  | none ↦ err session_expired
  | some a ↦ if ltb now l.expires_at && a.user.active then ok a.user else err session_expired
]

unfoldable pub owner_of_found : ℕ → List Account → Option LoginSession → Result AuthError User
unfolding owner_of
owner_of_found now us none = err session_expired
owner_of_found now us (some l) = owner_of now us l

module _ {W : Type 0} (h : AuthHost W) where
  -- a login that fails is counted
  unfoldable pub refuse : Bytes → Bytes → AuthState W → Result AuthError Bytes × AuthState W
  unfolding increment_rate_limit
  refuse username remote_ip s = (
    err bad_credentials,
    record s {
      db = record s.db {
        rate_limits =
            increment_rate_limit (h.now s.world) (keys_of username remote_ip) s.db.rate_limits;
      };
    },
  )

  -- the end of a login whose session is stored, or is not
  unfoldable pub finish_login :
      Account → Bytes → W → AuthDb → Result AuthError AuthDb → Result AuthError Bytes × AuthState W
  unfolding update_user
  finish_login a token w db (err e) = (err e, record { db = db; world = w })
  finish_login a token w db (ok db') = (
    ok token,
    record {
      db = record db' { users = update_user a.user.id (logged_in (h.now w)) db'.users };
      world = w;
    },
  )

  -- the session of a login, with its token
  unfoldable pub start_session : Account → AuthDb → Bytes × W → Result AuthError Bytes × AuthState W
  unfolding insert_session finish_login
  start_session a db (token, w) =
      finish_login a token w db (insert_session token a.user.id (h.now w + session_ttl) db)

  -- a login with the right password
  unfoldable pub admit_login :
      Bytes → Bytes → Account → AuthState W → Result AuthError Bytes × AuthState W
  unfolding start_session random_hex reset_rate_limit
  admit_login username remote_ip a s =
      start_session a
        (record s.db {
          rate_limits = reset_rate_limit (keys_of username remote_ip) s.db.rate_limits;
        })
        (random_hex h 32 s.world)

  -- the account that was asked for
  unfoldable pub judge_login :
      Bytes → Bytes → Bytes → AuthState W → Option Account → Result AuthError Bytes × AuthState W
  unfolding refuse admit_login
  judge_login username password remote_ip s none = refuse username remote_ip s
  judge_login username password remote_ip s (some a) =
      if not a.user.active
      then refuse username remote_ip s
      else if not (h.compare a.password_hash password)
      then refuse username remote_ip s
      else admit_login username remote_ip a s

  -- `Login`
  unfoldable pub login : Bytes → Bytes → Bytes → AuthState W → Result AuthError Bytes × AuthState W
  unfolding judge_login any_limited find_name
  login username password remote_ip s =
      if any_limited (h.now s.world) (keys_of username remote_ip) s.db.rate_limits
      then (err rate_limited, s)
      else judge_login username password remote_ip s (find_name username s.db.users)

  -- `ValidateSession`
  unfoldable pub validate_session : Bytes → AuthState W → Result AuthError User
  unfolding owner_of_found find_session
  validate_session token s =
      owner_of_found (h.now s.world) s.db.users (find_session token s.db.sessions)

  -- `PurgeExpiredSessions`
  unfoldable pub purge_expired_sessions : AuthState W → AuthState W
  unfolding delete_sessions
  purge_expired_sessions s = record s {
    db = record s.db {
      sessions = delete_sessions (λ l. ltb l.expires_at (h.now s.world)) s.db.sessions;
    };
  }

-- `Logout`
unfoldable pub logout : {W : Type 0} → Bytes → AuthState W → AuthState W
unfolding delete_sessions
logout token s = record s {
  db = record s.db { sessions = delete_sessions (λ l. str_eq l.id token) s.db.sessions };
}
