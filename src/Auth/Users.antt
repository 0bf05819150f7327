-- ===== src/Auth/Users.antt =====
-- internal/aclweb/auth/auth.go: the accounts, their roles and their passwords.
use acl_edit_only.Base.{
  ℕ, suc, Bool, true, false, not, ◌&&◌, Option, none, some, List, [], ◌∷◌, ltb, ◌==◌, length,
  if◌then◌else◌,
}
use acl_edit_only.Base.Text.{Bytes, str_eq}
use acl_edit_only.Base.Result.{Result, ok, err, Check, done}
use acl_edit_only.Auth.Tables.{
  User, Account, AuthDb, AuthHost, AuthState, AuthError, short_password, no_account, wrong_password,
  own_account, last_admin, bcrypt_error, role_admin, find_name, find_user, update_user,
  set_active_to, insert_user, delete_sessions, of_user, random_password,
}

abbrev pub min_password_len : ℕ
min_password_len = 12

-- role='admin' AND active=1
abbrev pub is_active_admin : Account → Bool
is_active_admin a = str_eq a.user.role role_admin && a.user.active

-- SELECT COUNT(*) FROM users WHERE role='admin' AND active=1 AND id!=?
unfoldable pub other_admins : ℕ → List Account → ℕ
other_admins id [] = 0
other_admins id (a ∷ rest) =
    let n = other_admins id rest in if is_active_admin a && not (a.user.id == id) then suc n else n

-- whether `SetActive` is to refuse the account as the last active administrator
unfoldable pub is_last_admin : Account → List Account → Bool
unfolding other_admins
is_last_admin a us = str_eq a.user.role role_admin && (other_admins a.user.id us == 0)

abbrev pub set_hash : Bytes → Account → Account
set_hash hash a = record a { password_hash = hash }

module _ {W : Type 0} where
  abbrev pub with_users : List Account → AuthState W → AuthState W
  with_users us s = record s { db = record s.db { users = us } }

  -- `RevokeUserSessions`
  unfoldable pub revoke_user_sessions : ℕ → AuthState W → AuthState W
  unfolding delete_sessions
  revoke_user_sessions id s = record s {
    db = record s.db { sessions = delete_sessions (of_user id) s.db.sessions };
  }

  -- `GetUser`
  unfoldable pub get_user : ℕ → AuthState W → Result AuthError User
  unfolding find_user
  get_user id s = elim (find_user id s.db.users) [ none ↦ err no_account | some a ↦ ok a.user ]

  -- `SetActive`, where it deactivates
  unfoldable pub deactivate : ℕ → AuthState W → Option Account → Check AuthError × AuthState W
  unfolding is_last_admin update_user revoke_user_sessions
  deactivate id s none = (err no_account, s)
  deactivate id s (some a) = if is_last_admin a s.db.users then (err last_admin, s) else (
    done,
    revoke_user_sessions id (with_users (update_user id (set_active_to false) s.db.users) s),
  )

  -- `SetActive`
  unfoldable pub set_active : ℕ → ℕ → Bool → AuthState W → Check AuthError × AuthState W
  unfolding deactivate find_user update_user
  set_active actor_id target_id true s =
      (done, with_users (update_user target_id (set_active_to true) s.db.users) s)
  set_active actor_id target_id false s =
      if actor_id == target_id
      then (err own_account, s)
      else deactivate target_id s (find_user target_id s.db.users)

  module _ (h : AuthHost W) where
    -- the insertion of `CreateUser`
    unfoldable pub create_hashed :
        Bytes → Bytes → AuthDb → Result Bytes Bytes × W → Result AuthError ℕ × AuthState W
    unfolding insert_user
    create_hashed username role db (err e, w) =
        (err (bcrypt_error e), record { db = db; world = w })
    create_hashed username role db (ok hash, w) = elim (insert_user username hash role db) [
      | err e ↦ (err e, record { db = db; world = w })
      | ok db' ↦ (ok db'.last_user, record { db = db'; world = w })
    ]

    -- `CreateUser`
    unfoldable pub create_user :
        Bytes → Bytes → Bytes → AuthState W → Result AuthError ℕ × AuthState W
    unfolding create_hashed
    create_user username password role s =
        if ltb (length password) min_password_len
        then (err short_password, s)
        else create_hashed username role s.db (h.generate password s.world)

    -- the insertion of `CreateInitialAdmin`
    unfoldable pub create_first :
        Bytes → Bytes → AuthDb → Result Bytes Bytes × W → Result AuthError Bytes × AuthState W
    unfolding insert_user
    create_first username password db (err e, w) =
        (err (bcrypt_error e), record { db = db; world = w })
    create_first username password db (ok hash, w) =
        elim (insert_user username hash role_admin db) [
          | err e ↦ (err e, record { db = db; world = w })
          | ok db' ↦ (ok password, record { db = db'; world = w })
        ]

    -- `CreateInitialAdmin`, on the users that there are; the empty text is that there was nothing to do
    unfoldable pub create_initial_from :
        Bytes → List Account → AuthState W → Result AuthError Bytes × AuthState W
    unfolding create_first random_password
    create_initial_from username (a ∷ us) s = (ok [], s)
    create_initial_from username [] s =
        let (password, w) = random_password h 24 s.world in
        create_first username password s.db (h.generate password w)

    -- `CreateInitialAdmin`
    unfoldable pub create_initial_admin : Bytes → AuthState W → Result AuthError Bytes × AuthState W
    unfolding create_initial_from
    create_initial_admin username s = create_initial_from username s.db.users s

    -- the transaction of `ChangePassword`
    unfoldable pub store_password :
        ℕ → AuthDb → Result Bytes Bytes × W → Check AuthError × AuthState W
    unfolding update_user revoke_user_sessions
    store_password id db (err e, w) = (err (bcrypt_error e), record { db = db; world = w })
    store_password id db (ok hash, w) = (
      done,
      revoke_user_sessions id
          (with_users (update_user id (set_hash hash) db.users) (record { db = db; world = w })),
    )

    -- what is done with the account of the id
    unfoldable pub change_found :
        ℕ → Bytes → Bytes → AuthState W → Option Account → Check AuthError × AuthState W
    unfolding store_password
    change_found id old_password new_password s none = (err no_account, s)
    change_found id old_password new_password s (some a) =
        if not (h.compare a.password_hash old_password)
        then (err wrong_password, s)
        else store_password id s.db (h.generate new_password s.world)

    -- `ChangePassword`
    unfoldable pub change_password : ℕ → Bytes → Bytes → AuthState W → Check AuthError × AuthState W
    unfolding change_found find_user
    change_password id old_password new_password s =
        if ltb (length new_password) min_password_len
        then (err short_password, s)
        else change_found id old_password new_password s (find_user id s.db.users)

    -- the transaction of `ResetPassword`
    unfoldable pub store_reset :
        ℕ → Bytes → AuthDb → Result Bytes Bytes × W → Result AuthError Bytes × AuthState W
    unfolding update_user revoke_user_sessions
    store_reset id password db (err e, w) = (err (bcrypt_error e), record { db = db; world = w })
    store_reset id password db (ok hash, w) = (
      ok password,
      revoke_user_sessions id (
          with_users (update_user id (λ a. set_active_to true (set_hash hash a)) db.users)
            (record { db = db; world = w })),
    )

    -- what is done with the account of the name
    unfoldable pub reset_found : AuthState W → Option Account → Result AuthError Bytes × AuthState W
    unfolding store_reset random_password
    reset_found s none = (err no_account, s)
    reset_found s (some a) =
        let (password, w) = random_password h 24 s.world in
        store_reset a.user.id password s.db (h.generate password w)

    -- `ResetPassword`
    unfoldable pub reset_password : Bytes → AuthState W → Result AuthError Bytes × AuthState W
    unfolding reset_found find_name
    reset_password username s = reset_found s (find_name username s.db.users)
