-- ===== src/Auth/Sessions/Revoked.antt =====
-- internal/aclweb/auth/auth.go: which calls end the sessions of a user.
use acl_edit_only.Base.{
  ℕ, ◌≡◌, ◌≢◌, refl, sym, ap, subst, ◌∙◌, false, Bool-cases, inl, inr, Option, none, some, List, [],
  ◌∷◌, ◌==◌, ltb, ◌&&◌, length, if◌then◌else◌, arith,
}
use acl_edit_only.Base.Text.{Bytes, str_eq}
use acl_edit_only.Base.Result.{Result, ok, err, done}
use acl_edit_only.Auth.Tables.{
  User, Account, LoginSession, AuthDb, AuthHost, AuthState, AuthError, session_expired, find_name,
  find_user, find_session, delete_sessions, of_user,
}
use acl_edit_only.Auth.Admins.{find_user-id}
use acl_edit_only.Auth.Users.{
  revoke_user_sessions, deactivate, set_active, store_password, change_found, change_password,
  min_password_len, store_reset, reset_found, reset_password, is_last_admin,
}
use acl_edit_only.Auth.Sessions.{owner_of, owner_of_found, validate_session, logout}

-- a session that is left is not of the user
left_session :
    (id : ℕ) (token : Bytes) (ls : List LoginSession) (l : LoginSession)
    → find_session token (delete_sessions (of_user id) ls) ≡ some l
    → l.user_id ≢ id
unfolding find_session delete_sessions
left_session id token [] l h = cc h
left_session id token (x ∷ ls) l h = ground (arith, left_session id token ls l)

logged_out :
    (token : Bytes) (ls : List LoginSession)
    → find_session token (delete_sessions (λ l. str_eq l.id token) ls) ≡ none
unfolding find_session delete_sessions
logged_out token [] = refl
logged_out token (x ∷ ls) = ground (arith, logged_out token ls)

-- the owner of a session is the user that it was made for
owner_of-id :
    (now : ℕ) (us : List Account) (l : LoginSession) (u : User)
    → owner_of now us l ≡ ok u
    → u.id ≡ l.user_id
unfolding owner_of
owner_of-id now us l u h = owned (find_user l.user_id us) refl h
  where
    owned :
        (o : Option Account)
        → find_user l.user_id us ≡ o
        → (elim o as (λ x. Result AuthError User) [
          | none ↦ err session_expired
          | some a ↦
              if ltb now l.expires_at && a.user.active then ok a.user else err session_expired
        ])
          ≡ ok u
        → u.id ≡ l.user_id
    owned none k g = cc g
    owned (some a) k g = ground (arith, find_user-id l.user_id us a k)

validated :
    (now : ℕ) (us : List Account) (id : ℕ) (u : User) (o : Option LoginSession)
    → ((l : LoginSession) → o ≡ some l → l.user_id ≢ id)
    → owner_of_found now us o ≡ ok u
    → u.id ≢ id
unfolding owner_of_found
validated now us id u none k g e = cc g
validated now us id u (some l) k g e = k l refl (sym (owner_of-id now us l u g) ∙ e)

module _ {W : Type 0} (h : AuthHost W) where
  -- no token is that of the user
  abbrev pub SignedOut : ℕ → AuthState W → Type 0
  SignedOut id s = (token : Bytes) (u : User) → validate_session h token s ≡ ok u → u.id ≢ id

  revoke_user_sessions-SignedOut :
      (id : ℕ) (s : AuthState W) → SignedOut id (revoke_user_sessions id s)
  unfolding revoke_user_sessions validate_session
  revoke_user_sessions-SignedOut id s token u g =
      validated (h.now s.world) s.db.users id u _ (left_session id token s.db.sessions) g

  deactivate-SignedOut :
      (id : ℕ) (s : AuthState W) (o : Option Account)
      → (deactivate id s o).0 ≡ done
      → SignedOut id (deactivate id s o).1
  unfolding deactivate
  deactivate-SignedOut id s none e = absurd (cc e)
  deactivate-SignedOut id s (some a) e = elim (Bool-cases (is_last_admin a s.db.users)) [
    | inl k ↦ absurd (ground arith)
    | inr k ↦ rw k (revoke_user_sessions-SignedOut id _)
  ]

  store_password-SignedOut :
      (id : ℕ) (db : AuthDb) (x : Result Bytes Bytes × W)
      → (store_password h id db x).0 ≡ done
      → SignedOut id (store_password h id db x).1
  unfolding store_password
  store_password-SignedOut id db (err e, w) k = absurd (cc k)
  store_password-SignedOut id db (ok hash, w) k = revoke_user_sessions-SignedOut id _

  change_found-SignedOut :
      (id : ℕ) (old new : Bytes) (s : AuthState W) (o : Option Account)
      → (change_found h id old new s o).0 ≡ done
      → SignedOut id (change_found h id old new s o).1
  unfolding change_found
  change_found-SignedOut id old new s none k = absurd (cc k)
  change_found-SignedOut id old new s (some a) k =
      elim (Bool-cases (h.compare a.password_hash old)) [
        | inl e ↦ rw e (store_password-SignedOut id s.db (h.generate new s.world) (ground arith))
        | inr e ↦ absurd (ground arith)
      ]

  change_password-SignedOut :
      (id : ℕ) (old new : Bytes) (s : AuthState W)
      → (change_password h id old new s).0 ≡ done
      → SignedOut id (change_password h id old new s).1
  unfolding change_password
  change_password-SignedOut id old new s k = elim (Bool-cases (ltb (length new) min_password_len)) [
    | inl e ↦ absurd (ground arith)
    | inr e ↦ rw e (change_found-SignedOut id old new s (find_user id s.db.users) (ground arith))
  ]

  store_reset-SignedOut :
      (id : ℕ) (password : Bytes) (db : AuthDb) (x : Result Bytes Bytes × W) (p : Bytes)
      → (store_reset h id password db x).0 ≡ ok p
      → SignedOut id (store_reset h id password db x).1
  unfolding store_reset
  store_reset-SignedOut id password db (err e, w) p k = absurd (cc k)
  store_reset-SignedOut id password db (ok hash, w) p k = revoke_user_sessions-SignedOut id _

  reset_found-SignedOut :
      (s : AuthState W) (a : Account) (p : Bytes)
      → (reset_found h s (some a)).0 ≡ ok p
      → SignedOut a.user.id (reset_found h s (some a)).1
  unfolding reset_found
  reset_found-SignedOut s a p k = store_reset-SignedOut a.user.id _ s.db _ p k

  set_active-SignedOut :
      (actor id : ℕ) (s : AuthState W)
      → (set_active actor id false s).0 ≡ done
      → SignedOut id (set_active actor id false s).1
  unfolding set_active
  set_active-SignedOut actor id s k = elim (Bool-cases (actor == id)) [
    | inl e ↦ absurd (ground arith)
    | inr e ↦ rw e (deactivate-SignedOut id s (find_user id s.db.users) (ground arith))
  ]

  reset_password-SignedOut :
      (username : Bytes) (s : AuthState W) (a : Account) (p : Bytes)
      → find_name username s.db.users ≡ some a
      → (reset_password h username s).0 ≡ ok p
      → SignedOut a.user.id (reset_password h username s).1
  unfolding reset_password
  reset_password-SignedOut username s a p e k =
      rw e (reset_found-SignedOut s a p (subst (λ o. (reset_found h s o).0 ≡ ok p) e k))

  -- Right after a deactivation, a change or a reset of the password that succeeds, no token is valid for
  -- the user, and after a logout its token is not valid for anyone.
  pub sessions_revoked :
      (s : AuthState W)
      → ((actor id : ℕ)
          → (set_active actor id false s).0 ≡ done
          → SignedOut id (set_active actor id false s).1)
        × ((id : ℕ) (old new : Bytes)
            → (change_password h id old new s).0 ≡ done
            → SignedOut id (change_password h id old new s).1)
        × ((username : Bytes) (a : Account) (p : Bytes)
            → find_name username s.db.users ≡ some a
            → (reset_password h username s).0 ≡ ok p
            → SignedOut a.user.id (reset_password h username s).1)
        × ((token : Bytes) → validate_session h token (logout token s) ≡ err session_expired)
  unfolding validate_session logout owner_of_found
  sessions_revoked s = (
    λ actor id k. set_active-SignedOut actor id s k,
    λ id old new k. change_password-SignedOut id old new s k,
    λ username a p e k. reset_password-SignedOut username s a p e k,
    λ token. ap (owner_of_found (h.now s.world) s.db.users) (logged_out token s.db.sessions),
  )
