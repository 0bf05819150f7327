-- ===== src/Auth/Kept.antt =====
-- internal/aclweb/auth/auth.go: that each call keeps the ids distinct and an administrator active.
use acl_edit_only.Base.{
  ℕ, ◌+◌, ◌≡◌, refl, subst, Bool, true, false, Bool-cases, inl, inr, Option, none, some, List, [],
  ◌∷◌, arith,
}
use acl_edit_only.Base.Text.{Bytes}
use acl_edit_only.Base.Result.{Result, ok, err}
use acl_edit_only.Auth.Tables.{
  Account, AuthDb, AuthHost, AuthState, AuthError, find_name, find_user, set_active_to, insert_user,
  with_new_user, insert_session,
}
use acl_edit_only.Auth.Users.{
  is_last_admin, set_hash, deactivate, set_active, create_hashed, create_user, store_password,
  change_found, change_password, store_reset, reset_password, reset_found, revoke_user_sessions,
  create_initial_from,
}
use acl_edit_only.Auth.Sessions.{
  login, judge_login, admit_login, start_session, finish_login, refuse, logged_in, session_ttl,
}
use acl_edit_only.Auth.Admins.{Inv, update_user-Inv, new_user-Inv, deactivated-Inv}

module _ {W : Type 0} (h : AuthHost W) where
  inserted_is :
      (username hash role : Bytes) (db db' : AuthDb)
      → insert_user username hash role db ≡ ok db'
      → with_new_user username hash role db ≡ db'
  unfolding insert_user
  inserted_is username hash role db db' e = ground arith

  insert_user-Inv :
      (username hash role : Bytes) (db db' : AuthDb)
      → Inv db
      → insert_user username hash role db ≡ ok db'
      → Inv db'
  insert_user-Inv username hash role db db' v e =
      subst Inv (inserted_is username hash role db db' e) (new_user-Inv username hash role db v)

  create_hashed-Inv :
      (username role : Bytes) (db : AuthDb) (x : Result Bytes Bytes × W)
      → Inv db
      → Inv (create_hashed h username role db x).1.db
  unfolding create_hashed
  create_hashed-Inv username role db (err e, w) v = v
  create_hashed-Inv username role db (ok hash, w) v =
      inserted (insert_user username hash role db) refl
    where
      inserted :
          (r : Result AuthError AuthDb)
          → insert_user username hash role db ≡ r
          → Inv
              (elim r as (λ x. Result AuthError ℕ × AuthState W) [
                | err e ↦ (err e, record { db = db; world = w })
                | ok db' ↦ (ok db'.last_user, record { db = db'; world = w })
              ]).1.db
      inserted (err e) k = v
      inserted (ok db') k = insert_user-Inv username hash role db db' v k

  pub create_user-Inv :
      (username password role : Bytes) (s : AuthState W)
      → Inv s.db
      → Inv (create_user h username password role s).1.db
  unfolding create_user
  create_user-Inv username password role s v =
      ground (arith, create_hashed-Inv username role s.db (h.generate password s.world) v)

  -- with an administrator there, the first one is not made again
  pub initial-Inv :
      (username : Bytes) (us : List Account) (s : AuthState W)
      → s.db.users ≡ us
      → Inv s.db
      → Inv (create_initial_from h username us s).1.db
  unfolding create_initial_from
  initial-Inv username [] s e v = absurd (ground (arith, v.admin))
  initial-Inv username (a ∷ us) s e v = v

  deactivate-Inv :
      (id : ℕ) (s : AuthState W) (o : Option Account)
      → find_user id s.db.users ≡ o
      → Inv s.db
      → Inv (deactivate id s o).1.db
  unfolding deactivate revoke_user_sessions
  deactivate-Inv id s none e v = v
  deactivate-Inv id s (some a) e v = elim (Bool-cases (is_last_admin a s.db.users)) [
    | inl k ↦ rw k v
    | inr k ↦
        rw k (
          let u = deactivated-Inv id s.db a e k v in
          record { ordered = u.ordered; admin = u.admin })
  ]

  pub set_active-Inv :
      (actor target : ℕ) (b : Bool) (s : AuthState W)
      → Inv s.db
      → Inv (set_active actor target b s).1.db
  unfolding set_active
  set_active-Inv actor target true s v =
      update_user-Inv target (set_active_to true) s.db (λ a. refl) (λ a k. ground arith) v
  set_active-Inv actor target false s v =
      ground (arith, deactivate-Inv target s (find_user target s.db.users) refl v)

  store_password-Inv :
      (id : ℕ) (db : AuthDb) (x : Result Bytes Bytes × W)
      → Inv db
      → Inv (store_password h id db x).1.db
  unfolding store_password revoke_user_sessions
  store_password-Inv id db (err e, w) v = v
  store_password-Inv id db (ok hash, w) v =
      let u = update_user-Inv id (set_hash hash) db (λ a. refl) (λ a k. k) v in
      record { ordered = u.ordered; admin = u.admin }

  change_found-Inv :
      (id : ℕ) (old new : Bytes) (s : AuthState W) (o : Option Account)
      → Inv s.db
      → Inv (change_found h id old new s o).1.db
  unfolding change_found
  change_found-Inv id old new s none v = v
  change_found-Inv id old new s (some a) v =
      ground (arith, store_password-Inv id s.db (h.generate new s.world) v)

  pub change_password-Inv :
      (id : ℕ) (old new : Bytes) (s : AuthState W)
      → Inv s.db
      → Inv (change_password h id old new s).1.db
  unfolding change_password
  change_password-Inv id old new s v =
      ground (arith, change_found-Inv id old new s (find_user id s.db.users) v)

  store_reset-Inv :
      (id : ℕ) (password : Bytes) (db : AuthDb) (x : Result Bytes Bytes × W)
      → Inv db
      → Inv (store_reset h id password db x).1.db
  unfolding store_reset revoke_user_sessions
  store_reset-Inv id password db (err e, w) v = v
  store_reset-Inv id password db (ok hash, w) v =
      let u =
        update_user-Inv id (λ a. set_active_to true (set_hash hash a)) db (λ a. refl)
          (λ a k. ground arith) v in
      record { ordered = u.ordered; admin = u.admin }

  reset_found-Inv : (s : AuthState W) (o : Option Account) → Inv s.db → Inv (reset_found h s o).1.db
  unfolding reset_found
  reset_found-Inv s none v = v
  reset_found-Inv s (some a) v = store_reset-Inv a.user.id _ s.db _ v

  pub reset_password-Inv :
      (username : Bytes) (s : AuthState W) → Inv s.db → Inv (reset_password h username s).1.db
  unfolding reset_password
  reset_password-Inv username s v = reset_found-Inv s (find_name username s.db.users) v

  -- what is stored of a login leaves the users as they are
  inserted_session :
      (token : Bytes) (user_id expires_at : ℕ) (db db' : AuthDb)
      → insert_session token user_id expires_at db ≡ ok db'
      → (db'.users ≡ db.users) × (db'.last_user ≡ db.last_user)
  unfolding insert_session
  inserted_session token user_id expires_at db db' e = ground arith

  finish_login-Inv :
      (a : Account) (token : Bytes) (w : W) (db : AuthDb) (r : Result AuthError AuthDb)
      → insert_session token a.user.id (h.now w + session_ttl) db ≡ r
      → Inv db
      → Inv (finish_login h a token w db r).1.db
  unfolding finish_login
  finish_login-Inv a token w db (err e) k v = v
  finish_login-Inv a token w db (ok db') k v =
      let (e₁, e₂) = inserted_session token a.user.id (h.now w + session_ttl) db db' k in
      let u =
        update_user-Inv a.user.id (logged_in (h.now w)) db' (λ x. refl) (λ x g. g)
          (record { ordered = rw e₁ (rw e₂ v.ordered); admin = rw e₁ v.admin }) in
      record { ordered = u.ordered; admin = u.admin }

  refuse-Inv :
      (username ip : Bytes) (s : AuthState W) → Inv s.db → Inv (refuse h username ip s).1.db
  unfolding refuse
  refuse-Inv username ip s v = record { ordered = v.ordered; admin = v.admin }

  admit_login-Inv :
      (username ip : Bytes) (a : Account) (s : AuthState W)
      → Inv s.db
      → Inv (admit_login h username ip a s).1.db
  unfolding admit_login start_session
  admit_login-Inv username ip a s v =
      finish_login-Inv a _ _ _ _ refl (record { ordered = v.ordered; admin = v.admin })

  judge_login-Inv :
      (username password ip : Bytes) (s : AuthState W) (o : Option Account)
      → Inv s.db
      → Inv (judge_login h username password ip s o).1.db
  unfolding judge_login
  judge_login-Inv username password ip s none v = refuse-Inv username ip s v
  judge_login-Inv username password ip s (some a) v =
      ground (arith, refuse-Inv username ip s v, admit_login-Inv username ip a s v)

  pub login-Inv :
      (username password ip : Bytes) (s : AuthState W)
      → Inv s.db
      → Inv (login h username password ip s).1.db
  unfolding login
  login-Inv username password ip s v =
      ground (arith, judge_login-Inv username password ip s (find_name username s.db.users) v)
