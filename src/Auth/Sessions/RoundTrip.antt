-- ===== src/Auth/Sessions/RoundTrip.antt =====
-- internal/aclweb/auth/auth.go: the session of a login.
use acl_edit_only.Base.{
  ℕ, ◌+◌, ◌<◌, ◌≡◌, ◌≢◌, refl, sym, ap, subst, ◌∙◌, true, Bool-cases, inl, inr, Option, none, some,
  List, [], ◌∷◌, ◌++◌, arith,
}
use acl_edit_only.Base.Text.{Bytes, str_eq_iff}
use acl_edit_only.Base.Result.{Result, ok, err}
use acl_edit_only.Auth.Tables.{
  Account, LoginSession, AuthDb, AuthHost, AuthState, AuthError, find_name, find_user, find_session,
  update_user, insert_session,
}
use acl_edit_only.Auth.Limits.{keys_of, any_limited}
use acl_edit_only.Auth.Admins.{Ordered, Inv}
use acl_edit_only.Auth.Sessions.{
  owner_of, owner_of_found, validate_session, logged_in, session_ttl, login, judge_login,
  admit_login, start_session, finish_login, refuse,
}

above :
    (name : Bytes) (lo hi : ℕ) (us : List Account) (a : Account)
    → Ordered lo us hi
    → find_name name us ≡ some a
    → lo < a.user.id
unfolding find_name
above name lo hi [] a o h = cc h
above name lo hi (b ∷ us) a o h = ground (arith, above name b.user.id hi us a o.1)

-- the account of a name is the one of its id
find_name-user :
    (name : Bytes) (lo hi : ℕ) (us : List Account) (a : Account)
    → Ordered lo us hi
    → find_name name us ≡ some a
    → find_user a.user.id us ≡ some a
unfolding find_name find_user
find_name-user name lo hi [] a o h = cc h
find_name-user name lo hi (b ∷ us) a o h =
    ground (arith, above name b.user.id hi us a o.1, find_name-user name b.user.id hi us a o.1)

updated_user :
    (id now : ℕ) (us : List Account) (a : Account)
    → find_user id us ≡ some a
    → find_user id (update_user id (logged_in now) us) ≡ some (logged_in now a)
unfolding find_user update_user
updated_user id now [] a h = cc h
updated_user id now (b ∷ us) a h = ground (arith, updated_user id now us a)

found_session :
    (token : Bytes) (ls : List LoginSession) (l : LoginSession)
    → find_session token ls ≡ none
    → l.id ≡ token
    → find_session token (ls ++ l ∷ []) ≡ some l
unfolding find_session
found_session token [] l h e = ground (arith, str_eq_iff l.id token)
found_session token (x ∷ ls) l h e = ground (arith, found_session token ls l)

inserted :
    (token : Bytes) (user_id expires_at : ℕ) (db db' : AuthDb)
    → insert_session token user_id expires_at db ≡ ok db'
    → (find_session token db.sessions ≡ none)
      × (record db {
        sessions =
            db.sessions ++ record { id = token; user_id = user_id; expires_at = expires_at } ∷ [];
      }
          ≡ db')
unfolding insert_session
inserted token user_id expires_at db db' e = ground arith

module _ {W : Type 0} (h : AuthHost W) where
  -- the login was that of the account `a`, and its token is in force
  pub record SignedIn (username password token : Bytes) (us : List Account) (s' : AuthState W)
      : Type 0 where
    pub account : Account
    pub found : find_name username us ≡ some account
    pub active : account.user.active ≡ true
    pub proved : h.compare account.password_hash password ≡ true
    pub valid : validate_session h token s' ≡ ok account.user

  -- the state that a login leaves
  abbrev signed_in : Account → Bytes → W → AuthDb → AuthState W
  signed_in a token w db = record {
    db = record db {
      sessions =
          db.sessions
          ++ record { id = token; user_id = a.user.id; expires_at = h.now w + session_ttl } ∷ [];
      users = update_user a.user.id (logged_in (h.now w)) db.users;
    };
    world = w;
  }

  owned :
      (now : ℕ) (a : Account) (us : List Account) (l : LoginSession)
      → find_user l.user_id us ≡ some a
      → a.user.active ≡ true
      → now < l.expires_at
      → owner_of now us l ≡ ok a.user
  unfolding owner_of
  owned now a us l found act e = rw (found, owner_of) (ground arith)

  signed_in-valid :
      (a : Account) (token : Bytes) (w : W) (db : AuthDb)
      → find_user a.user.id db.users ≡ some a
      → a.user.active ≡ true
      → find_session token db.sessions ≡ none
      → validate_session h token (signed_in a token w db) ≡ ok a.user
  unfolding validate_session owner_of_found
  signed_in-valid a token w db found act free =
      ap (owner_of_found (h.now w) (update_user a.user.id (logged_in (h.now w)) db.users))
        (found_session token db.sessions _ free refl)
      ∙ owned (h.now w) (logged_in (h.now w) a)
          (update_user a.user.id (logged_in (h.now w)) db.users)
          (record { id = token; user_id = a.user.id; expires_at = h.now w + session_ttl })
          (updated_user a.user.id (h.now w) db.users a found) act (omega arith)

  finish_login-valid :
      (a : Account) (token : Bytes) (w : W) (db : AuthDb) (r : Result AuthError AuthDb) (t : Bytes)
      → find_user a.user.id db.users ≡ some a
      → a.user.active ≡ true
      → insert_session token a.user.id (h.now w + session_ttl) db ≡ r
      → (finish_login h a token w db r).0 ≡ ok t
      → validate_session h t (finish_login h a token w db r).1 ≡ ok a.user
  unfolding finish_login
  finish_login-valid a token w db (err e) t found act k g = absurd (cc g)
  finish_login-valid a token w db (ok db') t found act k g =
      let (free, is_new) = inserted token a.user.id (h.now w + session_ttl) db db' k in
      subst
        (λ d.
          validate_session h t (record {
            db = record d { users = update_user a.user.id (logged_in (h.now w)) d.users };
            world = w;
          })
          ≡ ok a.user)
        is_new
        (subst (λ x. validate_session h x (signed_in a token w db) ≡ ok a.user) (ground arith)
          (signed_in-valid a token w db found act free))

  refused : (username ip t : Bytes) (s : AuthState W) → (refuse h username ip s).0 ≢ ok t
  unfolding refuse
  refused username ip t s g = cc g

  admit_login-valid :
      (username ip t : Bytes) (a : Account) (s : AuthState W)
      → find_user a.user.id s.db.users ≡ some a
      → a.user.active ≡ true
      → (admit_login h username ip a s).0 ≡ ok t
      → validate_session h t (admit_login h username ip a s).1 ≡ ok a.user
  unfolding admit_login start_session
  admit_login-valid username ip t a s found act g = finish_login-valid a _ _ _ _ t found act refl g

  judged-found :
      (username password ip t : Bytes) (s : AuthState W) (a : Account)
      → (judge_login h username password ip s (some a)).0 ≡ ok t
      → (a.user.active ≡ true)
        × (h.compare a.password_hash password ≡ true)
        × (judge_login h username password ip s (some a) ≡ admit_login h username ip a s)
  unfolding judge_login
  judged-found username password ip t s a g = ground (arith, refused username ip t s)

  judged :
      (username password ip t : Bytes) (s : AuthState W) (o : Option Account)
      → Inv s.db
      → find_name username s.db.users ≡ o
      → (judge_login h username password ip s o).0 ≡ ok t
      → SignedIn username password t s.db.users (judge_login h username password ip s o).1
  unfolding judge_login
  judged username password ip t s none v e g = absurd (refused username ip t s g)
  judged username password ip t s (some a) v e g =
      let (act, same, k) = judged-found username password ip t s a g in
      record {
        account = a;
        found = e;
        active = act;
        proved = same;
        valid =
            subst (λ x. validate_session h t x.1 ≡ ok a.user) (sym k)
              (admit_login-valid username ip t a s
                (find_name-user username 0 s.db.last_user s.db.users a v.ordered e) act
                (subst (λ x. x.0 ≡ ok t) k g));
      }

  -- Where the ids of the users ascend up to the last one that was given and an administrator is active,
  -- a login that returns a token was of an active account of that name whose password hash the password
  -- matches, and the token is then valid for that account.
  pub login-validate_session :
      (username password ip token : Bytes) (s : AuthState W)
      → Inv s.db
      → (login h username password ip s).0 ≡ ok token
      → SignedIn username password token s.db.users (login h username password ip s).1
  unfolding login
  login-validate_session username password ip token s v g =
      elim (Bool-cases (any_limited (h.now s.world) (keys_of username ip) s.db.rate_limits)) [
        | inl e ↦ absurd (ground arith)
        | inr e ↦ rw e (
            judged username password ip token s (find_name username s.db.users) v refl
              (ground arith))
      ]
