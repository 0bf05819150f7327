-- ===== src/Auth/Limits/Counted.antt =====
-- internal/aclweb/auth/auth.go: how many passwords the rate limit lets anyone try for a user.
use acl_edit_only.Base.{
  ℕ, suc, ◌+◌, ◌-◌, ◌≤◌, ◌<◌, ◌≡◌, refl, sym, subst, ◌∙◌, ◌⊎◌, inl, inr, Bool, true, false, Option,
  none, some, List, [], ◌∷◌, All, ltb, not, arith,
}
use acl_edit_only.Base.Text.{Bytes, str_eq, str_eq_iff}
use acl_edit_only.Base.Result.{Result, ok, err}
use acl_edit_only.Auth.Tables.{
  RateLimit, Account, AuthHost, AuthState, AuthError, rate_limited, find_name,
}
use acl_edit_only.Auth.Limits.{
  max_tries, window, find_limit, limits, check_rate_limit, bumped, bump, increment_rate_limit,
  user_key, ip_key, keys_of, any_limited,
}
use acl_edit_only.Auth.Sessions.{refuse, judge_login, login}

-- the record of a key after it has been counted
abbrev pub counted : ℕ → Bytes → Option RateLimit → RateLimit
counted now key none = record { key = key; count = 1; window_end = now + window }
counted now key (some r) = bumped now r

find_limit-bump_own :
    (now : ℕ) (key : Bytes) (rs : List RateLimit)
    → find_limit key (bump now key rs) ≡ some (counted now key (find_limit key rs))
unfolding find_limit bump bumped
find_limit-bump_own now key [] = ground (arith, str_eq_iff key key)
find_limit-bump_own now key (r ∷ rs) = ground (arith, find_limit-bump_own now key rs)

find_limit-bump_other :
    (now : ℕ) (key other : Bytes) (rs : List RateLimit)
    → str_eq other key ≡ false
    → find_limit key (bump now other rs) ≡ find_limit key rs
unfolding find_limit bump bumped
find_limit-bump_other now key other [] h = ground arith
find_limit-bump_other now key other (r ∷ rs) h = ground (
  arith,
  find_limit-bump_other now key other rs h,
  str_eq_iff r.key key,
  str_eq_iff r.key other,
  str_eq_iff other key,
)

keys_differ : (username ip : Bytes) → str_eq (ip_key ip) (user_key username) ≡ false
unfolding str_eq
keys_differ username ip = refl

-- what a login that fails does to the record of its user
find_limit-increment :
    (now : ℕ) (username ip : Bytes) (rs : List RateLimit)
    → find_limit (user_key username) (increment_rate_limit now (keys_of username ip) rs)
      ≡ some (counted now (user_key username) (find_limit (user_key username) rs))
unfolding increment_rate_limit
find_limit-increment now username ip rs =
    find_limit-bump_other now (user_key username) (ip_key ip) _ (keys_differ username ip)
    ∙ find_limit-bump_own now (user_key username) rs

-- `c` failures have been counted in a window that is open from `start` on, or none
abbrev Counts : ℕ → ℕ → Option RateLimit → Type 0
Counts start c none = c ≡ 0
Counts start c (some r) =
    ((c ≡ 0) × (r.window_end < start)) ⊎ ((r.count ≡ c) × (start + window ≤ r.window_end))

-- whether a window is open
abbrev pub limits_open : ℕ → Option RateLimit → Bool
limits_open now none = false
limits_open now (some r) = not (ltb r.window_end now)

closed-Counts : (start : ℕ) (o : Option RateLimit) → limits_open start o ≡ false → Counts start 0 o
closed-Counts start none h = refl
closed-Counts start (some r) h = inl (refl, ground arith)

Counts-counted :
    (start c now : ℕ) (key : Bytes) (o : Option RateLimit)
    → start ≤ now
    → now ≤ start + window
    → limits now o ≡ false
    → Counts start c o
    → (c < max_tries) × Counts start (c + 1) (some (counted now key o))
unfolding limits bumped
Counts-counted start c now key none h₁ h₂ h₃ k = ground arith
Counts-counted start c now key (some r) h₁ h₂ h₃ k = ground arith

user_not_limited :
    (now : ℕ) (username ip : Bytes) (rs : List RateLimit)
    → any_limited now (keys_of username ip) rs ≡ false
    → limits now (find_limit (user_key username) rs) ≡ false
unfolding any_limited check_rate_limit
user_not_limited now username ip rs h = ground arith

module _ {W : Type 0} (h : AuthHost W) (username : Bytes) where
  -- a login that is made while the outside world is the one that is given
  abbrev pub Attempt : Type 0
  Attempt = Bytes × Bytes × W

  abbrev tally : Result AuthError Bytes × AuthState W → (AuthState W → ℕ) → ℕ
  tally (err rate_limited, s) rest = rest s
  tally (ok token, s) rest = suc (rest s)
  tally (err _, s) rest = suc (rest s)

  -- how many of the logins in a row come to the test of the password
  unfoldable pub tested : List Attempt → AuthState W → ℕ
  tested [] s = 0
  tested ((password, ip, w) ∷ rest) s =
      tally (login h username password ip (record s { world = w })) (tested rest)

  -- the password is not the one of the user, or the user is not there or not active
  abbrev pub IsWrong : List Account → Attempt → Type 0
  IsWrong us (password, ip, w) =
      (a : Account)
      → find_name username us ≡ some a
      → a.user.active ≡ true
      → h.compare a.password_hash password ≡ false

  abbrev pub IsWithin : ℕ → Attempt → Type 0
  IsWithin start (password, ip, w) = (start ≤ h.now w) × (h.now w ≤ start + window)

  wrong_refused :
      (password ip : Bytes) (s : AuthState W) (o : Option Account)
      → ((a : Account)
          → o ≡ some a
          → a.user.active ≡ true
          → h.compare a.password_hash password ≡ false)
      → judge_login h username password ip s o ≡ refuse h username ip s
  unfolding judge_login
  wrong_refused password ip s none wrong = refl
  wrong_refused password ip s (some a) wrong = ground (arith, wrong a refl)

  login_cases :
      (password ip : Bytes) (s : AuthState W)
      → IsWrong s.db.users (password, ip, s.world)
      → (login h username password ip s ≡ (err rate_limited, s))
        ⊎ ((any_limited (h.now s.world) (keys_of username ip) s.db.rate_limits ≡ false)
            × (login h username password ip s ≡ refuse h username ip s))
  unfolding login
  login_cases password ip s wrong =
      ground (arith, wrong_refused password ip s (find_name username s.db.users) wrong)

  tested_bounded :
      (cs : List Attempt) (start c : ℕ) (s : AuthState W)
      → All (IsWrong s.db.users) cs
      → All (IsWithin start) cs
      → Counts start c (find_limit (user_key username) s.db.rate_limits)
      → tested cs s ≤ max_tries - c
  unfolding tested refuse
  tested_bounded [] start c s wrong within k = omega arith
  tested_bounded ((password, ip, w) ∷ cs) start c s wrong within k =
      elim (login_cases password ip (record s { world = w }) wrong.0) [
        | inl e ↦ rw e (tested_bounded cs start c (record s { world = w }) wrong.1 within.1 k)
        | inr (free, e) ↦
            let (few, next) =
              Counts-counted start c (h.now w) (user_key username) _ within.0.0 within.0.1
                (user_not_limited (h.now w) username ip s.db.rate_limits free) k in
            rw e (
              omega (
                arith,
                few,
                tested_bounded cs start (c + 1) (refuse h username ip (record s { world = w })).1
                    wrong.1 within.1
                    (subst (Counts start (c + 1))
                      (sym (find_limit-increment (h.now w) username ip s.db.rate_limits)) next),
              ))
      ]

  -- Whatever the addresses they come from, of any number of logins for one user with wrong passwords
  -- within 300 seconds, no more than 10 come to the test of the password, where no window of that user
  -- was open at the start.
  pub tested_max :
      (cs : List Attempt) (start : ℕ) (s : AuthState W)
      → All (IsWrong s.db.users) cs
      → All (IsWithin start) cs
      → limits_open start (find_limit (user_key username) s.db.rate_limits) ≡ false
      → tested cs s ≤ max_tries
  tested_max cs start s wrong within closed =
      tested_bounded cs start 0 s wrong within (closed-Counts start _ closed)
