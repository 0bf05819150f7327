-- ===== src/Auth/Limits.antt =====
-- internal/aclweb/auth/auth.go: the rate limit of logins.
pub mod Counted
use acl_edit_only.Base.{
  ℕ, suc, ◌+◌, Bool, true, false, not, ◌&&◌, Option, none, some, List, [], ◌∷◌, ◌++◌, ltb, leb,
  if◌then◌else◌,
}
use acl_edit_only.Base.Text.{Bytes, codes, str_eq}
use acl_edit_only.Auth.Tables.{RateLimit}

abbrev pub max_tries : ℕ
max_tries = 10

-- `rateLimitWindow` in seconds
abbrev pub window : ℕ
window = 300

-- SELECT count, window_end FROM rate_limits WHERE key=?
unfoldable pub find_limit : Bytes → List RateLimit → Option RateLimit
find_limit key [] = none
find_limit key (r ∷ rest) =
    let found = find_limit key rest in if str_eq r.key key then some r else found

-- whether a record stops a login
unfoldable pub limits : ℕ → Option RateLimit → Bool
limits now none = false
limits now (some r) = not (ltb r.window_end now) && leb max_tries r.count

-- `checkRateLimit`: true is ErrRateLimited
unfoldable pub check_rate_limit : ℕ → Bytes → List RateLimit → Bool
unfolding find_limit limits
check_rate_limit now key rs = limits now (find_limit key rs)

-- ON CONFLICT(key) DO UPDATE
unfoldable pub bumped : ℕ → RateLimit → RateLimit
bumped now r = record r {
  count = if ltb r.window_end now then 1 else r.count + 1;
  window_end = if ltb r.window_end now then now + window else r.window_end;
}

unfoldable pub bump : ℕ → Bytes → List RateLimit → List RateLimit
unfolding bumped
bump now key [] = record { key = key; count = 1; window_end = now + window } ∷ []
bump now key (r ∷ rest) =
    let next = bump now key rest in if str_eq r.key key then bumped now r ∷ rest else r ∷ next

-- `incrementRateLimit`
unfoldable pub increment_rate_limit : ℕ → List Bytes → List RateLimit → List RateLimit
unfolding bump
increment_rate_limit now [] rs = rs
increment_rate_limit now (key ∷ keys) rs = increment_rate_limit now keys (bump now key rs)

unfoldable pub delete_limit : Bytes → List RateLimit → List RateLimit
delete_limit key [] = []
delete_limit key (r ∷ rest) =
    let kept = delete_limit key rest in if str_eq r.key key then kept else r ∷ kept

-- `resetRateLimit`
unfoldable pub reset_rate_limit : List Bytes → List RateLimit → List RateLimit
unfolding delete_limit
reset_rate_limit [] rs = rs
reset_rate_limit (key ∷ keys) rs = reset_rate_limit keys (delete_limit key rs)

abbrev pub user_key : Bytes → Bytes
user_key username = codes "user:" ++ username

abbrev pub ip_key : Bytes → Bytes
ip_key remote_ip = codes "ip:" ++ remote_ip

-- the keys of a login
abbrev pub keys_of : Bytes → Bytes → List Bytes
keys_of username remote_ip = user_key username ∷ ip_key remote_ip ∷ []

-- the loop over the keys at the beginning of `Login`
unfoldable pub any_limited : ℕ → List Bytes → List RateLimit → Bool
unfolding check_rate_limit
any_limited now [] rs = false
any_limited now (key ∷ keys) rs =
    let rest = any_limited now keys rs in if check_rate_limit now key rs then true else rest
