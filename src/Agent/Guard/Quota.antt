-- ===== src/Agent/Guard/Quota.antt =====
-- The daily limit of cmd/aclagent/main.go.
use acl_edit_only.Base.{
  ℕ, zero, suc, leb, if◌then◌else◌, ◌+◌, ◌-◌, ◌≡◌, ◌∙◌, ap, false, Option, none, some, arith,
}
use acl_edit_only.Base.Text.{Bytes, str_eq, str_eq_refl}
use acl_edit_only.Base.Int.{ℤ, pos}
use acl_edit_only.Agent.Guard.{AgentState, check_and_increment_quota}

-- an attempt, and what is counted after it
abbrev pub tried : (AgentState → ℕ) → AgentState → Option AgentState → ℕ
tried rest st none = rest st
tried rest st (some st') = suc (rest st')

-- how many of `n` attempts in a row on one day are let through
unfoldable pub let_through : ℤ → Bytes → ℕ → AgentState → ℕ
let_through daily_limit today zero st = 0
let_through daily_limit today (suc n) st =
    tried (let_through daily_limit today n) st (check_and_increment_quota daily_limit today st)

today_step :
    (limit k : ℕ) (today : Bytes)
    → check_and_increment_quota (pos limit) today (record { date = today; count = pos k })
      ≡ (if leb limit k then none else some (record { date = today; count = pos (k + 1) }))
unfolding check_and_increment_quota
today_step limit k today = rw (str_eq_refl today) (ground arith)

-- with what the state counts today already
let_through_today :
    (limit n k : ℕ) (today : Bytes)
    → let_through (pos limit) today n (record { date = today; count = pos k })
      ≡ (if leb n (limit - k) then n else limit - k)
unfolding let_through
let_through_today limit zero k today = ground arith
let_through_today limit (suc n) k today =
    ap (tried (let_through (pos limit) today n) (record { date = today; count = pos k }))
      (today_step limit k today)
    ∙ ground (arith, let_through_today limit n k today, let_through_today limit n (k + 1) today)

first_step :
    (limit : ℕ) (today : Bytes) (st : AgentState)
    → str_eq st.date today ≡ false
    → check_and_increment_quota (pos limit) today st
      ≡ (if leb limit 0 then none else some (record { date = today; count = pos 1 }))
unfolding check_and_increment_quota
first_step limit today st h = rw h (ground arith)

-- Of any number of attempts on a day that the stored state is not of, exactly as many are let through
-- as the daily limit allows.
pub let_through_lem :
    (limit n : ℕ) (today : Bytes) (st : AgentState)
    → str_eq st.date today ≡ false
    → let_through (pos limit) today n st ≡ (if leb n limit then n else limit)
unfolding let_through
let_through_lem limit zero today st h = ground arith
let_through_lem limit (suc n) today st h =
    ap (tried (let_through (pos limit) today n) st) (first_step limit today st h)
    ∙ ground (arith, let_through_lem limit n today st h, let_through_today limit n 1 today)
