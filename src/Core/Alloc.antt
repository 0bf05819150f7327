-- ===== src/Core/Alloc.antt =====
-- Rule-ID allocation: `allocateRuleID` and `occupiedIDs` of internal/aclweb/core/core.go.
pub mod Fresh
use acl_edit_only.Base.{ℕ, suc, ◌+◌, Bool, ◌&&◌, List, [], ◌∷◌, ltb, if◌then◌else◌}
use acl_edit_only.Base.Text.{Bytes}
use acl_edit_only.Base.Decimal.{atoi_value}
use acl_edit_only.Base.Int.{ℤ, pos, leb_ℤ, ltb_ℤ}
use acl_edit_only.Base.Result.{Result, ok, err, ◌>>=◌}
use acl_edit_only.Base.Regex.{find_all_groups}
use acl_edit_only.Aclout.{IdSet, has_id, add_id, rule_line_re, CountError, count}

pub data AllocError : Type 0 where
  unread : CountError → AllocError
  exhausted occupied : ℕ → AllocError

abbrev pub in_window : ℤ → ℤ → ℕ → Bool
in_window lo hi id = leb_ℤ lo (pos id) && leb_ℤ (pos id) hi

unfoldable pub collect_window : ℤ → ℤ → List Bytes → IdSet → IdSet
unfolding add_id
collect_window lo hi [] ids = ids
collect_window lo hi (m ∷ ms) ids =
    let id = atoi_value m in
    collect_window lo hi ms (if in_window lo hi id then add_id id ids else ids)

-- `occupiedIDs`; its `ruleLineRe` is that of package aclout
unfoldable pub occupied_ids : Bytes → ℤ → ℤ → IdSet
unfolding collect_window
occupied_ids raw lo hi = collect_window lo hi (find_all_groups rule_line_re raw) []

-- the loop for `maxID`, which begins at 0
unfoldable pub max_id : ℕ → IdSet → ℕ
max_id m [] = m
max_id m (id ∷ ids) = max_id (if ltb m id then id else m) ids

-- what follows the loop
unfoldable pub choose_next : IdSet → ℤ → Result AllocError ℤ
unfolding max_id
choose_next ids alloc_max =
    let next = max_id 0 ids + 1 in
    if ltb_ℤ alloc_max (pos next)
    then err (exhausted (max_id 0 ids))
    else if has_id next ids
    then err (occupied next)
    else ok (pos next)

abbrev pub choose : IdSet → ℤ → ℤ → Result AllocError ℤ
choose [] range_min alloc_max = ok range_min
choose (id ∷ ids) range_min alloc_max = choose_next (id ∷ ids) alloc_max

unfoldable pub allocate_rule_id : Bytes → ℤ → ℤ → ℤ → Result AllocError ℤ
allocate_rule_id raw acl_num range_min alloc_max = elim (count raw acl_num) [
  | err e ↦ err (unread e)
  | ok n ↦ choose (occupied_ids raw range_min alloc_max) range_min alloc_max
]
