-- ===== src/Core/Dispatch/Moves.antt =====
-- DispatchStream of internal/aclweb/core/core.go: where each of its ends leaves the requests.
use acl_edit_only.Base.{
  ℕ, ◌≡◌, ◌≢◌, refl, sym, subst, ◌∙◌, inl, inr, Bool, true, Bool-cases, ==_iff, ◌==◌, some, none,
  Option, List, arith,
}
use acl_edit_only.Base.Int.{ℤ}
use acl_edit_only.Core.Rows.{
  ChangeRequest, RequestState, active, revoked, is_awaiting, is_active, set_state, update_rows,
  find_request,
}
use acl_edit_only.Core.Service.{has_request_id}
use acl_edit_only.Core.Rows.Updates.{updated, find_request-id, find_request-update_rows}
use acl_edit_only.Core.Life.{
  Evolves, here, next, executes, revokes, is_outcome, Follows, state_in, state_of, Evolved,
  Evolved-refl, update-Evolved, state_in-other, state_in-own, state_in-found,
}
use acl_edit_only.Core.Settle.{active_rule}

-- the request `id`, which waited for its execution in `rs`, is the only one that has moved since
pub record Alone (id : ℕ) (rs ss : List ChangeRequest) : Type 0 where
  pub was : RequestState
  pub waited : state_in id rs ≡ some was
  pub awaited : is_awaiting was ≡ true
  pub is_now : RequestState
  pub own : state_in id ss ≡ some is_now
  pub life : Evolved rs ss
  pub others : (j : ℕ) → j ≢ id → state_in j ss ≡ state_in j rs

-- from where it waited, only the request itself has moved
pub moved-Evolved :
    (id : ℕ) (rs ss : List ChangeRequest) (a b : RequestState)
    → state_in id rs ≡ some a
    → is_awaiting a ≡ true
    → state_in id ss ≡ some b
    → is_outcome b ≡ true
    → ((j : ℕ) → j ≢ id → state_in j ss ≡ state_in j rs)
    → Evolved rs ss
moved-Evolved id rs ss a b h₁ h₂ h₃ h₄ others j = elim (Bool-cases (j == id)) [
  | inl e ↦
      subst (λ k. Follows (state_in k rs) (state_in k ss)) (sym ((==_iff j id).0 e))
        (rw h₁ (rw h₃ (next here (executes a b h₂ h₄))))
  | inr e ↦
      subst (λ x. Follows (state_in j rs) x) (sym (others j (λ h. ground (arith, ==_iff j id))))
        (Evolved-refl rs j)
]

-- the update of one state, of the request that moves alone
module _ (id : ℕ) (st : RequestState) (rs ss : List ChangeRequest) (c : Alone id rs ss) where
  pub set_own : state_in id (update_rows (has_request_id id) (set_state st) ss) ≡ some st
  set_own =
      let (r, found, h) = state_in-found id ss c.is_now c.own in
      state_in-own (has_request_id id) (set_state st) (λ x. refl) id ss r found
        ((==_iff r.id id).1 (find_request-id id ss r found))

  pub set_others :
      (j : ℕ)
      → j ≢ id
      → state_in j (update_rows (has_request_id id) (set_state st) ss) ≡ state_in j rs
  set_others j h =
      state_in-other (has_request_id id) (set_state st) (λ x. refl) id j ss
        (λ r e. (==_iff r.id id).0 e) h
      ∙ c.others j h

  pub set-Evolved :
      is_outcome st ≡ true → Evolved rs (update_rows (has_request_id id) (set_state st) ss)
  set-Evolved h = moved-Evolved id rs _ c.was st c.waited c.awaited set_own h set_others

from_active : (a : RequestState) → is_active a ≡ true → Evolves a revoked
from_active active h = next here revokes
from_active _ h = cc h

-- the rules that a deletion revokes
pub revoke-Evolved :
    (rule_id : ℤ) (rs : List ChangeRequest)
    → Evolved rs (update_rows (active_rule rule_id) (set_state revoked) rs)
revoke-Evolved rule_id rs =
    update-Evolved (active_rule rule_id) (set_state revoked) rs (λ r. refl)
      (λ r h. from_active r.state (ground arith))

pub revoked_stays :
    (id : ℕ) (where_ : ChangeRequest → Bool) (rs : List ChangeRequest)
    → state_in id rs ≡ some revoked
    → state_in id (update_rows where_ (set_state revoked) rs) ≡ some revoked
unfolding state_in
revoked_stays id where_ rs h =
    let (r, found, e) = state_in-found id rs revoked h in
    rw (find_request-update_rows where_ (set_state revoked) (λ x. refl) id rs)
      (rw found (ground arith))

-- what a call may do to a request that it does not execute
pub data Untouched : Option RequestState → Option RequestState → Type 0 where
  kept : (a : Option RequestState) → Untouched a a
  loses_rule : Untouched (some active) (some revoked)

pub same-Untouched : (before after : Option RequestState) → after ≡ before → Untouched before after
same-Untouched before after h = subst (λ x. Untouched before x) (sym h) (kept before)

active_only : (a : RequestState) → is_active a ≡ true → a ≡ active
active_only active h = refl
active_only _ h = cc h

pub revoke-Untouched :
    (rule_id : ℤ) (rs : List ChangeRequest) (j : ℕ)
    → Untouched
        (state_in j rs)
        (state_in j (update_rows (active_rule rule_id) (set_state revoked) rs))
unfolding state_in
revoke-Untouched rule_id rs j =
    rw (find_request-update_rows (active_rule rule_id) (set_state revoked) (λ x. refl) j rs)
      (row (find_request j rs))
  where
    row :
        (o : Option ChangeRequest)
        → Untouched (state_of o) (state_of (updated (active_rule rule_id) (set_state revoked) o))
    row none = kept none
    row (some r) = elim (Bool-cases (active_rule rule_id r)) [
      | inl h ↦ rw h (
          subst (λ a. Untouched (some a) (some revoked))
            (sym (active_only r.state (ground (arith, h)))) loses_rule)
      | inr h ↦ rw h (kept (some r.state))
    ]

-- of the other requests, when the own one is updated and a rule is then revoked
pub revoked_others :
    (id : ℕ) (st : RequestState) (rs ss : List ChangeRequest)
    → Alone id rs ss
    → (rule_id : ℤ) (k : ℕ) → k ≢ id
    → Untouched (state_in k rs) (
        state_in k (
          update_rows
            (active_rule rule_id)
            (set_state revoked)
            (update_rows (has_request_id id) (set_state st) ss)))
revoked_others id st rs ss c rule_id k d =
    let own = update_rows (has_request_id id) (set_state st) ss in
    subst
      (λ x. Untouched x (state_in k (update_rows (active_rule rule_id) (set_state revoked) own)))
      (set_others id st rs ss c k d) (revoke-Untouched rule_id own k)
