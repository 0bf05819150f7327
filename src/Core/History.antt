-- ===== src/Core/History.antt =====
-- Histories of calls of the service of internal/aclweb/core/core.go, each of them as a whole.
use acl_edit_only.Base.{
  ℕ, ◌≡◌, refl, ap, subst, Bool, false, List, [], ◌∷◌, Option, none, some, arith,
}
use acl_edit_only.Base.Text.{Bytes}
use acl_edit_only.Core.Rows.{User, RequestState, pending, active, is_awaiting, is_active}
use acl_edit_only.Core.Request.{SubmitRequest}
use acl_edit_only.Core.Spawn.{Machine, ServiceConfig}
use acl_edit_only.Core.Service.{State, approve, reject}
use acl_edit_only.Core.Service.Reviewed.{approve-Evolved, reject-Evolved}
use acl_edit_only.Core.Submit.{submit}
use acl_edit_only.Core.Deletion.{submit_delete}
use acl_edit_only.Core.Submit.Evolve.{submit-Evolved, submit_delete-Evolved}
use acl_edit_only.Core.Dispatch.{dispatch_stream}
use acl_edit_only.Core.Reconcile.{reconcile_rules}
use acl_edit_only.Core.Reconcile.Compared.{reconcile_rules_iff}
use acl_edit_only.Core.Dispatch.Ended.{dispatch_stream-Ends}
use acl_edit_only.Core.Life.{
  Evolves, here, next, Move, executes, Follows, state_in, Evolved, Evolved-refl, Evolved-trans,
  same-Evolved,
}

-- one call that an HTTP handler makes
pub data Call : Type 0 where
  submits : User → SubmitRequest → Call
  submits_deletion : User → ℕ → Bytes → Call
  approves_id rejects_id : User → ℕ → Bytes → Call
  dispatches : Bool → User → ℕ → Call
  reconciles : Call

-- no move leaves a final state
not_moved : (a b : RequestState) → is_awaiting a ≡ false → is_active a ≡ false → ¬ Move a b
not_moved pending b h₁ h₂ move = cc h₁
not_moved active b h₁ h₂ move = cc h₂
not_moved a b h₁ h₂ (executes _ _ w o) = ground arith

final_evolves :
    (a : RequestState) {b : RequestState}
    → is_awaiting a ≡ false
    → is_active a ≡ false
    → Evolves a b
    → b ≡ a
final_evolves a h₁ h₂ here = refl
final_evolves a h₁ h₂ (next {c = c} p move) =
    absurd (not_moved a c h₁ h₂ (subst (λ x. Move x c) (final_evolves a h₁ h₂ p) move))

final-Follows :
    (a : RequestState)
    → is_awaiting a ≡ false
    → is_active a ≡ false
    → (o : Option RequestState) → Follows (some a) o
    → o ≡ some a
final-Follows a h₁ h₂ none p = absurd p
final-Follows a h₁ h₂ (some b) p = ap (λ x. some x) (final_evolves a h₁ h₂ p)

module _ {W : Type 0} (m : Machine W) (cfg : ServiceConfig) where
  unfoldable pub call : Call → State W → State W
  unfolding submit submit_delete approve reject dispatch_stream reconcile_rules
  call (submits actor req) s = (submit m cfg actor req s).1
  call (submits_deletion actor id reason) s = (submit_delete m cfg actor id reason s).1
  call (approves_id actor id comment) s = (approve m actor id comment s).1
  call (rejects_id actor id comment) s = (reject m actor id comment s).1
  call (dispatches stream actor id) s = (dispatch_stream m cfg stream actor id s).1
  call reconciles s = (reconcile_rules m cfg s).1

  -- Between two calls the outside world, the context among it, becomes what it may.
  unfoldable pub calls : List (Call × W) → State W → State W
  unfolding call
  calls [] s = s
  calls ((c, w) ∷ cs) s = calls cs (call c (record s { world = w }))

  call-Evolved : (c : Call) (s : State W) → Evolved s.db.requests (call c s).db.requests
  unfolding call
  call-Evolved (submits actor req) s = submit-Evolved m cfg actor req s
  call-Evolved (submits_deletion actor id reason) s = submit_delete-Evolved m cfg actor id reason s
  call-Evolved (approves_id actor id comment) s = approve-Evolved m actor id comment s
  call-Evolved (rejects_id actor id comment) s = reject-Evolved m actor id comment s
  call-Evolved (dispatches stream actor id) s = (dispatch_stream-Ends m cfg stream actor id s).life
  call-Evolved reconciles s = same-Evolved _ _ ((reconcile_rules_iff m cfg s).1)

  -- Over any history of calls, whatever the agent answers and the outside world does, each request goes
  -- through the states of its life: it begins as pending, is approved or rejected, is executed from
  -- pending or approved with one of the outcomes, and an active one can be revoked; no request is lost.
  pub calls_evolve :
      (cs : List (Call × W)) (s : State W) (id : ℕ)
      → Follows (state_in id s.db.requests) (state_in id (calls cs s).db.requests)
  unfolding calls
  calls_evolve [] s id = Evolved-refl s.db.requests id
  calls_evolve ((c, w) ∷ cs) s id =
      Evolved-trans s.db.requests _ _ (call-Evolved c (record s { world = w }))
        (calls_evolve cs (call c (record s { world = w }))) id

  -- A request that is neither pending, approved nor active keeps its state over any history; this holds
  -- for one that a call has left dispatching as well, so that it can never be executed again.
  pub calls_final :
      (cs : List (Call × W)) (s : State W) (id : ℕ) (a : RequestState)
      → is_awaiting a ≡ false
      → is_active a ≡ false
      → state_in id s.db.requests ≡ some a
      → state_in id (calls cs s).db.requests ≡ some a
  calls_final cs s id a h₁ h₂ e =
      final-Follows a h₁ h₂ _
        (subst (λ x. Follows x (state_in id (calls cs s).db.requests)) e (calls_evolve cs s id))
