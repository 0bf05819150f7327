-- ===== src/Core/Service/Reviewed.antt =====
-- Approve and Reject of internal/aclweb/core/core.go: where they lead a request.
use acl_edit_only.Base.{ℕ, ◌≡◌, refl, true, arith}
use acl_edit_only.Base.Text.{Bytes}
use acl_edit_only.Core.Rows.{User, RequestState, approved, rejected, pending, is_pending, audit}
use acl_edit_only.Core.Spawn.{Machine}
use acl_edit_only.Core.Service.{
  State, reviewed, review_rows, approve_row, approve, reject, pending_id,
}
use acl_edit_only.Core.Life.{
  Evolves, here, next, Move, approves, rejects, Evolved, Evolved-refl, update-Evolved,
}

from_pending : (st a : RequestState) → Move pending st → is_pending a ≡ true → Evolves a st
from_pending st pending move h = next here move
from_pending st _ move h = cc h

module _ {W : Type 0} (m : Machine W) where
  review_rows-Evolved :
      (st : RequestState)
      → Move pending st
      → (actor : User) (id : ℕ) (comment : Bytes) (s : State W)
      → Evolved s.db.requests (review_rows m st actor id comment s)
  unfolding review_rows
  review_rows-Evolved st move actor id comment s =
      update-Evolved (pending_id id) (reviewed st actor (m.now s.world) comment) s.db.requests
        (λ r. refl) (λ r h. from_pending st r.state move (ground arith))

  approve_row-Evolved :
      (actor : User) (id : ℕ) (comment : Bytes) (s : State W)
      → Evolved s.db.requests (approve_row m actor id comment s).1.db.requests
  unfolding approve_row audit
  approve_row-Evolved actor id comment s =
      ground (
        arith,
        review_rows-Evolved approved approves actor id comment s,
        Evolved-refl s.db.requests,
      )

  pub approve-Evolved :
      (actor : User) (id : ℕ) (comment : Bytes) (s : State W)
      → Evolved s.db.requests (approve m actor id comment s).1.db.requests
  unfolding approve
  approve-Evolved actor id comment s =
      ground (arith, approve_row-Evolved actor id comment s, Evolved-refl s.db.requests)

  pub reject-Evolved :
      (actor : User) (id : ℕ) (comment : Bytes) (s : State W)
      → Evolved s.db.requests (reject m actor id comment s).1.db.requests
  unfolding reject audit
  reject-Evolved actor id comment s =
      ground
        (arith, review_rows-Evolved rejected rejects actor id comment s, Evolved-refl s.db.requests)
