-- ===== src/Core/Life.antt =====
-- The life of a request: the states that the operations of internal/aclweb/core/core.go lead it
-- through, as one step for each whole call.
use acl_edit_only.Base.{
  ℕ, ◌≡◌, ◌≢◌, refl, sym, subst, ◌∙◌, inl, inr, Bool, true, false, Bool-cases, Option, none, some,
  List, [], ◌∷◌, ◌++◌, ◌==◌, if◌then◌else◌,
}
use acl_edit_only.Core.Rows.{
  ChangeRequest, RequestState, pending, approved, rejected, dispatching, active, dispatch_failed,
  drift, inconsistent, revoked, is_awaiting, update_rows, find_request,
}
use acl_edit_only.Core.Rows.Updates.{
  KeepsId, updated, find_request-update_rows, find_request-append, find_request-id,
}

-- how the execution of a request that waits for it can leave it
abbrev pub is_outcome : RequestState → Bool
is_outcome dispatching = true
is_outcome active = true
is_outcome dispatch_failed = true
is_outcome drift = true
is_outcome inconsistent = true
is_outcome revoked = true
is_outcome _ = false

-- what one call can do to a request
pub data Move : RequestState → RequestState → Type 0 where
  approves : Move pending approved
  rejects : Move pending rejected
  executes : (a b : RequestState) → is_awaiting a ≡ true → is_outcome b ≡ true → Move a b
  revokes : Move active revoked

pub data Evolves (a : RequestState) : RequestState → Type 0 where
  here : Evolves a a
  next : {b c : RequestState} → Evolves a b → Move b c → Evolves a c

pub Evolves-trans : {a b c : RequestState} → Evolves a b → Evolves b c → Evolves a c
Evolves-trans p here = p
Evolves-trans p (next q move) = next (Evolves-trans p q) move

-- of a row: it is not deleted, and a new one begins as pending
abbrev pub Follows : Option RequestState → Option RequestState → Type 0
Follows none none = Unit
Follows none (some b) = Evolves pending b
Follows (some a) none = ⊥
Follows (some a) (some b) = Evolves a b

pub Follows-refl : (a : Option RequestState) → Follows a a
Follows-refl none = tt
Follows-refl (some a) = here

pub Follows-trans : (a b c : Option RequestState) → Follows a b → Follows b c → Follows a c
Follows-trans none none c p q = q
Follows-trans none (some b) none p q = absurd q
Follows-trans none (some b) (some c) p q = Evolves-trans p q
Follows-trans (some a) none c p q = absurd p
Follows-trans (some a) (some b) none p q = absurd q
Follows-trans (some a) (some b) (some c) p q = Evolves-trans p q

abbrev pub state_of : Option ChangeRequest → Option RequestState
state_of none = none
state_of (some r) = some r.state

-- the state of the request with an id
unfoldable pub state_in : ℕ → List ChangeRequest → Option RequestState
unfolding find_request
state_in id rs = state_of (find_request id rs)

abbrev pub Evolved : List ChangeRequest → List ChangeRequest → Type 0
Evolved rs rs' = (id : ℕ) → Follows (state_in id rs) (state_in id rs')

pub Evolved-refl : (rs : List ChangeRequest) → Evolved rs rs
Evolved-refl rs id = Follows-refl (state_in id rs)

pub Evolved-trans : (rs ss ts : List ChangeRequest) → Evolved rs ss → Evolved ss ts → Evolved rs ts
Evolved-trans rs ss ts p q id = Follows-trans _ (state_in id ss) _ (p id) (q id)

-- an update leads each row that it is for along a life
pub update-Evolved :
    (where_ : ChangeRequest → Bool) (set : ChangeRequest → ChangeRequest) (rs : List ChangeRequest)
    → KeepsId set
    → ((r : ChangeRequest) → where_ r ≡ true → Evolves r.state (set r).state)
    → Evolved rs (update_rows where_ set rs)
unfolding state_in
update-Evolved where_ set rs keeps moves id =
    rw (find_request-update_rows where_ set keeps id rs) (row (find_request id rs))
  where
    row : (o : Option ChangeRequest) → Follows (state_of o) (state_of (updated where_ set o))
    row none = tt
    row (some r) = elim (Bool-cases (where_ r)) [ inl h ↦ rw h (moves r h) | inr h ↦ rw h here ]

-- an insertion
pub insert-Evolved :
    (new : ChangeRequest) (rs : List ChangeRequest)
    → new.state ≡ pending
    → Evolved rs (rs ++ new ∷ [])
unfolding state_in
insert-Evolved new rs h id =
    rw (find_request-append id rs new) (row (find_request id rs) (new.id == id))
  where
    row :
        (o : Option ChangeRequest) (b : Bool)
        → Follows
            (state_of o)
            (state_of (elim o [ some r ↦ some r | none ↦ if b then some new else none ]))
    row (some r) b = here
    row none true = subst (λ st. Evolves pending st) (sym h) here
    row none false = tt

-- what is left as it was
pub same-Evolved : (rs ss : List ChangeRequest) → ss ≡ rs → Evolved rs ss
same-Evolved rs ss h = subst (λ x. Evolved rs x) (sym h) (Evolved-refl rs)

-- an update that is only for the row of one id
module _ (where_ : ChangeRequest → Bool) (set : ChangeRequest → ChangeRequest)
    (keeps : KeepsId set) where
  pub state_in-other :
      (id j : ℕ) (rs : List ChangeRequest)
      → ((r : ChangeRequest) → where_ r ≡ true → r.id ≡ id)
      → j ≢ id
      → state_in j (update_rows where_ set rs) ≡ state_in j rs
  unfolding state_in
  state_in-other id j rs only h =
      rw (find_request-update_rows where_ set keeps j rs)
        (row (find_request j rs) (find_request-id j rs))
    where
      row :
          (o : Option ChangeRequest)
          → ((r : ChangeRequest) → o ≡ some r → r.id ≡ j)
          → state_of (updated where_ set o) ≡ state_of o
      row none found = refl
      row (some r) found = elim (Bool-cases (where_ r)) [
        | inl e ↦ absurd (h (sym (found r refl) ∙ only r e))
        | inr e ↦ rw e refl
      ]

  pub state_in-own :
      (id : ℕ) (rs : List ChangeRequest) (r : ChangeRequest)
      → find_request id rs ≡ some r
      → where_ r ≡ true
      → state_in id (update_rows where_ set rs) ≡ some (set r).state
  unfolding state_in
  state_in-own id rs r found h =
      rw (find_request-update_rows where_ set keeps id rs) (rw found (rw h refl))

-- a state that is found is that of a row
pub state_in-found :
    (id : ℕ) (rs : List ChangeRequest) (a : RequestState)
    → state_in id rs ≡ some a
    → (r : ChangeRequest) × (find_request id rs ≡ some r) × (r.state ≡ a)
unfolding state_in
state_in-found id rs a h = row (find_request id rs) h
  where
    row :
        (o : Option ChangeRequest)
        → state_of o ≡ some a
        → (r : ChangeRequest) × (o ≡ some r) × (r.state ≡ a)
    row none e = cc e
    row (some r) e = (r, refl, cc e)
