-- ===== src/Core/Rows/Updates.antt =====
-- What an update or an insertion does to the row of one id.
use acl_edit_only.Base.{
  ℕ, ◌≡◌, refl, Bool, Option, none, some, List, [], ◌∷◌, ◌++◌, ◌==◌, if◌then◌else◌, arith,
}
use acl_edit_only.Core.Rows.{ChangeRequest, update_rows, find_request}

-- the row after an update
abbrev pub updated :
    (ChangeRequest → Bool)
    → (ChangeRequest → ChangeRequest)
    → Option ChangeRequest
    → Option ChangeRequest
updated where_ set none = none
updated where_ set (some r) = some (if where_ r then set r else r)

abbrev pub KeepsId : (ChangeRequest → ChangeRequest) → Type 0
KeepsId set = (r : ChangeRequest) → (set r).id ≡ r.id

module _ (where_ : ChangeRequest → Bool) (set : ChangeRequest → ChangeRequest)
    (keeps : KeepsId set) where
  pub find_request-update_rows :
      (id : ℕ) (rs : List ChangeRequest)
      → find_request id (update_rows where_ set rs) ≡ updated where_ set (find_request id rs)
  unfolding find_request update_rows
  find_request-update_rows id [] = refl
  find_request-update_rows id (r ∷ rs) = ground (arith, keeps r, find_request-update_rows id rs)

-- a row that is found has the id
pub find_request-id :
    (id : ℕ) (rs : List ChangeRequest) (r : ChangeRequest) → find_request id rs ≡ some r → r.id ≡ id
unfolding find_request
find_request-id id [] r h = cc h
find_request-id id (x ∷ rs) r h = ground (arith, find_request-id id rs r)

-- an insertion behind the rows finds what was found before, or the new row
pub find_request-append :
    (id : ℕ) (rs : List ChangeRequest) (new : ChangeRequest)
    → find_request id (rs ++ new ∷ []) ≡ elim (find_request id rs) [
      | some r ↦ some r
      | none ↦ if new.id == id then some new else none
    ]
unfolding find_request
find_request-append id [] new = refl
find_request-append id (r ∷ rs) new = ground (arith, find_request-append id rs new)
