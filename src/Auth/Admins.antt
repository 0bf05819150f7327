-- ===== src/Auth/Admins.antt =====
-- internal/aclweb/auth/auth.go: that an active administrator remains.
use acl_edit_only.Base.{
  ℕ, suc, ◌≤◌, ◌<◌, ◌≡◌, ◌≢◌, refl, true, false, some, List, [], ◌∷◌, ◌++◌, any_of, arith,
}
use acl_edit_only.Base.Text.{Bytes}
use acl_edit_only.Auth.Tables.{
  Account, AuthDb, find_user, update_user, set_active_to, with_new_user,
}
use acl_edit_only.Auth.Users.{is_active_admin, other_admins, is_last_admin}

-- the ids ascend, above `lo` and up to `hi`
abbrev pub Ordered : ℕ → List Account → ℕ → Type 0
Ordered lo [] hi = lo ≤ hi
Ordered lo (a ∷ us) hi = (lo < a.user.id) × Ordered a.user.id us hi

-- The ids are distinct, and some administrator is active.
pub record Inv (db : AuthDb) : Type 0 where
  pub ordered : Ordered 0 db.users db.last_user
  pub admin : any_of is_active_admin db.users ≡ true

abbrev KeepsId : (Account → Account) → Type 0
KeepsId set = (a : Account) → (set a).user.id ≡ a.user.id

abbrev KeepsAdmin : (Account → Account) → Type 0
KeepsAdmin set = (a : Account) → is_active_admin a ≡ true → is_active_admin (set a) ≡ true

update_user-Ordered :
    (id : ℕ) (set : Account → Account)
    → KeepsId set
    → (lo hi : ℕ) (us : List Account) → Ordered lo us hi
    → Ordered lo (update_user id set us) hi
unfolding update_user
update_user-Ordered id set keeps lo hi [] o = o
update_user-Ordered id set keeps lo hi (a ∷ us) o =
    ground (arith, keeps a, update_user-Ordered id set keeps a.user.id hi us o.1)

update_user-admin :
    (id : ℕ) (set : Account → Account)
    → KeepsAdmin set
    → (us : List Account) → any_of is_active_admin us ≡ true
    → any_of is_active_admin (update_user id set us) ≡ true
unfolding update_user
update_user-admin id set keeps [] h = h
update_user-admin id set keeps (a ∷ us) h =
    ground (arith, keeps a, update_user-admin id set keeps us)

pub update_user-Inv :
    (id : ℕ) (set : Account → Account) (db : AuthDb)
    → KeepsId set
    → KeepsAdmin set
    → Inv db
    → Inv (record db { users = update_user id set db.users })
update_user-Inv id set db k₁ k₂ v = record {
  ordered = update_user-Ordered id set k₁ 0 db.last_user db.users v.ordered;
  admin = update_user-admin id set k₂ db.users v.admin;
}

pub append-Ordered :
    (lo hi : ℕ) (us : List Account) (a : Account)
    → Ordered lo us hi
    → a.user.id ≡ suc hi
    → Ordered lo (us ++ a ∷ []) (suc hi)
append-Ordered lo hi [] a o e = omega arith
append-Ordered lo hi (b ∷ us) a o e = (o.0, append-Ordered b.user.id hi us a o.1 e)

pub append-admin :
    (us : List Account) (a : Account)
    → any_of is_active_admin us ≡ true
    → any_of is_active_admin (us ++ a ∷ []) ≡ true
append-admin [] a h = cc h
append-admin (b ∷ us) a h = ground (arith, append-admin us a)

-- an administrator other than the target stays
pub others_stay :
    (id : ℕ) (us : List Account)
    → other_admins id us ≢ 0
    → any_of is_active_admin (update_user id (set_active_to false) us) ≡ true
unfolding other_admins update_user
others_stay id [] h = absurd (h refl)
others_stay id (a ∷ us) h = ground (arith, others_stay id us)

no_admin_above :
    (id lo hi : ℕ) (us : List Account)
    → Ordered lo us hi
    → id ≤ lo
    → other_admins id us ≡ 0
    → any_of is_active_admin us ≡ false
unfolding other_admins
no_admin_above id lo hi [] o l h = refl
no_admin_above id lo hi (a ∷ us) o l h = ground (arith, no_admin_above id a.user.id hi us o.1)

-- without another administrator, the target is the one that is active
pub target_is_admin :
    (id lo hi : ℕ) (us : List Account) (a : Account)
    → Ordered lo us hi
    → other_admins id us ≡ 0
    → any_of is_active_admin us ≡ true
    → find_user id us ≡ some a
    → is_active_admin a ≡ true
unfolding other_admins find_user
target_is_admin id lo hi [] a o h₁ h₂ f = cc h₂
target_is_admin id lo hi (b ∷ us) a o h₁ h₂ f =
    ground (arith, no_admin_above id b.user.id hi us o.1, target_is_admin id b.user.id hi us a o.1)

-- a row that is found has the id
pub find_user-id :
    (id : ℕ) (us : List Account) (a : Account) → find_user id us ≡ some a → a.user.id ≡ id
unfolding find_user
find_user-id id [] a h = cc h
find_user-id id (b ∷ us) a h = ground (arith, find_user-id id us a)

-- an insertion
pub new_user-Inv :
    (username hash role : Bytes) (db : AuthDb) → Inv db → Inv (with_new_user username hash role db)
new_user-Inv username hash role db v = record {
  ordered = append-Ordered 0 db.last_user db.users _ v.ordered refl;
  admin = append-admin db.users _ v.admin;
}

-- a deactivation that the guard lets through
pub deactivated-Inv :
    (id : ℕ) (db : AuthDb) (a : Account)
    → find_user id db.users ≡ some a
    → is_last_admin a db.users ≡ false
    → Inv db
    → Inv (record db { users = update_user id (set_active_to false) db.users })
unfolding is_last_admin
deactivated-Inv id db a found guard v = record {
  ordered =
      update_user-Ordered id (set_active_to false) (λ x. refl) 0 db.last_user db.users v.ordered;
  admin = others_stay id db.users (λ none_left. ground (
    arith,
    target_is_admin id 0 db.last_user db.users a v.ordered none_left v.admin found,
    find_user-id id db.users a found,
  ));
}
