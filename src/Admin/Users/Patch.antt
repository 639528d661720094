-- ===== src/Admin/Users/Patch.antt =====
-- app/admin/users.py: a tenant keeps its superuser.
use lite_iam.Prelude.{
  ℕ, ◌≡◌, ◌≢◌, ◌⊎◌, refl, true, some, List, [], ◌∷◌, inl, inr, ◌==◌, find, update_where, arith,
  Bool-cases, Option-cases, ◌∙◌,
}
use lite_iam.Admin.Users.{UserPatch, patch_user, is_target, patched}
use lite_iam.Database.{Db, get_session, get_user}
use lite_iam.Models.{User}
use lite_iam.Database.Runs.{find_holds}

find-update_elsewhere :
    (k j : ℕ) (body : UserPatch) (rows : List User)
    → k ≢ j
    → find (λ v. v.id == k) (update_where (λ v. v.id == j) (patched body) rows)
      ≡ find (λ v. v.id == k) rows
find-update_elsewhere k j body [] ne = refl
find-update_elsewhere k j body (r ∷ rows) ne =
    ground (arith, find-update_elsewhere k j body rows ne)

-- The tables after a patch by an account, which is as its row is.
abbrev pub after_patch : User → ℕ → UserPatch → Db → Db
after_patch actor user_id body db = (get_session (patch_user actor user_id body) db).1

-- Nothing changes, or a superuser changes another account of its tenant.
patch_user_outcome :
    (actor : User) (user_id : ℕ) (body : UserPatch) (db : Db)
    → (after_patch actor user_id body db ≡ db)
      ⊎ ((t : User) × (find (is_target user_id actor.tenant_id) db.users ≡ some t)
          × (t.id ≢ actor.id)
          × (t.id ≡ user_id)
          × (t.tenant_id ≡ actor.tenant_id)
          × (actor.is_superuser ≡ true)
          × ((after_patch actor user_id body db).users
              ≡ update_where (λ v. v.id == t.id) (patched body) db.users))
unfolding patch_user
patch_user_outcome actor user_id body db =
    elim (Option-cases (find (is_target user_id actor.tenant_id) db.users)) [
      | inl missing ↦ inl (ground arith)
      | inr (t, found) ↦
          let target = find_holds (is_target user_id actor.tenant_id) db.users t found in
          elim (Bool-cases (actor.is_superuser)) [
            | inr ordinary ↦ inl (ground arith)
            | inl super ↦ elim (Bool-cases (user_id == actor.id)) [
              | inl own ↦ inl (ground arith)
              | inr other ↦
                  inr (t, found, ground arith, ground arith, ground arith, super, ground arith)
            ]
          ]
    ]

-- Patches one after the other. Condition on the tables: an account found in its tenant is the one
-- that stands under its id.
pub data Patches (db : Db) : Db → Type 0 where
  start : Patches db db
  patch :
      (db' : Db) (actor : User) (user_id : ℕ) (body : UserPatch)
      → Patches db db'
      → get_user actor.id db' ≡ some actor
      → ((t : User)
          → find (is_target user_id actor.tenant_id) db'.users ≡ some t
          → get_user user_id db' ≡ some t)
      → Patches db (after_patch actor user_id body db')

pub record HasSuperuser (tenant_id : ℕ) (db : Db) : Type 0 where
  pub user : User
  pub stored : get_user user.id db ≡ some user
  pub own : user.tenant_id ≡ tenant_id
  pub super : user.is_superuser ≡ true

patch-HasSuperuser :
    (tenant_id : ℕ) (db : Db) (actor : User) (user_id : ℕ) (body : UserPatch)
    → get_user actor.id db ≡ some actor
    → ((t : User)
        → find (is_target user_id actor.tenant_id) db.users ≡ some t
        → get_user user_id db ≡ some t)
    → HasSuperuser tenant_id db
    → HasSuperuser tenant_id (after_patch actor user_id body db)
patch-HasSuperuser tenant_id db actor user_id body known key h =
    elim (patch_user_outcome actor user_id body db) [
      | inl same ↦ rw same h
      | inr (t, found, other, named, in_tenant, is_super, users) ↦
          elim (Bool-cases (actor.tenant_id == tenant_id)) [
            | inl ours ↦ record {
              user = actor;
              stored =
                  rw users
                    (find-update_elsewhere actor.id t.id body db.users (ground arith) ∙ known);
              own = ground arith;
              super = is_super;
            }
            | inr theirs ↦ record {
              user = h.user;
              stored = rw users (
                  find-update_elsewhere h.user.id t.id body db.users
                    (λ same. ground (arith, key t found, h.stored, h.own))
                  ∙ h.stored);
              own = h.own;
              super = h.super;
            }
          ]
    ]

-- A tenant that has a superuser still has one after any sequence of patches of accounts, by any
-- accounts of any tenants. Conditions, a part of the steps: the acting account is as its stored row
-- is, and an account found in its tenant is the one under its id.
pub patches-HasSuperuser :
    (tenant_id : ℕ) (db db' : Db)
    → Patches db db'
    → HasSuperuser tenant_id db
    → HasSuperuser tenant_id db'
patches-HasSuperuser tenant_id db _ start h = h
patches-HasSuperuser tenant_id db _ (patch db' actor user_id body before known key) h =
    patch-HasSuperuser tenant_id db' actor user_id body known key
      (patches-HasSuperuser tenant_id db db' before h)
