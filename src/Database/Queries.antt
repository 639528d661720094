-- ===== src/Database/Queries.antt =====
-- `emit` of app/core/events.py, and rows by their key.
use lite_iam.Prelude.{ℕ, Text, Option, none, some, [], ◌∷◌, ◌++◌, ◌==◌, find, update_where}
use lite_iam.Models.{User, Tenant, AuthEvent}
use lite_iam.Database.State.{Db, Handler, dispatch_webhooks, ◌>>◌, pure, modify, spawn}

-- `db.get(User, user_id)`
abbrev pub get_user : ℕ → Db → Option User
get_user user_id db = find (λ u. u.id == user_id) db.users

-- `db.get(Tenant, tenant_id)`
abbrev pub get_tenant : ℕ → Db → Option Tenant
get_tenant tenant_id db = find (λ t. t.id == tenant_id) db.tenants

-- `db.execute(update(User).where(User.id == user_id).values(…))`
abbrev pub update_user : ℕ → (User → User) → Handler (Unit {0})
update_user user_id f =
    modify λ db. record db { users = update_where (λ u. u.id == user_id) f db.users }

abbrev pub dispatch : AuthEvent → Option ℕ → Handler (Unit {0})
dispatch event none = pure tt
dispatch event (some tenant_id) = spawn (dispatch_webhooks event tenant_id)

-- The audit row joins the open transaction; the webhooks are sent at once.
abbrev pub emit : AuthEvent → Option ℕ → Option ℕ → Option Text → Handler (Unit {0})
emit event tenant_id subject_id ip_address = do
  modify λ db. record db {
    audit =
        db.audit
        ++ (record {
          event = event;
          tenant_id = tenant_id;
          subject_id = subject_id;
          ip_address = ip_address;
        })
          ∷ [];
  }
  dispatch event tenant_id
