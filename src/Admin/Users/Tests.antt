-- ===== src/Admin/Users/Tests.antt =====
-- Ada as superuser of the tenant 3, with Bob in it.
use lite_iam.Prelude.{◌≡◌, refl, true, false, none, some, [], ◌∷◌, arith}
use lite_iam.Tokens.{write_token, Keys, Stamp, TenantRecord}
use lite_iam.Admin.Users.Impersonation.{Says, IsOrdinary, token_for, impersonation_sound}
use lite_iam.Fixtures.{plain, defaults, ada, with_user}
use lite_iam.Admin.Users.{UserPatch, impersonate_user, impersonable, impersonate}
use lite_iam.Admin.Users.Patch.{HasSuperuser, after_patch, patches-HasSuperuser, patch, start}
use lite_iam.Database.{Db, get_session, ok}
use lite_iam.Models.{User}

abbrev chief : User
chief = record ada { is_superuser = true }

abbrev bob : User
bob = record ada { id = 2; email = 12 }

abbrev tables : Db
tables = record (with_user chief) { users = chief ∷ bob ∷ [] }

abbrev demote : UserPatch
demote = record { is_active = none; is_superuser = some false }

abbrev superuser : HasSuperuser 3 tables
superuser = record { user = chief; stored = refl; own = refl; super = refl }

patches-HasSuperuser_example : HasSuperuser 3 (after_patch chief 2 demote tables)
patches-HasSuperuser_example =
    patches-HasSuperuser 3 tables (after_patch chief 2 demote tables)
      (patch tables chief 2 demote start refl (λ t found. ground arith)) superuser

abbrev keys : Keys
keys = record { kid = 1; private_pem = 8; public_pems = (1, 9) ∷ [] }

abbrev stamp : Stamp
stamp = record { base_url = 70; now = 100; jti = 71 }

abbrev tenant : TenantRecord
tenant = record { custom = []; name = 32; slug = 31 }

acts :
    (get_session (impersonate_user plain defaults keys stamp tenant 91 none chief 2) tables).0
    ≡ ok 1
unfolding impersonate_user impersonable impersonate write_token
acts = refl

impersonation_sound_example :
    (true ≡ true)
    × ((target : User) × IsOrdinary chief 2 tables target
        × (1 ≡ token_for plain defaults keys stamp tenant 91 none chief 2 tables target)
        × Says plain defaults keys stamp tenant 91 none chief 2 tables target)
impersonation_sound_example =
    impersonation_sound plain defaults keys stamp tenant 91 none chief 2 tables 1 acts
