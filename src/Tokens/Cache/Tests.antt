-- ===== src/Tokens/Cache/Tests.antt =====
-- The claims of the tenant 3 are cleared at the time 120, and a worker that loaded them at 100 uses them
-- at 150 and not at 160.
use lite_iam.Prelude.{ℕ, ◌≡◌, refl, Option, none, some, [], ◌∷◌, ltb, if◌then◌else◌, arith}
use lite_iam.Fixtures.{plain, acme, ada, with_user}
use lite_iam.Database.{Db}
use lite_iam.Tokens.{strip_reserved}
use lite_iam.Tokens.Cache.{ClaimsCache, get_tenant_record, load_record}
use lite_iam.Tokens.Cache.Fresh.{starts, gets, IsRecent, records-IsRecent}

abbrev before : Db
before = record (with_user ada) {
  tenants = record acme { custom_jwt_claims = some ((71, 72) ∷ []) } ∷ [];
}

abbrev past : ℕ → Option Db
past now =
    if ltb now 120
    then some before
    else some (record before { tenants = record acme { custom_jwt_claims = none } ∷ [] })

abbrev worker : ClaimsCache
worker = (get_tenant_record plain 3 100 (past 100) (λ tenant_id. none)).1

still_held : (get_tenant_record plain 3 150 (past 150) worker).0.custom ≡ (71, 72) ∷ []
unfolding get_tenant_record load_record strip_reserved
still_held = refl

gone : (get_tenant_record plain 3 160 (past 160) worker).0.custom ≡ []
unfolding get_tenant_record load_record strip_reserved
gone = refl

records-IsRecent_example :
    IsRecent plain past 3 150 (get_tenant_record plain 3 150 (past 150) worker).0
records-IsRecent_example =
    records-IsRecent plain past 3 150 (gets 3 100 (starts 90) (omega arith)) (omega arith)
