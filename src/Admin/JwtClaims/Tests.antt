-- ===== src/Admin/JwtClaims/Tests.antt =====
-- A claim 77 that a superuser writes for the tenant 3.
use lite_iam.Prelude.{ℕ, Text, ◌≡◌, refl, true, [], ◌∷◌}
use lite_iam.Fixtures.{plain, ada, with_user}
use lite_iam.Admin.JwtClaims.{set_jwt_claims, clear_jwt_claims, get_jwt_claims}
use lite_iam.Database.{Db, get_session, ok}
use lite_iam.Models.{User}
use lite_iam.Tokens.{Claims, Keys, Stamp}

abbrev keys : Keys
keys = record { kid = 1; private_pem = 8; public_pems = (1, 9) ∷ [] }

abbrev stamp : Stamp
stamp = record { base_url = 70; now = 100; jti = 71 }

abbrev chief : User
chief = record ada { is_superuser = true }

abbrev claims : Claims
claims = (77, 5) ∷ []

abbrev short : Text → ℕ
short key = 2

-- What was written is read, and cleared again.
abbrev written : Db
written = (get_session (set_jwt_claims plain short chief 3 claims) (with_user ada)).1

reads : (get_session (get_jwt_claims plain chief 3) written).0 ≡ ok claims
unfolding set_jwt_claims get_jwt_claims
reads = refl

clears : get_session (clear_jwt_claims plain chief 3) written ≡ (ok tt, with_user ada)
unfolding set_jwt_claims clear_jwt_claims
clears = refl
