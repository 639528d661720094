-- ===== src/Account/Tests.antt =====
-- Ada signs out with the access token 1, whose id is 71.
use lite_iam.Prelude.{◌≡◌, ◌++◌, refl, none, some, [], ◌∷◌, inr}
use lite_iam.Fixtures.{plain, ada, with_user}
use lite_iam.Literals
use lite_iam.Database.{ok}
use lite_iam.External.{External}
use lite_iam.Models.{RevokedToken}
use lite_iam.Revocation.{Worker, on_revoke}
use lite_iam.Tokens.{Keys, destroyed_jti, decode_token, read_token}
use lite_iam.Account.SignOut.{signed_out, logout_ends}

abbrev keys : Keys
keys = record { kid = 1; private_pem = 8; public_pems = (1, 9) ∷ [] }

abbrev signed : External
signed = record plain {
  jwt_decode = λ pem token verify_exp now. some (
      (Literals.jti, 71)
      ∷ (Literals.exp, 3700)
      ∷ (Literals.sub, 1)
      ∷ (Literals.auth_stage, Literals.complete)
      ∷ []);
}

abbrev other : Worker
other = record { table = []; revoked_jtis = [] }

logout_ends_example :
    let row : RevokedToken = record { jti = 71; expires_at = 3700 } in
    let (reply, s) = signed_out signed keys [] 100 1 (with_user ada) in
    (reply ≡ ok tt)
    × (s.saved.revoked_tokens ≡ [] ++ row ∷ [])
    × (read_token signed keys s.blacklisted 160 (some 1) s.saved ≡ none)
    × (read_token signed keys (on_revoke row other).revoked_jtis 160 (some 1) s.saved ≡ none)
unfolding destroyed_jti decode_token read_token
logout_ends_example =
    logout_ends signed keys [] 1 71 3700 100 160 ada (with_user ada) other refl refl refl refl refl
      (inr refl)
