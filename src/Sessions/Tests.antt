-- ===== src/Sessions/Tests.antt =====
-- A session of Ada with the access token 1, whose id is 71.
use lite_iam.Prelude.{◌≡◌, refl, true, false, none, some, [], ◌∷◌, find, inr}
use lite_iam.Fixtures.{plain, ada, with_user}
use lite_iam.Literals
use lite_iam.Database.{Db, ok}
use lite_iam.External.{External}
use lite_iam.Models.{OauthToken}
use lite_iam.Tokens.{Keys, destroyed_jti, decode_token, read_token}
use lite_iam.Sessions.Remote.{revoked_by, revoke_session_ends}
use lite_iam.Sessions.{is_own}

abbrev keys : Keys
keys = record { kid = 1; private_pem = 8; public_pems = (1, 9) ∷ [] }

abbrev signed : External
signed = record plain {
  jwt_decode = λ pem token verify_exp now. some ((Literals.jti, 71) ∷ (Literals.exp, 3700) ∷ []);
}

abbrev row : OauthToken
row = record {
  id = 41;
  access_token = 1;
  refresh_token = none;
  client_id = 5;
  user_id = 1;
  scope = 6;
  access_token_expires_at = 3700;
  refresh_token_expires_at = none;
  revoked = false;
  token_family_id = none;
}

abbrev tables : Db
tables = record (with_user ada) { tokens = row ∷ [] }

revoke_session_ends_example :
    let (reply, s) = revoked_by signed keys ada 41 100 tables in
    (reply ≡ ok tt)
    × (find (is_own 1 41) s.saved.tokens ≡ some (record row { revoked = true }))
    × (read_token signed keys s.blacklisted 160 (some 1) s.saved ≡ none)
unfolding destroyed_jti decode_token
revoke_session_ends_example =
    revoke_session_ends signed keys ada 41 100 160 41 71 3700 row tables refl refl refl refl refl
      (inr refl)
