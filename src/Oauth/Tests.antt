-- ===== src/Oauth/Tests.antt =====
-- A mobile application with the address 22, and its tokens.
use lite_iam.Prelude.{
  ℕ, ◌≡◌, ◌≤◌, refl, true, false, none, some, [], ◌∷◌, ◌++◌, arith, ◌==◌, contains, update_where,
  count_where, ◌+◌,
}
use lite_iam.Models.{User, OauthClient, AuthorizationCode, OauthToken}
use lite_iam.Literals
use lite_iam.Database.{Db, Result, ok, err, get_session}
use lite_iam.Fixtures.{plain, defaults, ada, with_user}
use lite_iam.Tokens.{Keys}
use lite_iam.Oauth.Authorize.{AuthorizeRequest, to_client, code_row, authorize}
use lite_iam.Oauth.Authorize.Checks.{IsEntitled, authorize_sound}
use lite_iam.Oauth.Grant.{
  Fresh, TokenResponse, expired, next_row, redeem_code, handle_refresh_grant,
}
use lite_iam.Oauth.Grant.Families.{revoke, is_live, is_live_for}
use lite_iam.Oauth.Grant.Theft.{refresh, theft, refresh_sound}
use lite_iam.Oauth.Rotation.{here, next, refreshing, rotate_then_replay, one_live_token}

abbrev mobile : OauthClient
mobile = record {
  id = 1;
  client_id = 21;
  client_secret_enc = none;
  redirect_uris = 22 ∷ [];
  allowed_scopes = Literals.openid ∷ Literals.offline_access ∷ [];
  grant_types = Literals.authorization_code ∷ Literals.refresh_token ∷ [];
  require_pkce = true;
  auto_approve = true;
  is_active = true;
}

abbrev fresh : Fresh
fresh = record { row_id = 91; family_id = 92; refresh_token = 93 }

abbrev signs : User → ℕ
signs u = 500 + u.id

abbrev request : AuthorizeRequest
request = record {
  client_id = 21;
  redirect_uri = 22;
  response_type = Literals.code;
  scope = Literals.openid;
  state = some 23;
  code_challenge = some 24;
  code_challenge_method = none;
  nonce = none;
}

abbrev tables : Db
tables = record (with_user ada) { clients = mobile ∷ [] }

abbrev issued : AuthorizationCode
issued = code_row request 1 25 2 100

authorizes :
    (get_session (authorize plain request 1 25 2 100) tables).0 ≡ ok (to_client 22 25 (some 23))
unfolding authorize
authorizes = refl

authorize_sound_example :
    IsEntitled plain mobile request
    × (contains mobile.grant_types Literals.authorization_code ≡ true)
    × (mobile.auto_approve ≡ true)
    × (22 ≡ request.redirect_uri)
    × ((get_session (authorize plain request 1 25 2 100) tables).1
        ≡ record tables { codes = issued ∷ [] })
authorize_sound_example =
    authorize_sound plain request 1 25 2 100 tables mobile refl 22 25 (some 23) authorizes

abbrev machine : OauthClient
machine = record mobile {
  client_secret_enc = some 26;
  grant_types = Literals.client_credentials ∷ [];
}

abbrev machines : Db
machines = record (with_user ada) { clients = machine ∷ [] }

abbrev redeeming_at : Db → Result TokenResponse × Db
redeeming_at db =
    get_session (redeem_code plain defaults signs fresh 110 mobile issued (some 22) (some 24)) db

abbrev first_reply : TokenResponse
first_reply = record {
  access_token = 501;
  refresh_token = none;
  scope = some Literals.openid;
  id_token = some (record {
    sub = 1;
    aud = 21;
    email = 11;
    email_verified = true;
    tenant_id = 3;
    nonce = none;
  });
}

redeems : (redeeming_at tables).0 ≡ ok first_reply
unfolding redeem_code
redeems = refl

-- A row of the family 92 with the refresh token 94.
abbrev offline : OauthToken
offline = record {
  id = 81;
  access_token = 501;
  refresh_token = some 94;
  client_id = 21;
  user_id = 1;
  scope = Literals.offline_access;
  access_token_expires_at = 3700;
  refresh_token_expires_at = some 9000;
  revoked = false;
  token_family_id = some 92;
}

abbrev granted : Db
granted = record tables { tokens = offline ∷ [] }

abbrev second_reply : TokenResponse
second_reply = record { access_token = 501; refresh_token = some 93; scope = none; id_token = none }

rotates : (refresh plain defaults signs mobile fresh 200 94 granted).0 ≡ ok second_reply
unfolding handle_refresh_grant
rotates = refl

refresh_sound_example :
    (offline.revoked ≡ false)
    × (expired 200 offline.refresh_token_expires_at ≡ false)
    × (ada.is_active ≡ true)
    × (second_reply.refresh_token ≡ some 93)
    × ((refresh plain defaults signs mobile fresh 200 94 granted).1.tokens
        ≡ update_where (λ r. r.id == 81) revoke granted.tokens
          ++ next_row plain defaults signs fresh 200 mobile offline ada ∷ [])
refresh_sound_example =
    refresh_sound plain defaults signs mobile fresh 200 94 granted offline ada second_reply refl
      refl rotates

rotate_then_replay_example :
    let db' = (refresh plain defaults signs mobile fresh 200 94 granted).1 in
    let (reply, db'') = refresh plain defaults signs mobile fresh 300 94 db' in
    (reply ≡ err theft) × (count_where (is_live_for 21 92) db''.tokens ≡ 0)
rotate_then_replay_example =
    rotate_then_replay plain defaults signs mobile fresh fresh 200 300 93 92 granted offline ada
      second_reply refl refl refl rotates

abbrev keys : Keys
keys = record { kid = 1; private_pem = 8; public_pems = (1, 9) ∷ [] }

one_live_token_example :
    count_where (is_live 92) (refresh plain defaults signs mobile fresh 200 94 granted).1.tokens ≤ 1
one_live_token_example =
    one_live_token plain defaults keys signs 92 (next here (refreshing mobile fresh 200 94))
      (omega arith)
