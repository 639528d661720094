-- ===== src/Social/Tests.antt =====
-- The state 1 of the tenant 3 with the nonce 51, signed at 100.
use lite_iam.Models.{RevokedToken}
use lite_iam.Revocation.{has_jti}
use lite_iam.Prelude.{
  Text, ◌+◌, ◌≡◌, ◌≢◌, ◌⊎◌, refl, true, none, some, [], ltb, if◌then◌else◌, find,
}
use lite_iam.Fixtures.{plain, ada, with_user}
use lite_iam.Database.{Error, ok, open_session, err, http, internal}
use lite_iam.Models.{User, RevokedToken}
use lite_iam.Social.{
  Codec, verify_oauth_state, generate_oauth_state, has_email, state_ttl, other_tenant,
}
use lite_iam.Social.Callback.{CallbackRequest, Google}
use lite_iam.Social.State.{checked, called_back, callback_consumes, generate_then_verify}
use lite_iam.Social.Account.{IsLinked, upserted, upsert_oauth_user_lem}
use lite_iam.Revocation.{has_jti}

abbrev codec : Codec
codec = record {
  payload = λ tenant_id nonce ts. tenant_id + nonce + ts;
  sign = λ secret_key payload. secret_key + payload;
  encode = λ payload sig. 1;
  decode = λ state. some (3, 51, 100, 9 + (3 + 51 + 100));
  show_int = λ n. n;
  as_int = λ t. some t;
  nonce_key = λ nonce. nonce;
}

abbrev nobody : Google
nobody = record { exchange_code = λ code. none; fetch_userinfo = λ token. none }

abbrev request : CallbackRequest
request = record {
  code = 5;
  state = 1;
  ip_address = none;
  device_cookie = none;
  now = 150;
  user_id = 2;
  link_id = 6;
}

abbrev token : User → Text
token u = 500 + u.id

generate_then_verify_example :
    verify_oauth_state codec 9 [] 150
      (generate_oauth_state codec 9 3 51 100)
      (open_session (with_user ada))
    ≡ (if ltb (100 + state_ttl) 150
        then (err (http 400 "OAuth state has expired"), open_session (with_user ada))
        else (ok (3, 51), open_session (with_user ada)))
generate_then_verify_example =
    generate_then_verify codec 9 3 51 100 150 [] (open_session (with_user ada)) refl refl refl

accepted : checked plain codec 9 nobody token token request [] 150 (with_user ada) ≡ ok (3, 51)
unfolding verify_oauth_state
accepted = refl

callback_consumes_example :
    ((row : RevokedToken) × (find (has_jti 51) (with_user ada).revoked_tokens ≡ some row)
      × (called_back plain codec 9 nobody token token request [] (with_user ada)
          ≡ (err internal, open_session (with_user ada))))
    ⊎ ((e : Error) × (checked plain codec 9 nobody token token request
            (called_back plain codec 9 nobody token token request [] (with_user ada)).1.blacklisted
            160
            (with_user ada)
          ≡ err e))
callback_consumes_example =
    callback_consumes plain codec 9 nobody token token request [] 3 51 160 (with_user ada)
      (with_user ada) accepted

upsert_oauth_user_lem_example :
    ((user : User) × IsLinked plain 2 6 11 3 21 22 23 (with_user ada) user
      × ((find (has_email 11) (with_user ada).users ≡ none)
          ⊎ ((u : User) × (find (has_email 11) (with_user ada).users ≡ some u)
              × (user ≡ record u { is_active = true }))))
    ⊎ ((u : User) × (find (has_email 11) (with_user ada).users ≡ some u)
        × (u.tenant_id ≢ 3)
        × (upserted plain 2 6 11 3 21 22 23 (with_user ada) ≡ (err other_tenant, with_user ada)))
upsert_oauth_user_lem_example = upsert_oauth_user_lem plain 2 6 11 3 21 22 23 (with_user ada)
