-- ===== src/StepUp/Tests.antt =====
-- Step-ups with the pending token 1 of Ada, whose code is 42.
use lite_iam.Prelude.{Text, ◌≡◌, ◌+◌, refl, true, none, some, [], ◌∷◌, arith}
use lite_iam.Fixtures.{plain, defaults, ada, acme, with_user}
use lite_iam.External.{External}
use lite_iam.Models.{User}
use lite_iam.StepUp.{StepUpRequest, StepUpResponse, totp_disable, totp_verify}
use lite_iam.Tokens.{Keys, Stamp, pending_payload, write_mfa_pending_token, decode_token}
use lite_iam.Database.{get_session, err, http, ok}
use lite_iam.StepUp.Sound.{IsPending, totp_verify_sound}
use lite_iam.Mfa.Totp.Accepts.{ShowsTotp, IsRight}
use lite_iam.StepUp.Complete.{pending_token_completes}

abbrev keys : Keys
keys = record { kid = 1; private_pem = 8; public_pems = (1, 9) ∷ [] }

abbrev stamp : Stamp
stamp = record { base_url = 70; now = 100; jti = 71 }

-- The token 1 decodes to the claims of a pending token.
abbrev accepts : External
accepts = record plain {
  jwt_decode = λ pem token verify_exp now. some (pending_payload plain defaults keys stamp ada);
}

abbrev written : User → Text
written u = 500 + u.id

abbrev remembered : StepUpRequest
remembered = record {
  pending_token = 1;
  code = 42;
  remember_device = true;
  ip_address = none;
  now = 150;
  within_limit = true;
}

abbrev reply : StepUpResponse
reply = record { access_token = 501; device_token = some 81 }

right : IsRight accepts defaults 42 150 ada
right = (41, 42, refl, refl, refl, refl, (λ used. ground arith), omega arith)

returns :
    (get_session (totp_verify accepts defaults keys written 81 82 remembered) (with_user ada)).0
    ≡ ok reply
unfolding write_mfa_pending_token decode_token
returns =
    (pending_token_completes accepts defaults keys written 81 82 remembered stamp (with_user ada)
      ada 0 refl refl refl refl refl refl refl right).0

totp_verify_sound_example :
    (u : User) × IsPending accepts keys remembered (with_user ada) u
    × ShowsTotp accepts defaults 42 150 u
    × (501 ≡ written u)
totp_verify_sound_example =
    totp_verify_sound accepts keys remembered defaults written 81 82 (with_user ada) reply returns

-- A tenant that demands a second factor keeps it.
keeps_demanded :
    (get_session
      (totp_disable ada)
      (record (with_user ada) { tenants = (record acme { require_mfa = true }) ∷ [] })).0
    ≡ err (http 403 "MFA is required by your organisation and cannot be disabled. ")
unfolding totp_disable
keeps_demanded = refl
