-- ===== src/Tokens/Tests.antt =====
-- Tokens under a stand-in for PyJWT that knows one token.
use lite_iam.Prelude.{◌≡◌, refl, false, none, some, [], ◌∷◌, contains, lookup}
use lite_iam.External.{External}
use lite_iam.Literals
use lite_iam.Database.{get_user}
use lite_iam.Fixtures.{plain, defaults, ada, with_user}
use lite_iam.Tokens.{
  Claims, Keys, Stamp, TenantRecord, token_payload, write_token, pending_payload, decode_token,
  read_token, read_mfa_pending_token,
}
use lite_iam.Tokens.Stages.{reserved_claims_hold, read-write}

-- The key 1 signs, and the token 1 decodes to these claims.
abbrev knows : Claims → External
knows claims = record plain { jwt_decode = λ pem token verify_exp now. some claims }

abbrev keys : Keys
keys = record { kid = 1; private_pem = 8; public_pems = (1, 9) ∷ [] }

abbrev stamp : Stamp
stamp = record { base_url = 70; now = 100; jti = 71 }

-- A tenant whose custom claims name the stage and a plan.
abbrev tenant : TenantRecord
tenant = record {
  custom = (Literals.auth_stage, Literals.mfa_pending) ∷ (77, 5) ∷ [];
  name = 32;
  slug = 31;
}

abbrev full : Claims
full = token_payload plain defaults keys stamp tenant none [] ada

abbrev pending : Claims
pending = pending_payload plain defaults keys stamp ada

reserved_claims_hold_example : lookup Literals.auth_stage full ≡ some Literals.complete
reserved_claims_hold_example =
    reserved_claims_hold plain defaults keys stamp ada tenant none [] Literals.auth_stage refl

read-write_example :
    (contains [] 71 ≡ false
      → read_token (knows full) keys [] 150 (some 1) (with_user ada) ≡ get_user 1 (with_user ada))
    × (read_mfa_pending_token (knows full) keys 150 1 ≡ none)
unfolding write_token decode_token
read-write_example =
    read-write (knows full) defaults keys stamp 150 ada [] tenant none [] 0 0 (with_user ada) refl
      refl refl refl
