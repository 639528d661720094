-- ===== src/Tokens.antt =====
-- app/tokens/strategy.py: the signed tokens. Signing and verifying are PyJWT's.
pub mod Stages
pub mod Cache
mod Tests
use lite_iam.Prelude.{
  ℕ, Text, ◌+◌, Bool, true, false, not, ◌&&◌, Option, none, some, List, [], ◌∷◌, ◌++◌, ◌==◌,
  if◌then◌else◌, truthy, contains, lookup, bind?,
}
use lite_iam.Models.{User}
use lite_iam.Settings.{Settings}
use lite_iam.External.{External}
use lite_iam.Database.{Db, get_user}
use lite_iam.Literals

abbrev pub Claims : Type 0
Claims = List (Text × Text)

-- `_RESERVED_CLAIMS`
abbrev pub reserved_claims : List Text
reserved_claims =
    Literals.iss ∷ Literals.sub ∷ Literals.aud ∷ Literals.exp ∷ Literals.iat ∷ Literals.nbf
    ∷ Literals.jti ∷ Literals.email ∷ Literals.tenant_id ∷ Literals.tenant_name
    ∷ Literals.tenant_slug ∷ Literals.auth_stage ∷ []

-- What `_get_tenant_record` loads for a tenant.
pub record TenantRecord : Type 0 where
  pub custom : Claims
  pub name : Text
  pub slug : Text

-- `{k: v for k, v in raw.items() if k not in _RESERVED_CLAIMS}`
unfoldable pub strip_reserved : Claims → Claims
strip_reserved [] = []
strip_reserved ((k, v) ∷ raw) =
    let rest = strip_reserved raw in if contains reserved_claims k then rest else (k, v) ∷ rest

-- The keys of the `KeyManager` that a request reads.
pub record Keys : Type 0 where
  pub kid : Text
  pub private_pem : Text
  pub public_pems : List (Text × Text)

-- What a token is issued with: the base URL, the time and a random id.
pub record Stamp : Type 0 where
  pub base_url : Text
  pub now : ℕ
  pub jti : Text

-- `override_lifetime or timedelta(seconds=…)`
abbrev pub token_lifetime : Settings → Option ℕ → ℕ
token_lifetime cfg none = cfg.access_token_lifetime_seconds
token_lifetime cfg (some l) = if truthy l then l else cfg.access_token_lifetime_seconds

-- `payload.get("auth_stage") == stage`
abbrev pub has_stage : Text → Claims → Bool
has_stage stage payload = elim (lookup Literals.auth_stage payload) [
  | none ↦ false
  | some s ↦ s == stage
]

-- `jti and is_revoked(jti)`, against the worker's set.
abbrev pub is_blacklisted : List Text → Claims → Bool
is_blacklisted revoked_jtis payload = elim (lookup Literals.jti payload) [
  | none ↦ false
  | some jti ↦ truthy jti && contains revoked_jtis jti
]

module _ (x : External) (cfg : Settings) (keys : Keys) where
  -- The payload of `write_token`: the reserved claims come last and overwrite.
  abbrev pub token_payload : Stamp → TenantRecord → Option ℕ → Claims → User → Claims
  token_payload stamp tenant override_lifetime extra_claims user =
      ((Literals.iss, stamp.base_url)
        ∷ (Literals.sub, x.str_uuid user.id)
        ∷ (Literals.aud, Literals.audience)
        ∷ (Literals.iat, stamp.now)
        ∷ (Literals.nbf, stamp.now)
        ∷ (Literals.exp, stamp.now + token_lifetime cfg override_lifetime)
        ∷ (Literals.jti, stamp.jti)
        ∷ (Literals.email, user.email)
        ∷ (Literals.tenant_id, x.str_uuid user.tenant_id)
        ∷ (Literals.tenant_name, tenant.name)
        ∷ (Literals.tenant_slug, tenant.slug)
        ∷ (Literals.auth_stage, Literals.complete)
        ∷ [])
      ++ (extra_claims ++ tenant.custom)

  unfoldable pub write_token : Stamp → TenantRecord → Option ℕ → Claims → User → Text
  write_token stamp tenant override_lifetime extra_claims user =
      x.jwt_encode keys.private_pem keys.kid
        (token_payload stamp tenant override_lifetime extra_claims user)

  abbrev pub pending_payload : Stamp → User → Claims
  pending_payload stamp user =
      (Literals.iss, stamp.base_url)
      ∷ (Literals.sub, x.str_uuid user.id)
      ∷ (Literals.aud, Literals.audience)
      ∷ (Literals.iat, stamp.now)
      ∷ (Literals.nbf, stamp.now)
      ∷ (Literals.exp, stamp.now + cfg.mfa_pending_token_lifetime_seconds)
      ∷ (Literals.jti, stamp.jti)
      ∷ (Literals.tenant_id, x.str_uuid user.tenant_id)
      ∷ (Literals.auth_stage, Literals.mfa_pending)
      ∷ []

  unfoldable pub write_mfa_pending_token : Stamp → User → Text
  write_mfa_pending_token stamp user =
      x.jwt_encode keys.private_pem keys.kid (pending_payload stamp user)

-- The shared head of the readers: the key of the header's `kid`, then PyJWT's checks.
unfoldable pub decode_token : External → Keys → Bool → ℕ → Text → Option Claims
decode_token x keys verify_exp now token = bind? (x.jwt_kid token) (λ kid.
    if truthy kid
    then bind? (lookup kid keys.public_pems) (λ pem. x.jwt_decode pem token verify_exp now)
    else none)

-- The user that a payload names.
abbrev pub subject_of : External → Claims → Db → Option User
subject_of x payload db =
    bind? (lookup Literals.sub payload)
      (λ user_id. if truthy user_id then bind? (x.as_uuid user_id) (λ id. get_user id db) else none)

-- `none` on every failure, an exception too.
unfoldable pub read_token : External → Keys → List Text → ℕ → Option Text → Db → Option User
read_token x keys revoked_jtis now none db = none
read_token x keys revoked_jtis now (some token) db =
    if truthy token
    then bind? (decode_token x keys true now token) (λ payload.
      if not (has_stage Literals.complete payload)
      then none
      else if is_blacklisted revoked_jtis payload
      then none
      else subject_of x payload db)
    else none

unfoldable pub read_mfa_pending_token : External → Keys → ℕ → Text → Option Claims
read_mfa_pending_token x keys now token =
    bind? (decode_token x keys true now token)
      (λ payload. if has_stage Literals.mfa_pending payload then some payload else none)

-- What `destroy_token` blacklists: the id of a token that the service signed, expired or not.
unfoldable pub destroyed_jti : External → Keys → ℕ → Text → Option (Text × ℕ)
destroyed_jti x keys now token = bind? (decode_token x keys false now token) (λ payload.
    bind? (lookup Literals.jti payload) (λ jti.
      bind? (lookup Literals.exp payload)
        (λ exp. if truthy jti && truthy exp then some (jti, exp) else none)))
