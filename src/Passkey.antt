-- ===== src/Passkey.antt =====
-- app/identity/passkey.py and app/api/v1/passkey.py: WebAuthn passkeys.
--
-- What py_webauthn reads and verifies is a parameter, `none` where it raises; the package is taken
-- to be installed. The structs of the pinned 2.2.0 are dataclasses without `model_validate`: with it
-- both parsers are `none` on every input. `not PasskeyCredential.is_revoked` in two of the queries is Python's `not` on a
-- class attribute: `not_attribute`. The challenges and the ids of rows are random, and arguments.
pub mod Keys
mod Unique
mod Remove
mod Tests
use lite_iam.Prelude.{
  ℕ, Text, ◌+◌, Bool, true, false, not, ◌&&◌, Option, none, some, List, [], ◌∷◌, ◌++◌, ◌==◌, ltb,
  leb, is_some, is_empty, if◌then◌else◌, truthy, find, select_where, update_where, delete_where,
  map, not_attribute, order_by,
}
use lite_iam.Models.{User, PasskeyCredential, PasskeyChallenge, mfa_enrolled, mfa_challenged}
use lite_iam.External.{External}
use lite_iam.Database.{
  ◌>>=◌, ◌>>◌, Handler, internal, gets, or_raise, raise_if, http, emit, modify, pure, commit,
  get_user,
}

abbrev pub challenge_ttl : ℕ
challenge_ttl = 300

-- "registration", "authentication" and "Security key"
abbrev pub registration : Text
registration = 5000001

abbrev pub authentication : Text
authentication = 5000002

abbrev pub security_key : Text
security_key = 5000003

-- `VerifiedRegistration`, the columns that are stored.
pub record Registration : Type 0 where
  pub credential_id : Text
  pub credential_public_key : Text
  pub sign_count : ℕ
  pub aaguid : Option Text

pub record Webauthn : Type 0 where
  -- options_to_json(generate_registration_options(…)) of a user and a challenge
  pub registration_options : User → Text → Text
  -- options_to_json(generate_authentication_options(…)) of a challenge and allowed credentials
  pub authentication_options : Text → List Text → Text
  -- RegistrationCredential.model_validate and AuthenticationCredential.model_validate
  pub registration_credential : Text → Option Text
  pub authentication_credential : Text → Option Text
  -- credential.raw_id
  pub raw_id : Text → Text
  -- verify_registration_response: credential, challenge
  pub verify_registration : Text → Text → Option Registration
  -- verify_authentication_response: credential, challenge, public key, sign count; the new count
  pub verify_authentication : Text → Text → Text → ℕ → Option ℕ

-- The challenges of a user for a purpose.
abbrev pub is_for : ℕ → Text → PasskeyChallenge → Bool
is_for user_id purpose c = (c.user_id == user_id) && (c.purpose == purpose)

-- `_store_challenge`
unfoldable pub store_challenge : ℕ → ℕ → Text → Text → ℕ → Handler (Unit {0})
store_challenge id user_id challenge purpose now = modify λ db. record db {
  challenges =
      delete_where (is_for user_id purpose) db.challenges
      ++ (record {
        id = id;
        user_id = user_id;
        challenge = challenge;
        purpose = purpose;
        expires_at = now + challenge_ttl;
      })
        ∷ [];
}

-- `_consume_challenge`
unfoldable pub consume_challenge : ℕ → Text → ℕ → Handler Text
consume_challenge user_id purpose now = do
  found ← gets (λ db. find (is_for user_id purpose) db.challenges)
  row ← or_raise found (http 400 "No pending WebAuthn challenge found")
  raise_if (ltb row.expires_at now) (http 400 "WebAuthn challenge has expired")
  modify λ db. record db { challenges = delete_where (λ c. c.id == row.id) db.challenges }
  pure row.challenge

-- `str(x) if x else None`
abbrev none_if_empty : Option Text → Option Text
none_if_empty none = none
none_if_empty (some t) = if truthy t then some t else none

abbrev pub new_passkey : ℕ → ℕ → Option Text → Registration → ℕ → PasskeyCredential
new_passkey id user_id device_name r now = record {
  id = id;
  user_id = user_id;
  credential_id = r.credential_id;
  public_key = r.credential_public_key;
  sign_count = r.sign_count;
  device_name = device_name;
  aaguid = none_if_empty r.aaguid;
  is_revoked = false;
  created_at = now;
  last_used_at = none;
}

abbrev pub has_credential_id : Text → PasskeyCredential → Bool
has_credential_id credential_id p = p.credential_id == credential_id

-- `where(PasskeyCredential.credential_id == …, not PasskeyCredential.is_revoked)`
abbrev pub is_usable : Text → PasskeyCredential → Bool
is_usable credential_id p = (p.credential_id == credential_id) && not_attribute

-- `user_id if user_id is not None else uuid.UUID(int=0)`
abbrev pub lookup_id : Option ℕ → ℕ
lookup_id none = 0
lookup_id (some user_id) = user_id

-- The id of a request's body; `uuid.UUID` of a text that is no id raises.
abbrev pub optional_id : External → Option Text → Handler (Option ℕ)
optional_id x none = pure none
optional_id x (some t) =
    if truthy t then (do id ← or_raise (x.as_uuid t) internal; pure (some id)) else pure none

module _ (w : Webauthn) where
  unfoldable pub begin_registration : User → Text → ℕ → ℕ → Handler Text
  unfolding store_challenge
  begin_registration user challenge id now = do
    store_challenge id user.id challenge registration now
    pure (w.registration_options user challenge)

  unfoldable pub complete_registration :
      User → Text → Option Text → ℕ → ℕ → Handler PasskeyCredential
  unfolding consume_challenge
  complete_registration user credential_json device_name id now = do
    challenge ← consume_challenge user.id registration now
    credential ← or_raise (w.registration_credential credential_json) internal
    verification ← or_raise (w.verify_registration credential challenge) internal
    existing ← gets (λ db. find (has_credential_id verification.credential_id) db.passkeys)
    raise_if (is_some existing) (http 409 "Passkey credential already registered")
    modify λ db. record db {
      passkeys = db.passkeys ++ new_passkey id user.id device_name verification now ∷ [];
    }
    emit mfa_enrolled (some user.tenant_id) (some user.id) none
    commit
    pure (new_passkey id user.id device_name verification now)

  -- The credentials of `begin_authentication`.
  abbrev pub allowed : ℕ → List PasskeyCredential → List PasskeyCredential
  allowed user_id passkeys = select_where (λ p. (p.user_id == user_id) && not_attribute) passkeys

  -- Without a user the challenge is stored for the nil UUID.
  unfoldable pub begin_authentication : Option ℕ → Text → ℕ → ℕ → Handler Text
  unfolding store_challenge
  begin_authentication none challenge id now = do
    store_challenge id 0 challenge authentication now
    pure (w.authentication_options challenge [])
  begin_authentication (some user_id) challenge id now = do
    credentials ← gets (λ db. allowed user_id db.passkeys)
    store_challenge id user_id challenge authentication now
    pure (w.authentication_options challenge (map (λ p. p.credential_id) credentials))

  -- From the stored credential on.
  abbrev pub assert_with : Text → Text → PasskeyCredential → ℕ → Handler User
  assert_with credential challenge stored now = do
    new_sign_count ←
        or_raise (w.verify_authentication credential challenge stored.public_key stored.sign_count)
          internal
    modify λ db. record db {
      passkeys =
          update_where (λ p. p.id == stored.id)
            (λ p. record p { sign_count = new_sign_count; last_used_at = some now }) db.passkeys;
    }
    found ← gets (get_user stored.user_id)
    user ← or_raise found (http 400 "User not found or inactive")
    raise_if (not user.is_active) (http 400 "User not found or inactive")
    emit mfa_challenged (some user.tenant_id) (some user.id) none
    commit
    pure user

  unfoldable pub complete_authentication : Text → Option ℕ → ℕ → Handler User
  unfolding consume_challenge
  complete_authentication credential_json user_id now = do
    challenge ← consume_challenge (lookup_id user_id) authentication now
    credential ← or_raise (w.authentication_credential credential_json) internal
    found ← gets (λ db. find (is_usable (w.raw_id credential)) db.passkeys)
    stored ← or_raise found (http 400 "Passkey credential not found or revoked")
    assert_with credential challenge stored now

module _ (x : External) (w : Webauthn) where
  pub passkey_authenticate_begin : Option Text → Text → ℕ → ℕ → Handler Text
  unfolding begin_authentication
  passkey_authenticate_begin user_id challenge id now = do
    user_id ← optional_id x user_id
    begin_authentication w user_id challenge id now

  -- The access token of the user.
  unfoldable pub passkey_authenticate_complete :
      (User → Text) → Text → Option Text → ℕ → Handler Text
  passkey_authenticate_complete write_token credential_json user_id now = do
    user_id ← optional_id x user_id
    user ← complete_authentication w credential_json user_id now
    pure (write_token user)
