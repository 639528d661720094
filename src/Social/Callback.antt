-- ===== src/Social/Callback.antt =====
-- `google_callback` of app/api/v1/auth.py.
use lite_iam.Prelude.{
  ℕ, Text, ◌+◌, Bool, false, not, ◌&&◌, Option, none, some, List, if◌then◌else◌, truthy,
}
use lite_iam.Database.{◌>>=◌, ◌>>◌, Error, Handler, raise, or_raise, pure, emit, http}
use lite_iam.MagicLink.{SignedIn, mfa_pending, complete}
use lite_iam.External.{External}
use lite_iam.Social.{
  Codec, User, verify_oauth_state, get_tenant_by_id, state_ttl, upsert_oauth_user, google,
}
use lite_iam.Devices.{is_trusted_device}
use lite_iam.Mfa.{requires_mfa}
use lite_iam.Revocation.{revoke_token}
use lite_iam.Models.{token_issued}

-- Google's answers: the access token of a code, and the address and the id of an account.
pub record Google : Type 0 where
  pub exchange_code : Text → Option (Option Text)
  pub fetch_userinfo : Text → Option (Option Text × Option Text)

pub record CallbackRequest : Type 0 where
  pub code : Text
  pub state : Text
  pub ip_address : Option Text
  pub device_cookie : Option Text
  pub now : ℕ
  -- drawn by the upserts
  pub user_id : ℕ
  pub link_id : ℕ

-- `if not t: raise e`
abbrev pub truthy_or_raise : Option Text → Error → Handler Text
truthy_or_raise none e = raise e
truthy_or_raise (some t) e = if truthy t then pure t else raise e

module _ (x : External) (codec : Codec) (secret_key : Text) (answers : Google)
    (write_token write_mfa_pending_token : User → Text) (request : CallbackRequest) where
  trusted : User → Handler Bool
  unfolding is_trusted_device
  trusted user = elim request.device_cookie [
    | none ↦ pure false
    | some cookie ↦
        if truthy cookie then is_trusted_device x user.id cookie request.now else pure false
  ]

  -- Steps 5 and 6: the second factor, and the full token.
  unfoldable pub finish : User → Handler SignedIn
  unfolding trusted requires_mfa
  finish user = do
    skip ← trusted user
    if requires_mfa user && not skip then pure (mfa_pending (write_mfa_pending_token user)) else do
      emit token_issued (some user.tenant_id) (some user.id) request.ip_address
      pure (complete (write_token user))

  -- Steps 2 and 3: the address, the id and the access token that Google gives.
  unfoldable pub ask_google : Handler (Text × Text × Text)
  ask_google = do
    token_data ←
        or_raise (answers.exchange_code request.code) (http 400 "Google token exchange failed")
    access_token ← truthy_or_raise token_data (http 400 "No access token from Google")
    (email, google_sub) ←
        or_raise (answers.fetch_userinfo access_token) (http 400 "Failed to fetch Google user info")
    email ← truthy_or_raise email (http 400 "Google did not return email or sub")
    google_sub ← truthy_or_raise google_sub (http 400 "Google did not return email or sub")
    pure (email, google_sub, access_token)

  -- What follows the consumption of the nonce.
  unfoldable pub sign_in_with_google : Text → Handler SignedIn
  unfolding get_tenant_by_id
  sign_in_with_google tenant_id = do
    tenant ← get_tenant_by_id x tenant_id
    (email, google_sub, access_token) ← ask_google
    user ←
        upsert_oauth_user x request.user_id request.link_id email tenant.id google google_sub
          access_token
    finish user

  unfoldable pub google_callback : List Text → Handler SignedIn
  unfolding verify_oauth_state revoke_token
  google_callback revoked_jtis = do
    (tenant_id, nonce) ← verify_oauth_state codec secret_key revoked_jtis request.now request.state
    revoke_token (codec.nonce_key nonce) (request.now + state_ttl)
    sign_in_with_google tenant_id
