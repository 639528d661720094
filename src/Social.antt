-- ===== src/Social.antt =====
-- app/identity/social.py and `google_callback` of app/api/v1/auth.py: signing in with Google.
--
-- The HMAC, the encodings and Google's answers are the libraries' and Google's, and so parameters;
-- `none` from Google is an answer that raises 400. The upserts are PostgreSQL's `ON CONFLICT DO
-- UPDATE … WHERE … RETURNING`: a conflicting row that fails the WHERE is left alone and not returned.
pub mod Callback
mod State
pub mod Account
mod Tests
use lite_iam.Prelude.{
  ℕ, Text, ◌+◌, Bool, true, false, not, ◌&&◌, Option, none, some, List, [], ◌∷◌, ◌++◌, ◌==◌, find,
  ltb, contains, update_where, if◌then◌else◌,
}
use lite_iam.Database.{
  ◌>>=◌, ◌>>◌, Handler, internal, gets, or_raise, raise_if, http, emit, modify, pure, commit,
  update_user, Error,
}
use lite_iam.Literals
use lite_iam.Models.{OauthAccount, User, Tenant, oauth_linked}
use lite_iam.External.{External}

abbrev pub state_ttl : ℕ
state_ttl = 300

-- "OAUTH_MANAGED", "google"
abbrev pub oauth_managed : Text
oauth_managed = 3000001

abbrev pub google : Text
google = 3000002

pub record Codec : Type 0 where
  -- f"{tenant_id}:{nonce}:{ts}"
  pub payload : Text → Text → Text → Text
  -- hmac.new(secret_key, payload, sha256).hexdigest()
  pub sign : Text → Text → Text
  -- base64.urlsafe_b64encode(f"{payload}:{sig}")
  pub encode : Text → Text → Text
  -- base64.urlsafe_b64decode(state).rsplit(":", 3): tenant, nonce, time, signature
  pub decode : Text → Option (Text × Text × Text × Text)
  -- str(int) and int(text), `none` where that raises
  pub show_int : ℕ → Text
  pub as_int : Text → Option ℕ
  -- f"oauth_state:{nonce}"
  pub nonce_key : Text → Text

module _ (codec : Codec) (secret_key : Text) where
  pub generate_oauth_state : Text → Text → ℕ → Text
  generate_oauth_state tenant_id nonce now =
      let payload = codec.payload tenant_id nonce (codec.show_int now) in
      codec.encode payload (codec.sign secret_key payload)

  -- From the decoded parts on.
  abbrev check_parts : List Text → ℕ → Text × Text × Text × Text → Handler (Text × Text)
  check_parts revoked_jtis now (tenant_id, nonce, ts, sig) = do
    raise_if (not (sig == codec.sign secret_key (codec.payload tenant_id nonce ts)))
        (http 400 "Invalid OAuth state signature")
    at ← or_raise (codec.as_int ts) internal
    raise_if (ltb (at + state_ttl) now) (http 400 "OAuth state has expired")
    raise_if (contains revoked_jtis (codec.nonce_key nonce)) (http 400 "OAuth state already used")
    pure (tenant_id, nonce)

  -- `verify_oauth_state`, with the worker's set of revoked ids.
  unfoldable pub verify_oauth_state : List Text → ℕ → Text → Handler (Text × Text)
  verify_oauth_state revoked_jtis now state = do
    parts ← or_raise (codec.decode state) (http 400 "Malformed OAuth state")
    check_parts revoked_jtis now parts

-- `get_tenant_by_id`
unfoldable pub get_tenant_by_id : External → Text → Handler Tenant
get_tenant_by_id x tenant_id = do
  tid ← or_raise (x.as_uuid tenant_id) (http 400 "Invalid tenant_id")
  found ← gets (λ db. find (λ t. (t.id == tid) && t.is_active) db.tenants)
  or_raise found (http 404 "Tenant not found or inactive")

-- The new rows of an upsert, and the keys of both tables.
abbrev pub new_user : ℕ → Text → ℕ → User
new_user id email tenant_id = record {
  id = id;
  email = email;
  hashed_password = oauth_managed;
  is_active = true;
  is_superuser = false;
  is_verified = true;
  tenant_id = tenant_id;
  is_totp_enabled = false;
  totp_secret_enc = none;
  totp_failure_count = 0;
  totp_last_failure_at = none;
  totp_last_used_code = none;
  failed_login_count = 0;
  locked_until = none;
  totp_backup_codes = none;
  password_history = none;
  last_login_ip = none;
  last_login_at = none;
}

abbrev pub has_email : Text → User → Bool
has_email email u = u.email == email

abbrev pub is_link : Text → Text → OauthAccount → Bool
is_link provider account_id a = (a.oauth_name == provider) && (a.account_id == account_id)

-- The upsert of the account by its address: the row it returns, if the tenant lets it.
pub upsert_user : ℕ → Text → ℕ → Handler (Option User)
upsert_user id email tenant_id = do
  conflict ← gets (λ db. find (has_email email) db.users)
  elim conflict [
    | none ↦ do
      modify λ db. record db { users = db.users ++ new_user id email tenant_id ∷ [] }
      pure (some (new_user id email tenant_id))
    | some u ↦
        if u.tenant_id == tenant_id
        then (do
          update_user u.id (λ v. record v { is_active = true })
          pure (some (record u { is_active = true })))
        else pure none
  ]

-- The upsert of the link by its provider and account there.
pub upsert_link : OauthAccount → Handler (Unit {0})
upsert_link a = do
  conflict ← gets (λ db. find (is_link a.oauth_name a.account_id) db.oauth_accounts)
  elim conflict [
    | none ↦ modify λ db. record db { oauth_accounts = db.oauth_accounts ++ a ∷ [] }
    | some old ↦ modify λ db. record db {
      oauth_accounts =
          update_where (is_link a.oauth_name a.account_id)
            (λ b. record b {
              access_token_enc = a.access_token_enc;
              account_email = a.account_email;
            })
            db.oauth_accounts;
    }
  ]

abbrev pub other_tenant : Error
other_tenant =
    http 403
      "This email is already registered under a different tenant. Contact your administrator."

module _ (x : External) where
  unfoldable pub upsert_oauth_user : ℕ → ℕ → Text → ℕ → Text → Text → Text → Handler User
  unfolding upsert_user upsert_link
  upsert_oauth_user user_id link_id email tenant_id provider provider_account_id access_token = do
    returned ← upsert_user user_id email tenant_id
    user ← or_raise returned other_tenant
    upsert_link (record {
      id = link_id;
      user_id = user.id;
      oauth_name = provider;
      account_id = provider_account_id;
      account_email = email;
      access_token_enc = x.encrypt access_token;
    })
    emit oauth_linked (some user.tenant_id) (some user.id) none
    commit
    pure user
