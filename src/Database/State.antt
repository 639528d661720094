-- ===== src/Database/State.antt =====
-- The session, the exceptions, and handlers as state and exception monad.
use lite_iam.Prelude.{ℕ, Text, String, Bool, true, false, Option, none, some, List, [], ◌∷◌, ◌++◌}
use lite_iam.Models.{
  User, Tenant, TrustedDevice, AuthEvent, AuditLog, UserInvitation, MagicLinkToken, EmailOtp,
  EmailChangeRequest, PersonalAccessToken, RevokedToken, SigningKey, PasskeyCredential,
  PasskeyChallenge, OauthAccount, TenantIdpConfig, LoginSession, TenantWebhook, WebhookDelivery,
  OauthClient, AuthorizationCode, OauthToken,
}

pub record Db : Type 0 where
  pub users : List User
  pub tenants : List Tenant
  pub devices : List TrustedDevice
  pub audit : List AuditLog
  pub invitations : List UserInvitation
  pub magic_links : List MagicLinkToken
  pub email_otps : List EmailOtp
  pub email_changes : List EmailChangeRequest
  pub pats : List PersonalAccessToken
  pub clients : List OauthClient
  pub codes : List AuthorizationCode
  pub tokens : List OauthToken
  pub revoked_tokens : List RevokedToken
  pub signing_keys : List SigningKey
  pub passkeys : List PasskeyCredential
  pub challenges : List PasskeyChallenge
  pub oauth_accounts : List OauthAccount
  pub login_sessions : List LoginSession
  pub webhooks : List TenantWebhook
  pub deliveries : List WebhookDelivery
  pub idp_configs : List TenantIdpConfig

-- `asyncio` tasks and mails that a handler starts.
pub data Task : Type 0 where
  dispatch_webhooks : AuthEvent → ℕ → Task
  new_ip_login_alert mfa_disabled_alert record_login pat_created_alert : Text → Task
  email_change_mails email_change_complete : Text → Text → Task
  invitation_mail : Text → Text → Task
  magic_link_mail email_otp_mail : Text → Text → Task
  password_reset_mail verification_mail : Text → Text → Task
  password_changed_alert : Text → Task

pub record Session : Type 0 where
  pub live : Db
  pub saved : Db
  pub spawned : List Task
  pub blacklisted : List Text

-- `HTTPException` with its status and detail, or with its Retry-After; any other exception.
pub data Error : Type 0 where
  http : ℕ → String → Error
  http_retry : ℕ → ℕ → Error
  internal : Error

pub data Result {ℓ} (A : Type ℓ) : Type ℓ where
  ok : A → Result A
  err : Error → Result A

abbrev pub Handler : Type 0 → Type 0
Handler A = Session → Result A × Session

module _ {A : Type 0} where
  abbrev pub pure : A → Handler A
  pure a s = (ok a, s)

  abbrev pub raise : Error → Handler A
  raise e s = (err e, s)

  abbrev pub gets : (Db → A) → Handler A
  gets f s = (ok (f s.live), s)

  -- `x = …; if x is None: raise e`
  abbrev pub or_raise : Option A → Error → Handler A
  or_raise none e = raise e
  or_raise (some a) e = pure a

module _ {A B : Type 0} where
  abbrev pub continue : Result A → (A → Handler B) → Handler B
  continue (ok a) f s = f a s
  continue (err e) f s = (err e, s)

  infixl 5 ◌>>=◌ ◌>>◌
  abbrev pub ◌>>=◌ : Handler A → (A → Handler B) → Handler B
  ◌>>=◌ m f s = let (r, s') = m s in continue r f s'

  abbrev pub ◌>>◌ : Handler A → Handler B → Handler B
  m >> k = m >>= λ _. k

abbrev pub raise_if : Bool → Error → Handler (Unit {0})
raise_if true e = raise e
raise_if false e = pure tt

-- `if b: …` with nothing to do otherwise.
abbrev pub when : Bool → Handler (Unit {0}) → Handler (Unit {0})
when true m = m
when false m = pure tt

abbrev pub modify : (Db → Db) → Handler (Unit {0})
modify f s = (ok tt, record s { live = f s.live })

abbrev pub commit : Handler (Unit {0})
commit s = (ok tt, record s { saved = s.live })

abbrev pub rollback : Handler (Unit {0})
rollback s = (ok tt, record s { live = s.saved })

abbrev pub spawn : Task → Handler (Unit {0})
spawn t s = (ok tt, record s { spawned = s.spawned ++ t ∷ [] })

-- What the tables are after the dependency `get_session` has closed the session.
abbrev pub settle : {A : Type 0} → Result A → Session → Db
settle (ok a) s = s.live
settle (err e) s = s.saved

abbrev pub open_session : Db → Session
open_session db = record { live = db; saved = db; spawned = []; blacklisted = [] }

-- A request: its reply, and the tables that it leaves.
abbrev pub get_session : {A : Type 0} → Handler A → Db → Result A × Db
get_session m db = let (r, s) = m (open_session db) in (r, settle r s)
