-- ===== src/Fixtures.antt =====
-- Inputs that the tests share: a stand-in for the libraries, an account and empty tables.
use lite_iam.Prelude.{◌+◌, ◌*◌, true, false, none, some, [], ◌∷◌, ◌==◌}
use lite_iam.Models.{User, Tenant}
use lite_iam.Settings.{Settings}
use lite_iam.External.{External}
use lite_iam.Database.{Db}

-- Hashes and ciphertexts are the texts themselves, and a code is right if it is the secret.
abbrev pub plain : External
plain = record {
  sha256 = λ t. t;
  encrypt = λ t. t;
  decrypt = λ t. some t;
  totp_verify = λ secret code now. secret == code;
  strip_upper = λ t. t;
  lower = λ t. t;
  strip = λ t. t;
  colon = λ a b. 1000 * a + b;
  argon2_verify = λ hash password. hash == password;
  s256 = λ t. t;
  words = λ t. t ∷ [];
  has_substring = λ part text. part == text;
  basic_credentials = λ header. none;
  str_uuid = λ n. n;
  as_uuid = λ t. some t;
  client_subject = λ t. t;
  jwt_kid = λ token. some 1;
  jwt_encode = λ pem kid claims. 1;
  jwt_decode = λ pem token verify_exp now. none;
  as_ip = λ t. some t;
  in_network = λ ip cidr. some (ip == cidr);
}

abbrev pub defaults : Settings
defaults = record {
  access_token_lifetime_seconds = 3600;
  refresh_token_lifetime_seconds = 2592000;
  mfa_pending_token_lifetime_seconds = 300;
  totp_max_failures = 5;
  require_email_verification = false;
  password_history_depth = 5;
}

-- A user with the password 7, the TOTP secret 42 and two backup codes.
abbrev pub ada : User
ada = record {
  id = 1;
  email = 11;
  hashed_password = 7;
  is_active = true;
  is_superuser = false;
  is_verified = true;
  tenant_id = 3;
  is_totp_enabled = true;
  totp_secret_enc = some 42;
  totp_failure_count = 0;
  totp_last_failure_at = none;
  totp_last_used_code = none;
  failed_login_count = 0;
  locked_until = none;
  totp_backup_codes = some (901 ∷ 902 ∷ []);
  password_history = none;
  last_login_ip = none;
  last_login_at = none;
}

abbrev pub acme : Tenant
acme = record {
  id = 3;
  slug = 31;
  name = 32;
  is_active = true;
  ip_allowlist = none;
  ip_blocklist = none;
  require_mfa = false;
  custom_jwt_claims = none;
  audit_log_retention_days = 90;
  email_from_address = none;
  email_from_name = none;
}

abbrev pub no_rows : Db
no_rows = record {
  users = [];
  tenants = [];
  devices = [];
  audit = [];
  invitations = [];
  magic_links = [];
  email_otps = [];
  email_changes = [];
  pats = [];
  clients = [];
  codes = [];
  tokens = [];
  revoked_tokens = [];
  signing_keys = [];
  passkeys = [];
  challenges = [];
  oauth_accounts = [];
  login_sessions = [];
  webhooks = [];
  deliveries = [];
  idp_configs = [];
}

-- The tables with one user, in its tenant.
abbrev pub with_user : User → Db
with_user u = record no_rows { users = u ∷ []; tenants = acme ∷ [] }
