-- ===== src/Settings.antt =====
-- app/core/config.py: the settings that the modelled code reads. Lifetimes are in seconds.
use lite_iam.Prelude.{ℕ, Bool}

pub record Settings : Type 0 where
  pub access_token_lifetime_seconds : ℕ
  pub refresh_token_lifetime_seconds : ℕ
  pub mfa_pending_token_lifetime_seconds : ℕ
  pub totp_max_failures : ℕ
  pub require_email_verification : Bool
  pub password_history_depth : ℕ
