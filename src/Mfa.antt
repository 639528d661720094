-- ===== src/Mfa.antt =====
-- app/mfa: enrolment, the code check of the second factor, and backup codes.
pub mod Totp
use lite_iam.Prelude.{Bool}
use lite_iam.Models.{User}

-- app/mfa/orchestrator.py
unfoldable pub requires_mfa : User → Bool
requires_mfa user = user.is_totp_enabled
