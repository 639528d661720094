-- ===== src/Models/Ticket.antt =====
-- app/models/invitation.py, magic_link.py, email_otp.py, email_change.py, pat.py and
-- revoked_token.py: what is handed out once and redeemed later.
use lite_iam.Prelude.{ℕ, Text, Bool, Option, List}

pub record UserInvitation : Type 0 where
  pub id : ℕ
  pub tenant_id : ℕ
  pub email : Text
  pub token_hash : Text
  pub role : Text
  pub invited_by_id : Option ℕ
  pub created_at : ℕ
  pub expires_at : ℕ
  pub accepted_at : Option ℕ

pub record MagicLinkToken : Type 0 where
  pub id : ℕ
  pub token_hash : Text
  pub email : Text
  pub tenant_id : ℕ
  pub expires_at : ℕ
  pub used_at : Option ℕ
  pub ip_address : Option Text

pub record EmailOtp : Type 0 where
  pub id : ℕ
  pub code_hash : Text
  pub email : Text
  pub tenant_id : ℕ
  pub attempts : ℕ
  pub expires_at : ℕ
  pub used_at : Option ℕ
  pub ip_address : Option Text

pub record EmailChangeRequest : Type 0 where
  pub id : ℕ
  pub user_id : ℕ
  pub tenant_id : ℕ
  pub new_email : Text
  pub token_hash : Text
  pub expires_at : ℕ
  pub is_used : Bool

pub record PersonalAccessToken : Type 0 where
  pub id : ℕ
  pub user_id : ℕ
  pub tenant_id : ℕ
  pub name : Text
  pub token_hash : Text
  pub scopes : List Text
  pub expires_at : Option ℕ
  pub is_active : Bool

pub record RevokedToken : Type 0 where
  pub jti : Text
  pub expires_at : ℕ
