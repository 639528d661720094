-- ===== src/Models/Activity.antt =====
-- app/models/login_session.py, webhook.py and audit.py: what is recorded of logins, deliveries and
-- events. An AuditRow has the columns that the queries of the audit log read.
use lite_iam.Prelude.{ℕ, Text, Bool, Option, List}

pub record LoginSession : Type 0 where
  pub id : ℕ
  pub user_id : ℕ
  pub tenant_id : ℕ
  pub ip_address : Option Text
  pub user_agent : Option Text
  pub created_at : ℕ
  pub last_seen_at : ℕ
  pub is_active : Bool

pub record TenantWebhook : Type 0 where
  pub id : ℕ
  pub tenant_id : ℕ
  pub url : Text
  pub secret_enc : Option Text
  pub events : List Text
  pub is_active : Bool

pub record WebhookDelivery : Type 0 where
  pub webhook_id : ℕ
  pub delivery_group_id : ℕ
  pub attempt : ℕ
  pub http_status : Option ℕ
  pub success : Bool

pub record AuditRow : Type 0 where
  pub id : ℕ
  pub event : Text
  pub tenant_id : Option ℕ
  pub actor_id : Option ℕ
  pub subject_id : Option ℕ
  pub created_at : ℕ
