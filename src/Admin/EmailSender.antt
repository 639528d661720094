-- ===== src/Admin/EmailSender.antt =====
-- app/admin/email_sender.py, and `resolve_tenant_sender` of app/notifications/email.py: the visible
-- sender of a tenant's mails.
mod Resolved
use lite_iam.Prelude.{ℕ, Text, Option, none, some, if◌then◌else◌, truthy}
use lite_iam.Models.{Tenant, User}
use lite_iam.External.{External}
use lite_iam.Admin.{require_superuser, tenant_at, update_tenant}
use lite_iam.Database.{◌>>=◌, ◌>>◌, Handler, Db, get_tenant, pure}

pub record EmailSenderRead : Type 0 where
  pub tenant_id : ℕ
  pub email_from_address : Option Text
  pub email_from_name : Option Text

pub record EmailSenderWrite : Type 0 where
  pub email_from_address : Option Text
  pub email_from_name : Option Text

-- `x or None`
abbrev pub or_none : Option Text → Option Text
or_none none = none
or_none (some t) = if truthy t then some t else none

abbrev pub sender_of : Tenant → EmailSenderRead
sender_of t = record {
  tenant_id = t.id;
  email_from_address = t.email_from_address;
  email_from_name = t.email_from_name;
}

abbrev pub with_sender : EmailSenderWrite → Tenant → Tenant
with_sender body t = record t {
  email_from_address = or_none body.email_from_address;
  email_from_name = or_none body.email_from_name;
}

pub get_email_sender : External → User → Text → Handler EmailSenderRead
get_email_sender x user tenant_id = do
  require_superuser user
  (tid, tenant) ← tenant_at x tenant_id
  pure (sender_of tenant)

pub set_email_sender : External → User → Text → EmailSenderWrite → Handler EmailSenderRead
set_email_sender x user tenant_id body = do
  require_superuser user
  (tid, tenant) ← tenant_at x tenant_id
  update_tenant tid (with_sender body)
  pure (sender_of (with_sender body tenant))

abbrev sender : Option Tenant → Option Text × Option Text
sender none = (none, none)
sender (some t) = (t.email_from_address, t.email_from_name)

-- `resolve_tenant_sender`
pub resolve_tenant_sender : Option ℕ → Db → Option Text × Option Text
resolve_tenant_sender none db = (none, none)
resolve_tenant_sender (some tenant_id) db = sender (get_tenant tenant_id db)
