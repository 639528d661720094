-- ===== src/Admin/Webhooks.antt =====
-- app/admin/webhooks.py: the webhooks of a tenant, which every user of it manages.
mod Dispatched
use lite_iam.Prelude.{
  ℕ, Text, Bool, true, ◌&&◌, Option, none, some, List, ◌∷◌, [], ◌++◌, ◌==◌, find, select_where,
  delete_where, truthy, if◌then◌else◌,
}
use lite_iam.Models.{User, TenantWebhook, webhook_created, webhook_deleted}
use lite_iam.External.{External}
use lite_iam.Database.{◌>>=◌, ◌>>◌, Handler, gets, or_raise, http, emit, modify, pure, commit}

pub record WebhookCreate : Type 0 where
  pub url : Text
  pub secret : Option Text
  pub events : List Text

abbrev pub secret_enc : External → Option Text → Option Text
secret_enc x none = none
secret_enc x (some secret) = if truthy secret then some (x.encrypt secret) else none

abbrev pub new_webhook : External → User → ℕ → WebhookCreate → TenantWebhook
new_webhook x user id body = record {
  id = id;
  tenant_id = user.tenant_id;
  url = body.url;
  secret_enc = secret_enc x body.secret;
  events = body.events;
  is_active = true;
}

pub list_webhooks : User → Handler (List TenantWebhook)
list_webhooks user = gets (λ db. select_where (λ w. w.tenant_id == user.tenant_id) db.webhooks)

pub create_webhook : External → User → ℕ → WebhookCreate → Handler TenantWebhook
create_webhook x user id body = do
  modify λ db. record db { webhooks = db.webhooks ++ new_webhook x user id body ∷ [] }
  emit webhook_created (some user.tenant_id) none none
  commit
  pure (new_webhook x user id body)

abbrev pub is_own : User → ℕ → TenantWebhook → Bool
is_own user webhook_id w = (w.id == webhook_id) && (w.tenant_id == user.tenant_id)

pub delete_webhook : User → ℕ → Handler (Unit {0})
delete_webhook user webhook_id = do
  found ← gets (λ db. find (is_own user webhook_id) db.webhooks)
  wh ← or_raise found (http 404 "Webhook not found")
  modify λ db. record db { webhooks = delete_where (λ w. w.id == wh.id) db.webhooks }
  emit webhook_deleted (some user.tenant_id) none none
  commit
