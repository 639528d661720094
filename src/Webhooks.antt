-- ===== src/Webhooks.antt =====
-- `_dispatch_webhooks` and `_deliver_with_retry` of app/core/events.py: the deliveries of an event.
-- The receiver's answer to each attempt is an argument: a status, or `none` where the request
-- raises. An insert of the log that fails is swallowed by the code and left out, and so is the
-- signature of the body.
mod Retry
mod Tests
use lite_iam.Prelude.{
  ℕ, Text, ◌+◌, Bool, true, false, ◌&&◌, ◌||◌, Option, none, some, List, [], ◌∷◌, ◌++◌, ◌==◌, leb,
  contains, if◌then◌else◌, ltb, select_where,
}
use lite_iam.Database.{Db}
use lite_iam.Models.{TenantWebhook, WebhookDelivery}

abbrev pub retry_delays : List ℕ
retry_delays = 0 ∷ 30 ∷ 300 ∷ []

-- `http_status is not None and 200 <= http_status < 300`
abbrev pub is_success : Option ℕ → Bool
is_success none = false
is_success (some status) = leb 200 status && ltb status 300

module _ (answer : ℕ → Option ℕ) (webhook_id delivery_group_id : ℕ) where
  -- The row of an attempt, counted from 0.
  abbrev pub delivery_row : ℕ → WebhookDelivery
  delivery_row attempt = record {
    webhook_id = webhook_id;
    delivery_group_id = delivery_group_id;
    attempt = attempt + 1;
    http_status = answer attempt;
    success = is_success (answer attempt);
  }

  -- The loop over the delays from an attempt on: the rows that it logs, whether the event was
  -- delivered, and the seconds slept.
  pub deliver_from : List ℕ → ℕ → List WebhookDelivery × Bool × ℕ
  deliver_from [] attempt = ([], false, 0)
  deliver_from (delay ∷ delays) attempt =
      let (rows, delivered, slept) = deliver_from delays (attempt + 1) in
      if is_success (answer attempt)
      then (delivery_row attempt ∷ [], true, delay)
      else (delivery_row attempt ∷ rows, delivered, delay + slept)

  pub deliver_with_retry : List WebhookDelivery × Bool × ℕ
  deliver_with_retry = deliver_from retry_delays 0

-- "*"
abbrev pub any_event : Text
any_event = 3000003

abbrev pub is_subscribed : ℕ → Text → TenantWebhook → Bool
is_subscribed tenant_id event w =
    (w.tenant_id == tenant_id)
    && w.is_active
    && (contains w.events any_event || contains w.events event)

-- `_dispatch_webhooks`: the hooks that get the event. The subscription is tested after the query.
unfoldable pub dispatch_webhooks : ℕ → Text → Db → List TenantWebhook
dispatch_webhooks tenant_id event db =
    select_where (λ w. contains w.events any_event || contains w.events event)
      (select_where (λ w. (w.tenant_id == tenant_id) && w.is_active) db.webhooks)
