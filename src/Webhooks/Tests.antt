-- ===== src/Webhooks/Tests.antt =====
-- Deliveries to a receiver that answers 503, then 200.
use lite_iam.Prelude.{
  ℕ, ◌≡◌, refl, true, false, Option, none, some, [], ◌∷◌, if◌then◌else◌, ◌==◌, length, ◌≤◌,
  count_where, ◌<◌,
}
use lite_iam.Fixtures.{no_rows}
use lite_iam.Models.{TenantWebhook}
use lite_iam.Webhooks.{deliver_with_retry, deliver_from, dispatch_webhooks, is_success}
use lite_iam.Webhooks.Retry.{delivery_stops}

abbrev answers : ℕ → Option ℕ
answers attempt = if attempt == 0 then some 503 else some 200

second_attempt : (deliver_with_retry answers 1 2).1 ≡ true
unfolding deliver_with_retry deliver_from
second_attempt = refl

delivery_stops_example :
    let (rows, delivered, slept) = deliver_with_retry answers 1 2 in
    (length rows ≤ 3)
    × (slept ≤ 330)
    × (count_where (λ r. r.success) rows ≡ (if delivered then 1 else 0))
    × (delivered ≡ false → length rows ≡ 3)
    × ((n : ℕ) → n < 3 → is_success (answers n) ≡ true → delivered ≡ true)
delivery_stops_example = delivery_stops answers 1 2

abbrev hook : ℕ → TenantWebhook
hook tenant_id = record {
  id = 5;
  tenant_id = tenant_id;
  url = 6;
  secret_enc = none;
  events = 7 ∷ [];
  is_active = true;
}

-- Only the tenant's own hooks are called.
own_hooks : dispatch_webhooks 3 7 (record no_rows { webhooks = hook 3 ∷ hook 4 ∷ [] }) ≡ hook 3 ∷ []
unfolding dispatch_webhooks
own_hooks = refl
