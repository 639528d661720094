-- ===== src/Admin/Webhooks/Dispatched.antt =====
-- app/admin/webhooks.py with the dispatch of app/core/events.py.
use lite_iam.Prelude.{
  ℕ, Text, ◌≡◌, ◌||◌, refl, true, contains, find, select_where, delete_where, count_where, List, [],
  ◌∷◌, ◌++◌, ◌==◌, arith, some, ◌&&◌,
}
use lite_iam.Models.{User, TenantWebhook}
use lite_iam.External.{External}
use lite_iam.Database.{Db, ok, get_session}
use lite_iam.Webhooks.{dispatch_webhooks, any_event}
use lite_iam.Admin.Webhooks.{
  WebhookCreate, create_webhook, delete_webhook, new_webhook, is_own, Bool,
}

-- Whether a hook's events have one.
abbrev wants : Text → TenantWebhook → Bool
wants event w = contains w.events any_event || contains w.events event

abbrev is_active_at : ℕ → TenantWebhook → Bool
is_active_at tenant_id w = (w.tenant_id == tenant_id) && w.is_active

select-snoc :
    (p : TenantWebhook → Bool) (hooks : List TenantWebhook) (w : TenantWebhook)
    → p w ≡ true
    → select_where p (hooks ++ w ∷ []) ≡ select_where p hooks ++ w ∷ []
select-snoc p [] w passes = ground arith
select-snoc p (v ∷ hooks) w passes = ground (arith, select-snoc p hooks w)

-- A hook that any user of a tenant creates, superuser or not, gets the tenant's events from then on
-- that it subscribes to, after the hooks from before.
pub created_gets_events :
    (x : External) (user : User) (id : ℕ) (body : WebhookCreate) (event : Text) (db : Db)
    → contains body.events any_event || contains body.events event ≡ true
    → let (reply, db') = get_session (create_webhook x user id body) db in
      (reply ≡ ok (new_webhook x user id body))
      × (dispatch_webhooks user.tenant_id event db'
          ≡ dispatch_webhooks user.tenant_id event db ++ new_webhook x user id body ∷ [])
unfolding create_webhook dispatch_webhooks
created_gets_events x user id body event db subscribed =
    let w = new_webhook x user id body in
    (
      refl,
      rw (select-snoc (is_active_at user.tenant_id) db.webhooks w (ground arith)) (
          select-snoc (wants event) (select_where (is_active_at user.tenant_id) db.webhooks) w
            subscribed),
    )

no_more :
    (p q : TenantWebhook → Bool) (id : ℕ) (hooks : List TenantWebhook)
    → count_where
        (λ w. w.id == id)
        (select_where p (select_where q (delete_where (λ w. w.id == id) hooks)))
      ≡ 0
no_more p q id [] = refl
no_more p q id (w ∷ hooks) = ground (arith, no_more p q id hooks)

-- A hook that its tenant's user deletes gets no event any more.
pub deleted_gets_none :
    (user : User) (id tenant_id : ℕ) (w : TenantWebhook) (event : Text) (db : Db)
    → find (is_own user id) db.webhooks ≡ some w
    → let (reply, db') = get_session (delete_webhook user id) db in
      (reply ≡ ok tt)
      × (count_where (λ v. v.id == w.id) (dispatch_webhooks tenant_id event db') ≡ 0)
unfolding delete_webhook dispatch_webhooks
deleted_gets_none user id tenant_id w event db found =
    rw found (refl, no_more (wants event) (is_active_at tenant_id) w.id db.webhooks)
