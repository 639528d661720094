-- ===== src/Admin/EmailSender/Resolved.antt =====
-- app/admin/email_sender.py: what is set is what the mails are sent with.
use lite_iam.Prelude.{ℕ, Text, ◌≡◌, refl, true, some, ◌==◌}
use lite_iam.Models.{User, Tenant}
use lite_iam.External.{External}
use lite_iam.Database.{Db, ok, get_session, get_tenant}
use lite_iam.Database.Runs.{find-update_where}
use lite_iam.Admin.EmailSender.{
  EmailSenderWrite, get_email_sender, set_email_sender, resolve_tenant_sender, or_none, sender_of,
  with_sender,
}

module _ (x : External) (user : User) (tenant_id : Text) (tid : ℕ) (body : EmailSenderWrite)
    (tenant : Tenant) (db : Db) where
  -- A superuser's write to a stored tenant is returned, read back, and the sender that its mails
  -- resolve, with an empty text as none.
  pub set_then_resolve :
      user.is_superuser ≡ true
      → x.as_uuid tenant_id ≡ some tid
      → get_tenant tid db ≡ some tenant
      → let (reply, db') = get_session (set_email_sender x user tenant_id body) db in
        (reply ≡ ok (sender_of (with_sender body tenant)))
        × (get_session (get_email_sender x user tenant_id) db' ≡ (reply, db'))
        × (resolve_tenant_sender (some tid) db'
            ≡ (or_none body.email_from_address, or_none body.email_from_name))
  unfolding set_email_sender get_email_sender resolve_tenant_sender
  set_then_resolve chief parsed found =
      let found' =
        find-update_where (λ t. t.id == tid) (with_sender body) db.tenants tenant (λ a. refl)
          found in
      rw (chief, parsed, found) (refl, rw found' refl, rw found' refl)
