-- ===== src/MagicLink/Redeem.antt =====
-- The lookup of a link as it is written, and what the rest of the handler does with a row.
use lite_iam.Prelude.{
  Option, ◌⊎◌, ℕ, Text, ◌≡◌, refl, true, false, none, some, List, [], ◌∷◌, arith, ◌==◌, find,
  update_where, Option-cases, inl, inr, ◌++◌,
}
use lite_iam.Models.{magic_link_sent, User, Tenant, MagicLinkToken}
use lite_iam.External.{External}
use lite_iam.Database.{
  Db, Error, ok, err, get_session, get_tenant, open_session, dispatch_webhooks, magic_link_mail,
}
use lite_iam.Database.Runs.{find_holds}
use lite_iam.MagicLink.{
  SignedIn, mfa_pending, complete, rejected, is_account, is_valid, redeem_link, verify_magic_link,
  send_magic_link, new_link,
}

module _ (x : External) (write_token write_mfa_pending_token : User → Text) where
  none_valid :
      (token : Text) (now : ℕ) (rows : List MagicLinkToken)
      → find (is_valid x write_token write_mfa_pending_token token now) rows ≡ none
  none_valid token now [] = refl
  none_valid token now (r ∷ rows) = ground (arith, none_valid token now rows)

  -- Whatever links are stored, the magic-link handler rejects every token with 400 and changes
  -- nothing.
  pub verify_rejects :
      (token : Text) (now : ℕ) (db : Db)
      → get_session (verify_magic_link x write_token write_mfa_pending_token token now) db
        ≡ (err rejected, db)
  unfolding verify_magic_link
  verify_rejects token now db = rw (none_valid token now db.magic_links) refl

  abbrev pub used : ℕ → MagicLinkToken → MagicLinkToken
  used now r = record r { used_at = some now }

  -- If the part of the magic-link handler that follows the lookup succeeds for a row, there is an
  -- active account with the row's address. With TOTP it gets a pending token; without TOTP it gets
  -- a full token, and its tenant does not demand a second factor. The link is then marked as used.
  pub redeem_link_sound :
      (row : MagicLinkToken) (now : ℕ) (db : Db) (reply : SignedIn)
      → (get_session (redeem_link x write_token write_mfa_pending_token row now) db).0 ≡ ok reply
      → (user : User) × (find (is_account row.email) db.users ≡ some user)
        × (user.email ≡ row.email)
        × (user.is_active ≡ true)
        × ((user.is_totp_enabled ≡ true × (reply ≡ mfa_pending (write_mfa_pending_token user)))
            ⊎ ((user.is_totp_enabled ≡ false)
                × (reply ≡ complete (write_token user))
                × ((t : Tenant) → get_tenant user.tenant_id db ≡ some t → t.require_mfa ≡ false)))
        × ((get_session
              (redeem_link x write_token write_mfa_pending_token row now)
              db).1.magic_links
            ≡ update_where (λ r. r.id == row.id) (used now) db.magic_links)
  unfolding redeem_link
  redeem_link_sound row now db reply done =
      elim (Option-cases (find (is_account row.email) db.users)) [
        | inl gone ↦ absurd (ground arith)
        | inr (user, found) ↦
            let account = find_holds (is_account row.email) db.users user found in
            (user, found, ground arith, ground arith, ground arith, ground arith)
      ]

  -- A row that is not redeemed leaves every table as it was.
  pub redeem_link_err :
      (row : MagicLinkToken) (now : ℕ) (db : Db) (e : Error)
      → (get_session (redeem_link x write_token write_mfa_pending_token row now) db).0 ≡ err e
      → (get_session (redeem_link x write_token write_mfa_pending_token row now) db).1 ≡ db
  unfolding redeem_link
  redeem_link_err row now db e failed = ground arith

module _ (x : External) (email : Text) (ip_address : Option Text) (raw_token : Text) (id now : ℕ)
    (db : Db) where
  -- The reply to a request for a link is the same whether an active account has the address or
  -- not. Without one nothing happens; with one the link's row is stored and its token mailed.
  pub send_magic_link_lem :
      let (r, s) = send_magic_link x email ip_address raw_token id now (open_session db) in
      (r ≡ ok tt)
      × (((find (is_account email) db.users ≡ none) × (s ≡ open_session db))
          ⊎ ((user : User) × (find (is_account email) db.users ≡ some user)
              × (s.saved.magic_links
                  ≡ db.magic_links ++ new_link x email user ip_address raw_token id now ∷ [])
              × (s.spawned
                  ≡ dispatch_webhooks magic_link_sent user.tenant_id
                    ∷ magic_link_mail email raw_token
                    ∷ [])))
  unfolding send_magic_link
  send_magic_link_lem = elim (Option-cases (find (is_account email) db.users)) [
    | inl unknown ↦ (ground arith, inl (unknown, ground arith))
    | inr (user, known) ↦ (ground arith, inr (user, known, ground arith, ground arith))
  ]
