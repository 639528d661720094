-- ===== src/MagicLink.antt =====
-- app/api/v1/magic_link.py: signing in with a link that was mailed. The random token and the row's
-- id are arguments, and the two signers a parameter.
--
-- `MagicLinkToken.used_at is None` in the lookup is Python's identity test: `attribute_is_none`.
mod Redeem
mod Tests
use lite_iam.Prelude.{
  ℕ, Text, ◌+◌, ◌*◌, Bool, true, false, not, ◌&&◌, Option, none, some, [], ◌∷◌, ◌++◌, ltb, ◌==◌,
  if◌then◌else◌, find, update_where, attribute_is_none,
}
use lite_iam.Models.{AuthEvent, User, MagicLinkToken, magic_link_sent, magic_link_used}
use lite_iam.External.{External}
use lite_iam.Database.{
  Handler, Error, http, magic_link_mail, pure, raise, gets, or_raise, when, modify, commit,
  rollback, emit, spawn, get_tenant, update_user, ◌>>=◌, ◌>>◌,
}
use lite_iam.Mfa.{requires_mfa}

abbrev pub link_ttl : ℕ
link_ttl = 15 * 60

abbrev pub rejected : Error
rejected = http 400 "Magic link is invalid, expired, or already used."

-- The stage of the token that is returned.
pub data SignedIn : Type 0 where
  mfa_pending complete : Text → SignedIn

abbrev pub is_account : Text → User → Bool
is_account email u = (u.email == email) && u.is_active

module _ (x : External) where
  abbrev pub new_link : Text → User → Option Text → Text → ℕ → ℕ → MagicLinkToken
  new_link email user ip_address raw_token id now = record {
    id = id;
    token_hash = x.sha256 raw_token;
    email = email;
    tenant_id = user.tenant_id;
    expires_at = now + link_ttl;
    used_at = none;
    ip_address = ip_address;
  }

  abbrev send_to : Text → Option Text → Text → ℕ → ℕ → Option User → Handler (Unit {0})
  send_to email ip_address raw_token id now none = pure tt
  send_to email ip_address raw_token id now (some user) = do
    modify λ db. record db {
      magic_links = db.magic_links ++ new_link email user ip_address raw_token id now ∷ [];
    }
    emit magic_link_sent (some user.tenant_id) (some user.id) none
    commit
    spawn (magic_link_mail email raw_token)

  -- `send_magic_link`: the reply is the same whether there is such an account or not.
  pub send_magic_link : Text → Option Text → Text → ℕ → ℕ → Handler (Unit {0})
  send_magic_link email ip_address raw_token id now = do
    user ← gets (λ db. find (is_account email) db.users)
    send_to email ip_address raw_token id now user

module _ (x : External) (write_token write_mfa_pending_token : User → Text) where
  -- Rolled back, then refused.
  abbrev pub give_up : {A : Type 0} → Error → Handler A
  give_up e = rollback >> raise e

  -- What is left for an account: the tenant's demand, the audit row, the token.
  unfoldable pub sign_in : AuthEvent → User → Handler SignedIn
  unfolding requires_mfa
  sign_in event user = do
    when (not user.is_verified) (update_user user.id (λ u. record u { is_verified = true }))
    tenant ← gets (get_tenant user.tenant_id)
    if elim tenant [ none ↦ false | some t ↦ t.require_mfa ] && not user.is_totp_enabled
        then give_up (http 403 "Multi-factor authentication is required for this organisation.")
        else do
          emit event (some user.tenant_id) (some user.id) none
          commit
          if requires_mfa user
              then pure (mfa_pending (write_mfa_pending_token user))
              else pure (complete (write_token user))

  -- `verify_magic_link` from the row on.
  pub redeem_link : MagicLinkToken → ℕ → Handler SignedIn
  unfolding sign_in
  redeem_link row now = do
    modify λ db. record db {
      magic_links =
          update_where (λ r. r.id == row.id) (λ r. record r { used_at = some now }) db.magic_links;
    }
    user ← gets (λ db. find (is_account row.email) db.users)
    elim user [ none ↦ give_up rejected | some user ↦ sign_in magic_link_used user ]

  abbrev pub is_valid : Text → ℕ → MagicLinkToken → Bool
  is_valid token now r =
      (r.token_hash == x.sha256 token) && attribute_is_none && ltb now r.expires_at

  -- `verify_magic_link`
  pub verify_magic_link : Text → ℕ → Handler SignedIn
  verify_magic_link token now = do
    found ← gets (λ db. find (is_valid token now) db.magic_links)
    row ← or_raise found rejected
    redeem_link row now
