-- ===== src/Invitation.antt =====
-- app/identity/invitation.py: invitations of one address to a tenant. The random token and the
-- row's id are arguments, and listing, which changes nothing, is left out.
pub mod Endpoints
mod Lifecycle
mod Tests
use lite_iam.Prelude.{
  ℕ, Text, ◌+◌, ◌*◌, Bool, true, false, not, ◌&&◌, Option, none, some, List, [], ◌∷◌, ◌++◌, ltb,
  ◌==◌, is_some, find, update_where, delete_where,
}
use lite_iam.Models.{UserInvitation}
use lite_iam.External.{External}
use lite_iam.Database.{Handler, pure, gets, modify, commit, ◌>>=◌, ◌>>◌}

abbrev pub invitation_ttl : ℕ
invitation_ttl = 72 * 3600

-- `accepted_at == None` in SQL.
abbrev pub is_pending : UserInvitation → Bool
is_pending inv = not (is_some inv.accepted_at)

-- A pending invitation of the address to the tenant.
abbrev pub is_open_for : ℕ → Text → UserInvitation → Bool
is_open_for tenant_id email inv =
    (inv.tenant_id == tenant_id) && (inv.email == email) && is_pending inv

-- `db.delete(row)`, where there is one.
abbrev delete_row : Option UserInvitation → Handler (Unit {0})
delete_row none = pure tt
delete_row (some row) =
    modify λ db. record db { invitations = delete_where (λ i. i.id == row.id) db.invitations }

module _ (x : External) where
  abbrev pub new_row : ℕ → Text → Text → Option ℕ → Text → ℕ → ℕ → UserInvitation
  new_row tenant_id email role invited_by_id raw_token id now = record {
    id = id;
    tenant_id = tenant_id;
    email = x.lower email;
    token_hash = x.sha256 raw_token;
    role = role;
    invited_by_id = invited_by_id;
    created_at = now;
    expires_at = now + invitation_ttl;
    accepted_at = none;
  }

  pub create_invitation : ℕ → Text → Text → Option ℕ → Text → ℕ → ℕ → Handler Text
  create_invitation tenant_id email role invited_by_id raw_token id now = do
    existing ← gets (λ db. find (is_open_for tenant_id (x.lower email)) db.invitations)
    delete_row existing
    modify λ db. record db {
      invitations =
          db.invitations ++ new_row tenant_id email role invited_by_id raw_token id now ∷ [];
    }
    commit
    pure raw_token

  -- The test of `verify_invitation`.
  abbrev pub is_match : Text → Text → ℕ → UserInvitation → Bool
  is_match raw_token email now inv =
      (inv.token_hash == x.sha256 raw_token)
      && (inv.email == x.lower email)
      && is_pending inv
      && ltb now inv.expires_at

  pub verify_invitation : Text → Text → ℕ → Handler (Option UserInvitation)
  verify_invitation raw_token email now =
      gets (λ db. find (is_match raw_token email now) db.invitations)

pub accept_invitation : UserInvitation → ℕ → Handler (Unit {0})
accept_invitation invitation now = do
  modify λ db. record db {
    invitations =
        update_where (λ i. i.id == invitation.id) (λ i. record i { accepted_at = some now })
          db.invitations;
  }
  commit

pub revoke_invitation : ℕ → ℕ → Handler Bool
revoke_invitation invitation_id tenant_id = do
  inv ← gets (λ db.
      find (λ i. (i.id == invitation_id) && (i.tenant_id == tenant_id) && is_pending i)
        db.invitations)
  delete_row inv
  commit
  pure (is_some inv)
