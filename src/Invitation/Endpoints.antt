-- ===== src/Invitation/Endpoints.antt =====
-- app/api/v1/invitations.py: inviting, withdrawing, and joining with an invitation. The creation of
-- the account is fastapi-users', and so a parameter.
mod Acceptance
mod Tests
use lite_iam.Prelude.{ℕ, Text, Bool, not, Option, none, some, if◌then◌else◌, truthy}
use lite_iam.Database.{
  ◌>>=◌, ◌>>◌, Handler, or_raise, pure, raise_if, http, emit, spawn, invitation_mail,
}
use lite_iam.Invitation.{
  create_invitation, revoke_invitation, verify_invitation, accept_invitation, External,
}
use lite_iam.Models.{User, user_created}

pub record InviteRequest : Type 0 where
  pub email : Text
  pub role : Text
  pub tenant_id : Option Text

-- The tenant that is named, or else the caller's.
abbrev target_tenant : External → Option Text → ℕ → Handler ℕ
target_tenant x none own = pure own
target_tenant x (some tenant_id) own =
    if truthy tenant_id
    then or_raise (x.as_uuid tenant_id) (http 400 "Invalid tenant_id")
    else pure own

-- `create_invite`: the reply has the raw token.
pub create_invite : External → User → InviteRequest → Text → ℕ → ℕ → Handler Text
unfolding create_invitation
create_invite x user body raw_token id now = do
  raise_if (not user.is_superuser) (http 403 "Superuser required")
  tid ← target_tenant x body.tenant_id user.tenant_id
  raw_token ← create_invitation x tid body.email body.role (some user.id) raw_token id now
  emit user_created (some tid) none none
  spawn (invitation_mail body.email raw_token)
  pure raw_token

pub revoke_invite : External → User → Text → Handler (Unit {0})
unfolding revoke_invitation
revoke_invite x user invitation_id = do
  raise_if (not user.is_superuser) (http 403 "Superuser required")
  iid ← or_raise (x.as_uuid invitation_id) (http 400 "Invalid invitation_id")
  removed ← revoke_invitation iid user.tenant_id
  raise_if (not removed) (http 404 "Invitation not found or already accepted")

-- `accept_invite`, where `create` makes an account with an address and a password in a tenant.
pub accept_invite :
    External → (Text → Text → ℕ → Handler User) → Text → Text → Text → ℕ → Handler (User × Text)
accept_invite x create token email password now = do
  found ← verify_invitation x token email now
  inv ← or_raise found (http 400 "Invalid, expired, or already used invitation")
  user ← create email password inv.tenant_id
  accept_invitation inv now
  pure (user, inv.role)
