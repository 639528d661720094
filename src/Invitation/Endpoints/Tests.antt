-- ===== src/Invitation/Endpoints/Tests.antt =====
-- Eve joins the tenant 3 with the token 51.
use lite_iam.Invitation.{is_match}
use lite_iam.Prelude.{ℕ, Text, ◌≡◌, ◌++◌, refl, true, none, some, [], ◌∷◌, find, arith}
use lite_iam.Fixtures.{plain, ada, with_user}
use lite_iam.Database.{Db, Handler, get_session, ok, open_session}
use lite_iam.Invitation.Endpoints.{
  InviteRequest, accept_invite, create_invite, revoke_invite, verify_invitation, accept_invitation,
}
use lite_iam.Models.{User, UserInvitation}
use lite_iam.Social.{new_user}
use lite_iam.Invitation.Endpoints.Acceptance.{accept_invite_sound}

abbrev invitation : UserInvitation
invitation = record {
  id = 41;
  tenant_id = 3;
  email = 12;
  token_hash = 51;
  role = 6;
  invited_by_id = some 1;
  created_at = 100;
  expires_at = 500;
  accepted_at = none;
}

abbrev tables : Db
tables = record (with_user ada) { invitations = invitation ∷ [] }

abbrev eve : ℕ → User
eve tenant_id = new_user 2 12 tenant_id

-- The account is stored.
abbrev create : Text → Text → ℕ → Handler User
create email password tenant_id s = (
  ok (eve tenant_id),
  record s { live = record s.live { users = s.live.users ++ eve tenant_id ∷ [] } },
)

joins_tenant : (get_session (accept_invite plain create 51 12 8 200) tables).0 ≡ ok (eve 3, 6)
unfolding accept_invite verify_invitation accept_invitation
joins_tenant = refl

accept_invite_sound_example :
    (inv : UserInvitation) × (find (is_match plain 51 12 200) tables.invitations ≡ some inv)
    × (6 ≡ inv.role)
    × ((create 12 8 inv.tenant_id (open_session tables)).0 ≡ ok (eve 3))
    × (get_session
          (verify_invitation plain 51 12 300)
          (get_session (accept_invite plain create 51 12 8 200) tables).1
        ≡ (ok none, (get_session (accept_invite plain create 51 12 8 200) tables).1))
accept_invite_sound_example =
    accept_invite_sound plain create 51 12 8 200 tables (eve 3) 6 300 (λ tenant_id s. refl)
      (omega arith) joins_tenant

abbrev chief : User
chief = record ada { is_superuser = true }

abbrev asked : InviteRequest
asked = record { email = 12; role = 6; tenant_id = none }

invites : (get_session (create_invite plain chief asked 51 41 100) (with_user ada)).0 ≡ ok 51
unfolding create_invite
invites = refl

withdraws : (get_session (revoke_invite plain chief 41) tables).0 ≡ ok tt
unfolding revoke_invite
withdraws = refl
