-- ===== src/Invitation/Tests.antt =====
-- Ada invites the address 15 to her tenant.
use lite_iam.Prelude.{◌≡◌, refl, none, some, [], ◌∷◌}
use lite_iam.Models.{UserInvitation}
use lite_iam.Database.{Db, ok, get_session}
use lite_iam.Fixtures.{plain, no_rows}
use lite_iam.Invitation.{new_row, verify_invitation, create_invitation}
use lite_iam.Invitation.Lifecycle.{created}

abbrev earlier : UserInvitation
earlier = new_row plain 3 15 16 none 17 18 100

abbrev invited : Db
invited = record no_rows { invitations = earlier ∷ [] }

verifies_later :
    (get_session
      (verify_invitation plain 27 15 300)
      (created plain 3 15 16 none 27 28 200 invited)).0
    ≡ ok (some (new_row plain 3 15 16 none 27 28 200))
unfolding verify_invitation create_invitation
verifies_later = refl
