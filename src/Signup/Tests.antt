-- ===== src/Signup/Tests.antt =====
-- A sign-up of the organisation 91 whose slug is taken at first.
use lite_iam.Prelude.{ℕ, Text, ◌+◌, ◌*◌, ◌≡◌, refl, false, [], ◌∷◌, arith}
use lite_iam.Fixtures.{plain, defaults, ada, with_user}
use lite_iam.Signup.{Drawn, SignupRequest, signup, unique_slug, create_organisation}
use lite_iam.Signup.Unique.{AreUnique, SignUps-AreUnique, joins, start}
use lite_iam.Database.{get_session, ok}

-- The slug of 91 is 31, which the tenant of Ada has.
abbrev slug_of : Text → Text
slug_of name = 31

abbrev with_suffix : Text → Text → Text
with_suffix slug random = 1000 * slug + random

abbrev long : Text → ℕ
long password = 12

abbrev drawn : Drawn
drawn = record { tenant_id = 4; user_id = 2; randoms = 5 ∷ 6 ∷ []; last = 7; hashed_password = 8 }

abbrev body : SignupRequest
body = record { email = 12; password = 8; organisation_name = 91 }

replies :
    (get_session (signup plain defaults long slug_of with_suffix drawn body) (with_user ada)).0
    ≡ ok (record {
      tenant_id = 4;
      organisation_slug = 31005;
      email = 12;
      email_verification_required = false;
    })
unfolding signup unique_slug create_organisation
replies = refl

alone : AreUnique (with_user ada)
alone = record { slugs = λ slug. ground arith; emails = λ email. ground arith }

SignUps-AreUnique_example :
    AreUnique
      (get_session (signup plain defaults long slug_of with_suffix drawn body) (with_user ada)).1
SignUps-AreUnique_example =
    SignUps-AreUnique plain defaults long slug_of with_suffix (with_user ada)
      (get_session (signup plain defaults long slug_of with_suffix drawn body) (with_user ada)).1
      (joins (with_user ada) drawn body start) alone
