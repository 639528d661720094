-- ===== src/MagicLink/Tests.antt =====
-- A link that was mailed to Ada, who has TOTP.
use lite_iam.Prelude.{◌≡◌, refl, none, [], ◌∷◌}
use lite_iam.Models.{MagicLinkToken}
use lite_iam.Database.{Db, ok, get_session}
use lite_iam.Fixtures.{plain, ada, with_user}
use lite_iam.MagicLink.{mfa_pending, new_link, redeem_link}

abbrev link : MagicLinkToken
link = new_link plain 11 ada none 44 45 100

abbrev mailed : Db
mailed = record (with_user ada) { magic_links = link ∷ [] }

redeems : (get_session (redeem_link plain (λ u. 1) (λ u. 2) link 150) mailed).0 ≡ ok (mfa_pending 2)
unfolding redeem_link
redeems = refl
