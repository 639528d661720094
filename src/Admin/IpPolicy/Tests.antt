-- ===== src/Admin/IpPolicy/Tests.antt =====
-- Ranges that a superuser writes for the tenant 3 and clears again.
use lite_iam.Prelude.{Text, ◌≡◌, refl, Bool, true, none, some, [], ◌∷◌}
use lite_iam.Fixtures.{plain, ada, with_user}
use lite_iam.Admin.IpPolicy.{IpPolicyWrite, set_ip_policy, clear_ip_policy}
use lite_iam.Database.{Db, get_session, ok}
use lite_iam.Models.{User}

abbrev chief : User
chief = record ada { is_superuser = true }

abbrev any_text : Text → Bool
any_text cidr = true

abbrev body : IpPolicyWrite
body = record { ip_allowlist = some (71 ∷ []); ip_blocklist = none }

abbrev restricted : Db
restricted = (get_session (set_ip_policy plain any_text chief 3 body) (with_user ada)).1

clears : get_session (clear_ip_policy plain chief 3) restricted ≡ (ok tt, with_user ada)
unfolding set_ip_policy clear_ip_policy
clears = refl
