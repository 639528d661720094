-- ===== src/IpPolicy/Tests.antt =====
-- A tenant that blocks one range and allows another.
use lite_iam.Prelude.{◌≡◌, refl, true, false, some, [], ◌∷◌}
use lite_iam.Models.{Tenant}
use lite_iam.Fixtures.{plain, acme}
use lite_iam.IpPolicy.{check_ip_policy, in_any}

abbrev fenced : Tenant
fenced = record acme { ip_blocklist = some (66 ∷ []); ip_allowlist = some (71 ∷ 72 ∷ []) }

blocks_66 : (check_ip_policy plain (some 66) fenced).0 ≡ false
unfolding check_ip_policy in_any
blocks_66 = refl

admits_71 : (check_ip_policy plain (some 71) fenced).0 ≡ true
unfolding check_ip_policy in_any
admits_71 = refl
