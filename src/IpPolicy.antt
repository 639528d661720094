-- ===== src/IpPolicy.antt =====
-- app/authz/ip_policy.py: the allowlist and the blocklist of a tenant.
pub mod Decision
mod Tests
use lite_iam.Prelude.{
  ℕ, Text, Bool, true, false, not, ◌&&◌, Option, none, some, List, [], ◌∷◌, if◌then◌else◌, truthy,
  or_empty, is_empty,
}
use lite_iam.Models.{Tenant}
use lite_iam.External.{External}

pub data Reason : Type 0 where
  unknown_ip unparseable blocklisted not_allowlisted allowed : Reason

-- `_in_any`: a malformed range matches nothing.
unfoldable pub in_any : External → ℕ → List Text → Bool
in_any x ip [] = false
in_any x ip (cidr ∷ cidrs) =
    let rest = in_any x ip cidrs in
    elim (x.in_network ip cidr) [ none ↦ rest | some true ↦ true | some false ↦ rest ]

-- The lists of a tenant applied to an address, the blocklist first.
pub apply_lists : External → ℕ → List Text → List Text → Bool × Reason
apply_lists x ip blocklist allowlist =
    if not (is_empty blocklist) && in_any x ip blocklist
    then (false, blocklisted)
    else if not (is_empty allowlist) && not (in_any x ip allowlist)
    then (false, not_allowlisted)
    else (true, allowed)

pub check_parsed : External → Option ℕ → Tenant → Bool × Reason
check_parsed x none tenant = (true, unparseable)
check_parsed x (some ip) tenant =
    apply_lists x ip (or_empty tenant.ip_blocklist) (or_empty tenant.ip_allowlist)

unfoldable pub check_ip_policy : External → Option Text → Tenant → Bool × Reason
unfolding check_parsed apply_lists
check_ip_policy x none tenant = (true, unknown_ip)
check_ip_policy x (some client_ip) tenant =
    if truthy client_ip then check_parsed x (x.as_ip client_ip) tenant else (true, unknown_ip)
