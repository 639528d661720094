-- ===== src/Admin/IpPolicy.antt =====
-- app/admin/ip_policy.py: the address ranges of a tenant, checked when they are written.
mod Enforced
mod Tests
use lite_iam.Prelude.{
  ℕ, Text, Bool, true, false, ◌&&◌, Option, none, some, List, [], ◌∷◌, ◌==◌, or_empty, is_some,
  ◌||◌,
}
use lite_iam.Database.{◌>>=◌, ◌>>◌, internal, Handler, raise_if, pure, when}
use lite_iam.Models.{Tenant, User}
use lite_iam.External.{External}
use lite_iam.Admin.{require_superuser, not, tenant_at, http, update_tenant}

pub record IpPolicyRead : Type 0 where
  pub tenant_id : ℕ
  pub ip_allowlist : List Text
  pub ip_blocklist : List Text

-- `None` leaves a list as it is.
pub record IpPolicyWrite : Type 0 where
  pub ip_allowlist : Option (List Text)
  pub ip_blocklist : Option (List Text)

abbrev pub policy_of : Tenant → IpPolicyRead
policy_of t = record {
  tenant_id = t.id;
  ip_allowlist = or_empty t.ip_allowlist;
  ip_blocklist = or_empty t.ip_blocklist;
}

-- `ipaddress.ip_network(cidr, strict=False)` does not raise, for each.
abbrev pub all_parse : (Text → Bool) → List Text → Bool
all_parse is_network [] = true
all_parse is_network (cidr ∷ cidrs) = is_network cidr && all_parse is_network cidrs

-- `validate_cidrs`, whose failure is a 422 of the framework.
abbrev pub is_valid_write : (Text → Bool) → IpPolicyWrite → Bool
is_valid_write is_network body =
    all_parse is_network (or_empty body.ip_allowlist)
    && all_parse is_network (or_empty body.ip_blocklist)

-- `v or None`
abbrev pub or_none : List Text → Option (List Text)
or_none [] = none
or_none (c ∷ cs) = some (c ∷ cs)

abbrev pub written : Option (List Text) → Option (List Text) → Option (List Text)
written none old = old
written (some cidrs) old = or_none cidrs

abbrev pub with_policy : IpPolicyWrite → Tenant → Tenant
with_policy body t = record t {
  ip_allowlist = written body.ip_allowlist t.ip_allowlist;
  ip_blocklist = written body.ip_blocklist t.ip_blocklist;
}

module _ (x : External) where
  pub get_ip_policy : User → Text → Handler IpPolicyRead
  get_ip_policy user tenant_id = do
    require_superuser user
    (tid, tenant) ← tenant_at x tenant_id
    pure (policy_of tenant)

  -- Where the body names no list, the UPDATE and the commit are skipped.
  abbrev has_updates : IpPolicyWrite → Bool
  has_updates body = is_some body.ip_allowlist || is_some body.ip_blocklist

  pub set_ip_policy : (Text → Bool) → User → Text → IpPolicyWrite → Handler IpPolicyRead
  set_ip_policy is_network user tenant_id body = do
    raise_if (not (is_valid_write is_network body)) (http 422 "Invalid CIDR")
    require_superuser user
    (tid, tenant) ← tenant_at x tenant_id
    when (has_updates body) (update_tenant tid (with_policy body))
    pure (policy_of (with_policy body tenant))

  pub clear_ip_policy : User → Text → Handler (Unit {0})
  clear_ip_policy user tenant_id = do
    require_superuser user
    (tid, tenant) ← tenant_at x tenant_id
    update_tenant tid (λ t. record t { ip_allowlist = none; ip_blocklist = none })
