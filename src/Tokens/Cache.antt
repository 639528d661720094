-- ===== src/Tokens/Cache.antt =====
-- app/tokens/strategy.py: the tenant records that a worker keeps for 60 seconds.
--
-- The tables that a load reads are an argument, `none` where the session raises. The monotonic clock
-- is in whole seconds.
mod Fresh
mod Tests
use lite_iam.Prelude.{
  ℕ, Text, ◌+◌, Bool, Option, none, some, [], ◌==◌, ltb, if◌then◌else◌, or_empty,
}
use lite_iam.Models.{Tenant}
use lite_iam.External.{External}
use lite_iam.Database.{Db, get_tenant}
use lite_iam.Tokens.{TenantRecord, strip_reserved}

-- `_CLAIMS_CACHE_TTL`
abbrev pub claims_cache_ttl : ℕ
claims_cache_ttl = 60

-- `_CLAIMS_CACHE`: the record and its end under a tenant's id.
abbrev pub ClaimsCache : Type 0
ClaimsCache = Text → Option (TenantRecord × ℕ)

abbrev pub no_record : TenantRecord
no_record = record { custom = []; name = 0; slug = 0 }

abbrev record_of : Option Tenant → TenantRecord
unfolding strip_reserved
record_of none = no_record
record_of (some t) = record {
  custom = strip_reserved (or_empty t.custom_jwt_claims);
  name = t.name;
  slug = t.slug;
}

abbrev find_record : External → Text → Db → TenantRecord
find_record x tenant_id db = elim (x.as_uuid tenant_id) [
  | none ↦ no_record
  | some id ↦ record_of (get_tenant id db)
]

-- What `_get_tenant_record` loads.
pub load_record : External → Text → Option Db → TenantRecord
load_record x tenant_id none = no_record
load_record x tenant_id (some db) = find_record x tenant_id db

abbrev pub put_entry : Text → Option (TenantRecord × ℕ) → ClaimsCache → ClaimsCache
put_entry tenant_id e cache other = if other == tenant_id then e else cache other

abbrev pub reload : Text → ℕ → TenantRecord → ClaimsCache → TenantRecord × ClaimsCache
reload tenant_id now r cache = (r, put_entry tenant_id (some (r, now + claims_cache_ttl)) cache)

-- `_get_tenant_record`
pub get_tenant_record : External → Text → ℕ → Option Db → ClaimsCache → TenantRecord × ClaimsCache
unfolding load_record
get_tenant_record x tenant_id now tables cache = elim (cache tenant_id) [
  | none ↦ reload tenant_id now (load_record x tenant_id tables) cache
  | some (r, until) ↦
      if ltb now until
      then (r, cache)
      else reload tenant_id now (load_record x tenant_id tables) cache
]

-- `invalidate_claims_cache`
pub invalidate_claims_cache : Text → ClaimsCache → ClaimsCache
invalidate_claims_cache tenant_id cache = put_entry tenant_id none cache
