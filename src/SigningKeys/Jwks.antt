-- ===== src/SigningKeys/Jwks.antt =====
-- app/api/v1/jwks.py: the key set that is served, from a cache of thirty seconds.
use lite_iam.Prelude.{ℕ, ◌+◌, Option, none, some, List, if◌then◌else◌, ltb}
use lite_iam.SigningKeys.{Jwk, KeyManager}

abbrev pub cache_ttl : ℕ
cache_ttl = 30

-- The serialized key set and the time it was made; `none` is the empty text at first.
pub record Cache : Type 0 where
  pub jwks_cache : Option (List Jwk)
  pub jwks_cache_ts : ℕ

-- `_jwks_response`, `now` from the monotonic clock.
unfoldable pub jwks_response : KeyManager → ℕ → Cache → List Jwk × Cache
jwks_response km now cache = elim cache.jwks_cache [
  | none ↦ (km.valid_jwks, record { jwks_cache = some km.valid_jwks; jwks_cache_ts = now })
  | some keys ↦
      if ltb (cache.jwks_cache_ts + cache_ttl) now
      then (km.valid_jwks, record { jwks_cache = some km.valid_jwks; jwks_cache_ts = now })
      else (keys, cache)
]

-- `invalidate_jwks_cache`
unfoldable pub invalidate_jwks_cache : Cache → Cache
invalidate_jwks_cache cache = record cache { jwks_cache_ts = 0 }
