-- ===== src/TenantBind.antt =====
-- app/middleware/tenant_bind.py, and app/tenant/router.py and isolation.py: the tenant of a request and
-- the search path of a connection.
--
-- A path is `none` for public alone. A SET LOCAL ends with its transaction, as in PostgreSQL. PyJWT's
-- decoding without a signature is a parameter. A thread pool's copy of the context is left out.
mod Paths
mod Requests
use lite_iam.Prelude.{
  ℕ, Text, Bool, true, false, Option, none, some, List, [], ◌∷◌, ◌++◌, lookup, truthy,
  if◌then◌else◌,
}
use lite_iam.External.{External}
use lite_iam.Tokens.{Claims}
use lite_iam.Literals

module _ (x : External) (decode_unverified : Text → Option Claims) where
  abbrev bind_claim : Option Text → Option ℕ → Option ℕ
  bind_claim none ctx = ctx
  bind_claim (some t) ctx =
      if truthy t then elim (x.as_uuid t) [ none ↦ ctx | some id ↦ some id ] else ctx

  abbrev bind_payload : Option Claims → Option ℕ → Option ℕ
  bind_payload none ctx = ctx
  bind_payload (some payload) ctx = bind_claim (lookup Literals.tenant_id payload) ctx

  -- `_try_bind_tenant`, of the token after `Bearer ` where the header has one.
  pub try_bind_tenant : Option Text → Option ℕ → Option ℕ
  try_bind_tenant none ctx = ctx
  try_bind_tenant (some token) ctx = bind_payload (decode_unverified token) ctx

  -- `dispatch`: the tenant that the handler sees, and the context left, where the handler raises or not.
  pub dispatch_bound : Option Text → Bool → Option ℕ → Option ℕ × Option ℕ
  unfolding try_bind_tenant
  dispatch_bound token raises ctx =
      let bound = try_bind_tenant token none in (bound, if raises then bound else none)

-- What a handler does on a connection; `enforce_tenant_schema` and `reset_search_path` among it.
pub data Statement : Type 0 where
  query commit_now reset_search_path : Statement
  enforce_tenant_schema : ℕ → Statement

pub path_after : Statement → Option ℕ → Option ℕ
path_after query path = path
path_after commit_now path = none
path_after reset_search_path path = none
path_after (enforce_tenant_schema id) path = some id

-- The paths in which the queries run.
pub query_paths : List Statement → Option ℕ → List (Option ℕ)
unfolding path_after
query_paths [] path = []
query_paths (query ∷ rest) path = path ∷ query_paths rest path
query_paths (commit_now ∷ rest) path = query_paths rest (path_after commit_now path)
query_paths (reset_search_path ∷ rest) path = query_paths rest (path_after reset_search_path path)
query_paths (enforce_tenant_schema id ∷ rest) path =
    query_paths rest (path_after (enforce_tenant_schema id) path)

abbrev pub scope_of : Option ℕ → List Statement → List Statement
scope_of none body = body
scope_of (some id) body = enforce_tenant_schema id ∷ body

-- `get_tenant_session` of a bound tenant: what the connection gets, the rollback being a commit of
-- nothing.
pub tenant_session : Option ℕ → List Statement → List Statement
tenant_session bound body = scope_of bound body ++ commit_now ∷ []
