-- ===== src/TenantBind/Paths.antt =====
-- app/tenant/router.py and isolation.py: no session of a connection runs in the path of another.
use lite_iam.Prelude.{ℕ, ◌≡◌, refl, ap, ◌∙◌, Option, none, some, List, [], ◌∷◌, ◌++◌}
use lite_iam.TenantBind.{
  Statement, query, commit_now, reset_search_path, enforce_tenant_schema, path_after, query_paths,
  scope_of, tenant_session,
}

-- What a body that ends with a commit leaves to the next one.
paths-commit :
    (body rest : List Statement) (path : Option ℕ)
    → query_paths ((body ++ commit_now ∷ []) ++ rest) path
      ≡ query_paths (body ++ commit_now ∷ []) path ++ query_paths rest none
unfolding query_paths path_after
paths-commit [] rest path = refl
paths-commit (query ∷ body) rest path = ap (λ l. path ∷ l) (paths-commit body rest path)
paths-commit (commit_now ∷ body) rest path = paths-commit body rest none
paths-commit (reset_search_path ∷ body) rest path = paths-commit body rest none
paths-commit (enforce_tenant_schema id ∷ body) rest path = paths-commit body rest (some id)

-- The sessions that one connection of the pool serves.
pub on_connection : List (Option ℕ × List Statement) → List Statement
unfolding tenant_session
on_connection [] = []
on_connection ((bound, body) ∷ sessions) = tenant_session bound body ++ on_connection sessions

-- The paths of the same sessions, each on a connection of its own.
pub apart : List (Option ℕ × List Statement) → List (Option ℕ)
unfolding tenant_session query_paths
apart [] = []
apart ((bound, body) ∷ sessions) = query_paths (tenant_session bound body) none ++ apart sessions

-- Sessions of tenants that share a connection run each query in the path in which it would run if
-- the session had the connection for itself.
pub on_connection-apart :
    (sessions : List (Option ℕ × List Statement))
    → query_paths (on_connection sessions) none ≡ apart sessions
unfolding on_connection apart query_paths tenant_session
on_connection-apart [] = refl
on_connection-apart ((bound, body) ∷ sessions) =
    paths-commit (scope_of bound body) (on_connection sessions) none
    ∙ ap (λ l. query_paths (tenant_session bound body) none ++ l) (on_connection-apart sessions)

-- After a commit of its own, a session of a tenant runs in public.
pub scope_lost :
    (id : ℕ)
    → query_paths (tenant_session (some id) (query ∷ commit_now ∷ query ∷ [])) none
      ≡ some id ∷ none ∷ []
unfolding query_paths path_after tenant_session
scope_lost id = refl
