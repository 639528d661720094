-- ===== src/Pat/Access.antt =====
-- app/identity/dependencies.py: who a request comes from, and whether its token has the scopes.
use lite_iam.Pat.Endpoints.{is_subset}
use lite_iam.Pat.{refused, passed, Outcome}
use lite_iam.Prelude.{ℕ, Text, Option, none, some, List, if◌then◌else◌}
use lite_iam.Database.{◌>>=◌, Error, Handler, http, raise, gets, pure}
use lite_iam.Models.{User}
use lite_iam.Pat.{Outcome, External, passed}
use lite_iam.Tokens.{Keys, read_token}

abbrev pub unauthenticated : Error
unauthenticated = http 401 "Not authenticated"

abbrev pub invalid_token : Error
invalid_token = http 401 "Invalid or expired token"

-- `request.state` after the middleware, and the token after `Bearer `, where there is one.
pub record Request : Type 0 where
  pub pat_user : Option User
  pub pat_scopes : Option (List Text)
  pub bearer : Option Text

abbrev active_or_raise : Option User → Handler User
active_or_raise none = raise invalid_token
active_or_raise (some user) = if user.is_active then pure user else raise invalid_token

module _ (x : External) (keys : Keys) (revoked_jtis : List Text) (now : ℕ) (request : Request) where
  read_bearer : Option Text → Handler User
  read_bearer none = raise unauthenticated
  read_bearer (some token) = do
    user ← gets (read_token x keys revoked_jtis now (some token))
    active_or_raise user

  unfoldable pub current_user_or_pat : Handler User
  unfolding read_bearer
  current_user_or_pat = elim request.pat_user [
    | some user ↦ pure user
    | none ↦ read_bearer request.bearer
  ]

  abbrev check_scopes : List Text → User → Option (List Text) → Handler User
  check_scopes scopes user none = pure user
  check_scopes scopes user (some granted) =
      if is_subset scopes granted
      then pure user
      else raise (http 403 "API token missing required scopes")

  unfoldable pub require_scopes : List Text → Handler User
  require_scopes scopes = do user ← current_user_or_pat; check_scopes scopes user request.pat_scopes

-- What the middleware leaves for the handlers of a request that it passes on.
abbrev pub state_after : Outcome → Option Text → Option Request
state_after refused bearer = none
state_after (passed user scopes id) bearer =
    some (record { pat_user = some user; pat_scopes = some scopes; bearer = bearer })
