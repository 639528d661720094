-- ===== src/Oauth/Authorize.antt =====
-- `authorize` and `consent`: authorization codes are issued. The random code and the row's id are
-- arguments; a redirect is given by its target.
pub mod Checks
use lite_iam.Prelude.{
  ℕ, Text, ◌+◌, Bool, true, false, not, ◌&&◌, Option, none, some, List, [], ◌∷◌, ◌++◌, ◌==◌,
  if◌then◌else◌, truthy?,
}
use lite_iam.Models.{OauthClient, AuthorizationCode}
use lite_iam.External.{External}
use lite_iam.Database.{Handler, http, pure, raise_if, modify, commit, ◌>>=◌, ◌>>◌}
use lite_iam.Literals
use lite_iam.Oauth.Client.{check_redirect_uri, check_grant_type, check_scope, get_client}

abbrev pub auth_code_ttl : ℕ
auth_code_ttl = 60

pub record AuthorizeRequest : Type 0 where
  pub client_id : Text
  pub redirect_uri : Text
  pub response_type : Text
  pub scope : Text
  pub state : Option Text
  pub code_challenge : Option Text
  pub code_challenge_method : Option Text
  pub nonce : Option Text

-- To the consent page, or back to the client with a code and the state.
pub data Redirect : Type 0 where
  to_consent : AuthorizeRequest → Redirect
  to_client : Text → Text → Option Text → Redirect

-- The row that a request by a user makes.
abbrev pub code_row : AuthorizeRequest → ℕ → Text → ℕ → ℕ → AuthorizationCode
code_row request user_id code id now = record {
  id = id;
  code = code;
  client_id = request.client_id;
  user_id = user_id;
  redirect_uri = request.redirect_uri;
  scope = request.scope;
  code_challenge = request.code_challenge;
  code_challenge_method = request.code_challenge_method;
  nonce = request.nonce;
  expires_at = now + auth_code_ttl;
  used = false;
}

-- The shared tail: the row is stored and the user sent back.
issue_code : AuthorizeRequest → ℕ → Text → ℕ → ℕ → Handler Redirect
issue_code request user_id code id now = do
  modify λ db. record db { codes = db.codes ++ code_row request user_id code id now ∷ [] }
  commit
  pure (to_client request.redirect_uri code request.state)

unfoldable pub authorize : External → AuthorizeRequest → ℕ → Text → ℕ → ℕ → Handler Redirect
unfolding issue_code get_client check_redirect_uri check_grant_type check_scope
authorize x request user_id code id now = do
  client ← get_client request.client_id
  raise_if (not (check_redirect_uri client request.redirect_uri)) (http 400 "Invalid redirect_uri")
  raise_if (not (request.response_type == Literals.code))
      (http 400 "Only response_type=code is supported")
  raise_if (not (check_grant_type client Literals.authorization_code))
      (http 400 "Client not authorized for authorization_code grant")
  raise_if (not (check_scope x client request.scope)) (http 400 "Requested scope(s) not allowed")
  raise_if (client.require_pkce && not (truthy? request.code_challenge))
      (http 400 "PKCE code_challenge is required for this client")
  if client.auto_approve then issue_code request user_id code id now else pure (to_consent request)

-- The user has approved on the consent page.
unfoldable pub consent : External → AuthorizeRequest → ℕ → Text → ℕ → ℕ → Handler Redirect
unfolding issue_code get_client check_redirect_uri check_scope
consent x request user_id code id now = do
  client ← get_client request.client_id
  raise_if (not (check_redirect_uri client request.redirect_uri)) (http 400 "Invalid redirect_uri")
  raise_if (not (check_scope x client request.scope)) (http 400 "Requested scope(s) not allowed")
  raise_if (client.require_pkce && not (truthy? request.code_challenge))
      (http 400 "PKCE code_challenge is required for this client")
  issue_code request user_id code id now
