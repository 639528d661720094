-- ===== src/Oauth/Authorize/Checks.antt =====
-- Which requests get an authorization code.
use lite_iam.Prelude.{
  ℕ, Text, ◌≡◌, true, false, ◌&&◌, Option, some, [], ◌∷◌, ◌++◌, ◌==◌, arith, find, contains,
  truthy?,
}
use lite_iam.Models.{OauthClient}
use lite_iam.External.{External}
use lite_iam.Literals
use lite_iam.Database.{Db, ok, get_session}
use lite_iam.Oauth.Client.{is_subset}
use lite_iam.Oauth.Authorize.{AuthorizeRequest, to_client, code_row, authorize, consent}

-- What a client must have registered for a request.
abbrev pub IsEntitled : External → OauthClient → AuthorizeRequest → Type 0
IsEntitled x client request =
    (contains client.redirect_uris request.redirect_uri ≡ true)
    × (is_subset (x.words request.scope) client.allowed_scopes ≡ true)
    × (client.require_pkce ≡ true → truthy? request.code_challenge ≡ true)

module _ (x : External) (request : AuthorizeRequest) (user_id code id now : ℕ) (db : Db)
    (client : OauthClient)
    (found : find (λ c. (c.client_id == request.client_id) && c.is_active) db.clients
      ≡ some client) where
  -- If an authorization request of an active client is answered with a redirect that carries a
  -- code, then its address and scopes are registered for the client, which may use the grant and
  -- skips consent, and there is a PKCE challenge where the client requires one; the redirect goes
  -- to the requested address; and exactly one code row is stored.
  pub authorize_sound :
      (uri sent : Text) (state : Option Text)
      → (get_session (authorize x request user_id code id now) db).0 ≡ ok (to_client uri sent state)
      → IsEntitled x client request
        × (contains client.grant_types Literals.authorization_code ≡ true)
        × (client.auto_approve ≡ true)
        × (uri ≡ request.redirect_uri)
        × ((get_session (authorize x request user_id code id now) db).1
            ≡ record db { codes = db.codes ++ code_row request user_id code id now ∷ [] })
  unfolding authorize
  authorize_sound uri sent state done = ground arith

  -- An authorization request with response type code, of an active client that may use the grant
  -- and skips consent, with a registered address and scopes and a PKCE challenge where one is
  -- required, is answered with a code and the request's state, and stores the code's row.
  pub authorize_complete :
      IsEntitled x client request
      → contains client.grant_types Literals.authorization_code ≡ true
      → client.auto_approve ≡ true
      → request.response_type ≡ Literals.code
      → get_session (authorize x request user_id code id now) db ≡ (
        ok (to_client request.redirect_uri code request.state),
        record db { codes = db.codes ++ code_row request user_id code id now ∷ [] },
      )
  unfolding authorize
  authorize_complete entitled granted approved response = ground arith

  -- A consent of an active client for a registered address and scopes, with a PKCE challenge where
  -- one is required, is answered with a code and stores its row, even if the client may not use the
  -- authorization-code grant.
  pub consent_without_grant :
      IsEntitled x client request
      → contains client.grant_types Literals.authorization_code ≡ false
      → get_session (consent x request user_id code id now) db ≡ (
        ok (to_client request.redirect_uri code request.state),
        record db { codes = db.codes ++ code_row request user_id code id now ∷ [] },
      )
  unfolding consent
  consent_without_grant entitled refused = ground arith
