-- ===== src/Oauth/Client.antt =====
-- The methods of `OAuthClient`, the client lookup, the authentication of a client at the token
-- endpoint, and the PKCE check.
use lite_iam.Prelude.{
  Text, Bool, true, false, not, ◌&&◌, Option, none, some, List, [], ◌∷◌, ◌==◌, if◌then◌else◌,
  truthy, truthy?, contains, find,
}
use lite_iam.Models.{OauthClient}
use lite_iam.External.{External}
use lite_iam.Database.{Handler, http, pure, gets, or_raise, raise_if, ◌>>=◌, ◌>>◌}
use lite_iam.Literals

unfoldable pub check_redirect_uri : OauthClient → Text → Bool
check_redirect_uri client redirect_uri = contains client.redirect_uris redirect_uri

unfoldable pub check_grant_type : OauthClient → Text → Bool
check_grant_type client grant_type = contains client.grant_types grant_type

-- `requested.issubset(allowed)`
abbrev pub is_subset : List Text → List Text → Bool
is_subset [] allowed = true
is_subset (scope ∷ requested) allowed = contains allowed scope && is_subset requested allowed

unfoldable pub check_scope : External → OauthClient → Text → Bool
check_scope x client scope = is_subset (x.words scope) client.allowed_scopes

unfoldable pub is_confidential : OauthClient → Bool
is_confidential client = elim client.client_secret_enc [ none ↦ false | some secret ↦ true ]

unfoldable pub decrypts_to : External → Option Text → Text → Bool
decrypts_to x none plain_secret = false
decrypts_to x (some enc) plain_secret = elim (x.decrypt enc) [
  | none ↦ false
  | some stored ↦ stored == plain_secret
]

unfoldable pub verify_secret : External → OauthClient → Text → Bool
unfolding decrypts_to
verify_secret x client plain_secret =
    truthy? client.client_secret_enc
    && truthy plain_secret
    && decrypts_to x client.client_secret_enc plain_secret

-- `_get_client`
unfoldable pub get_client : Text → Handler OauthClient
get_client client_id = do
  client ← gets (λ db. find (λ c. (c.client_id == client_id) && c.is_active) db.clients)
  or_raise client (http 401 "Unknown or inactive client")

-- `_pkce_verify`
unfoldable pub pkce_verify : External → Text → Text → Text → Handler Bool
pkce_verify x code_verifier code_challenge method = do
  raise_if (not (method == Literals.s256_method))
      (http 400 "only S256 code_challenge_method is supported")
  pure (x.s256 code_verifier == code_challenge)

-- The secret of the header, where it names the same client.
abbrev secret_of_basic : Text → Option (Text × Text) → Option Text
secret_of_basic client_id none = none
secret_of_basic client_id (some (id, secret)) = if id == client_id then some secret else none

-- The secret that the request shows: of the form, or else of the header.
unfoldable pub effective_secret : External → Text → Option Text → Text → Option Text
effective_secret x client_id client_secret authorization =
    if truthy? client_secret
    then client_secret
    else secret_of_basic client_id (x.basic_credentials authorization)

-- Whether the shown secret is the client's.
unfoldable pub secret_matches : External → OauthClient → Option Text → Bool
unfolding verify_secret
secret_matches x client none = false
secret_matches x client (some secret) = truthy secret && verify_secret x client secret

-- A confidential client must authenticate.
unfoldable pub authenticate_client :
    External → OauthClient → Text → Option Text → Text → Handler (Unit {0})
unfolding is_confidential effective_secret secret_matches
authenticate_client x client client_id client_secret authorization =
    raise_if
      (is_confidential client
        && not (secret_matches x client (effective_secret x client_id client_secret authorization)))
      (http 401 "Client authentication failed")
