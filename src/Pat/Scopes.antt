-- ===== src/Pat/Scopes.antt =====
-- app/middleware/pat_auth.py with app/identity/dependencies.py: from a token to an endpoint.
use lite_iam.Prelude.{
  ℕ, Text, ◌≡◌, ◌<◌, true, Option, none, some, List, inl, inr, arith, Bool-cases, ap, sym, ◌∙◌,
}
use lite_iam.Pat.{
  is_valid, dispatch_pat, passed, External, Db, User, PersonalAccessToken, find, Outcome-cases,
}
use lite_iam.Pat.Access.{state_after, Request, require_scopes, current_user_or_pat}
use lite_iam.Tokens.{Keys, read_token}
use lite_iam.Pat.Endpoints.{is_subset}
use lite_iam.Database.{Result, get_session, ok}
use lite_iam.Pat.Bearer.{dispatch_pat_sound}

module _ (x : External) (keys : Keys) (revoked_jtis : List Text) (now : ℕ) (value : Text)
    (bearer : Option Text) (db : Db) (scopes : List Text) where
  -- The endpoint's user, of a request that the middleware passes on.
  abbrev pub endpoint_user : Request → Result User
  endpoint_user request = (get_session (require_scopes x keys revoked_jtis now request scopes) db).0

  -- With a token's user and scopes in the state, the endpoint is entered with all its scopes only.
  pat_endpoint :
      (owner : User) (granted : List Text) (user : User)
      → endpoint_user (record { pat_user = some owner; pat_scopes = some granted; bearer = bearer })
        ≡ ok user
      → (user ≡ owner) × (is_subset scopes granted ≡ true)
  unfolding require_scopes current_user_or_pat
  pat_endpoint owner granted user entered = elim (Bool-cases (is_subset scopes granted)) [
    | inr lacking ↦ absurd (ground arith)
    | inl covered ↦ (ground arith, covered)
  ]

  state_is :
      (request : Request) (owner : User) (granted : List Text) (id : ℕ)
      → dispatch_pat x now value db ≡ passed owner granted id
      → state_after (dispatch_pat x now value db) bearer ≡ some request
      → request ≡ record { pat_user = some owner; pat_scopes = some granted; bearer = bearer }
  state_is request owner granted id went stated = ground arith

  -- If a request with a personal access token that the middleware passed on enters an endpoint that
  -- requires scopes, then the token is an active row with its hash and an expiry that is still to
  -- come, the endpoint's user is the row's owner and active, and the row grants every required
  -- scope.
  pub scoped_endpoint_sound :
      (request : Request) (user : User)
      → state_after (dispatch_pat x now value db) bearer ≡ some request
      → endpoint_user request ≡ ok user
      → (pat : PersonalAccessToken) × (at : ℕ) × (find (is_valid (x.sha256 value) now) db.pats
          ≡ some pat)
        × (pat.is_active ≡ true)
        × (pat.expires_at ≡ some at)
        × (now < at)
        × (user.id ≡ pat.user_id)
        × (user.is_active ≡ true)
        × (is_subset scopes pat.scopes ≡ true)
  scoped_endpoint_sound request user stated entered =
      elim (Outcome-cases (dispatch_pat x now value db)) [
        | inl turned_away ↦ absurd (ground arith)
        | inr (owner, granted, id, went) ↦
            let (pat, at, found, hashed, active, expires, early, own, alive, same) =
              dispatch_pat_sound x now value db owner granted id went in
            let shown = state_is request owner granted id went stated in
            let (who, covered) =
              pat_endpoint owner granted user (ap endpoint_user (sym shown) ∙ entered) in
            (pat, at, found, active, expires, early, ground arith, ground arith, ground arith)
      ]

  -- A JWT that reads as an active user enters every endpoint, whatever scopes it asks for.
  pub jwt_is_unrestricted :
      (request : Request) (token : Text) (user : User)
      → request.pat_user ≡ none
      → request.pat_scopes ≡ none
      → request.bearer ≡ some token
      → read_token x keys revoked_jtis now (some token) db ≡ some user
      → user.is_active ≡ true
      → endpoint_user request ≡ ok user
  unfolding require_scopes current_user_or_pat
  jwt_is_unrestricted request token user no_pat no_scopes sent read active = ground arith
