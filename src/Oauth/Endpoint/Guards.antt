-- ===== src/Oauth/Endpoint/Guards.antt =====
-- app/server/endpoints.py: the token endpoint's refusals, machine tokens, revocation and
-- introspection.
use lite_iam.Revocation.{has_jti}
use lite_iam.Prelude.{
  ◌⊎◌, inl, inr, Option-cases, Bool-cases, ℕ, suc, Text, ◌≡◌, refl, Bool, true, false, ◌&&◌, Option,
  none, some, List, ◌==◌, arith, contains, find, ◌∷◌, ◌++◌, [], ◌≢◌, update_where, if◌then◌else◌,
}
use lite_iam.Models.{User, OauthClient, OauthToken}
use lite_iam.Settings.{Settings}
use lite_iam.External.{External}
use lite_iam.Database.{Db, ok, err, http, open_session, get_session}
use lite_iam.Literals
use lite_iam.Tokens.Stages.{read-destroyed}
use lite_iam.Tokens.{Claims, Keys, Stamp, decode_token, read_token, read_mfa_pending_token}
use lite_iam.Oauth.Client.{is_confidential, effective_secret, secret_matches, authenticate_client}
use lite_iam.Oauth.Grant.{Fresh, TokenResponse}
use lite_iam.Oauth.Endpoint.{
  TokenRequest, token, machine_payload, handle_client_credentials, revoke, destroyed_jti, is_token,
  introspect, inactive,
}

-- The registered, active client of a request.
abbrev pub client_of : Text → OauthClient → Bool
client_of client_id c = (c.client_id == client_id) && c.is_active

module _ (x : External) (cfg : Settings) (keys : Keys) (stamp : Stamp) (write_token : User → Text)
    (fresh : Fresh) (request : TokenRequest) (db : Db) where
  -- No grant is reached without an active client, and a confidential one has shown its secret;
  -- otherwise the reply is 401 and nothing changes.
  pub token_unknown_client :
      find (client_of request.client_id) db.clients ≡ none
      → get_session (token x cfg keys stamp write_token fresh request) db
        ≡ (err (http 401 "Unknown or inactive client"), db)
  unfolding token
  token_unknown_client unknown = ground arith

  -- If an active confidential client does not show its secret, in the form or in the header, the
  -- token endpoint answers 401 for every grant, and nothing changes.
  pub token_unauthenticated :
      (client : OauthClient)
      → find (client_of request.client_id) db.clients ≡ some client
      → is_confidential client ≡ true
      → secret_matches x client
          (effective_secret x request.client_id request.client_secret request.authorization)
        ≡ false
      → get_session (token x cfg keys stamp write_token fresh request) db
        ≡ (err (http 401 "Client authentication failed"), db)
  unfolding token authenticate_client
  token_unauthenticated client found confidential wrong = rw (found, confidential, wrong)

-- A client that is given a token by the client-credentials grant may use that grant, and the token,
-- where PyJWT accepts it, is read neither as a user's access token nor as a pending token.
-- Condition: the subject of a machine's token is no user id.
pub machine_token_is_no_user :
    (x : External) (cfg : Settings) (keys : Keys) (stamp : Stamp) (scope : Option Text)
    (client : OauthClient) (now : ℕ) (t : ℕ) (revoked_jtis : List Text) (reply : TokenResponse)
    (db : Db)
    → (get_session (handle_client_credentials x cfg keys stamp scope client) db).0 ≡ ok reply
    → reply.access_token ≡ suc t
    → decode_token x keys true now (suc t) ≡ some (machine_payload x cfg keys stamp scope client)
    → x.as_uuid (x.client_subject client.client_id) ≡ none
    → (contains client.grant_types Literals.client_credentials ≡ true)
      × (read_token x keys revoked_jtis now (some (suc t)) db ≡ none)
      × (read_mfa_pending_token x keys now (suc t) ≡ none)
unfolding handle_client_credentials read_token read_mfa_pending_token
machine_token_is_no_user x cfg keys stamp scope client now t revoked_jtis reply db issued token
      accepted subject =
    (ground arith, ground arith, ground arith)

abbrev pub revoked : OauthToken → OauthToken
revoked r = record r { revoked = true }

-- Revocation fails on the id and changes nothing, or does to the token rows what it does to its row.
rows_after_blacklist :
    (x : External) (keys : Keys) (now : ℕ) (t : Text) (db : Db)
    → let db' = (get_session (revoke x keys now t) db).1 in
      (db' ≡ db)
      ⊎ (db'.tokens ≡ (elim (find (is_token t) db.tokens) [
        | none ↦ db.tokens
        | some row ↦
            if row.revoked then db.tokens else update_where (λ r. r.id == row.id) revoked db.tokens
      ]))
unfolding revoke
rows_after_blacklist x keys now t db = elim (Option-cases (destroyed_jti x keys now t)) [
  | inl foreign ↦ inr (elim (Option-cases (find (is_token t) db.tokens)) [
    | inl unknown ↦ rw (foreign, unknown) refl
    | inr (row, found) ↦ elim (Bool-cases row.revoked) [
      | inl used ↦ rw (foreign, found, used) refl
      | inr live ↦ rw (foreign, found, live) refl
    ]
  ])
  | inr ((jti, exp), signed) ↦ elim (Option-cases (find (has_jti jti) db.revoked_tokens)) [
    | inr (row, taken) ↦ inl (rw (signed, taken) refl)
    | inl free ↦ inr (elim (Option-cases (find (is_token t) db.tokens)) [
      | inl unknown ↦ rw (signed, free, unknown) refl
      | inr (row, found) ↦ elim (Bool-cases row.revoked) [
        | inl used ↦ rw (signed, free, found, used) refl
        | inr live ↦ rw (signed, free, found, live) refl
      ]
    ])
  ]
]

-- Revocation changes no token row, or revokes by an id.
pub revoke_outcome :
    (x : External) (keys : Keys) (now : ℕ) (t : Text) (db : Db)
    → let db' = (get_session (revoke x keys now t) db).1 in
      (db'.tokens ≡ db.tokens)
      ⊎ ((id : ℕ) × (db'.tokens ≡ update_where (λ r. r.id == id) revoked db.tokens))
revoke_outcome x keys now t db = elim (rows_after_blacklist x keys now t db) [
  | inl same ↦ inl (rw same refl)
  | inr rows ↦ elim (Option-cases (find (is_token t) db.tokens)) [
    | inl unknown ↦ inl (rw unknown at rows)
    | inr (row, found) ↦ elim (Bool-cases row.revoked) [
      | inl used ↦ inl (rw (found, used) at rows)
      | inr live ↦ inr (row.id, rw (found, live) at rows)
    ]
  ]
]

-- An access token that the service signed is blacklisted by its revocation, whatever the
-- token table says of it, and its id is stored; the reply is a success. Condition: the id is not
-- in the table of revoked ids.
pub revoke_blacklists :
    (x : External) (keys : Keys) (now : ℕ) (t jti exp : Text) (db : Db)
    → destroyed_jti x keys now t ≡ some (jti, exp)
    → find (has_jti jti) db.revoked_tokens ≡ none
    → let (reply, s) = revoke x keys now t (open_session db) in
      (reply ≡ ok tt)
      × (s.blacklisted ≡ jti ∷ [])
      × (s.saved.revoked_tokens
          ≡ db.revoked_tokens ++ (record { jti = jti; expires_at = exp }) ∷ [])
unfolding revoke
revoke_blacklists x keys now t jti exp db signed free =
    elim (Option-cases (find (is_token t) db.tokens)) [
      | inl unknown ↦ rw (signed, free, unknown) (refl, refl, refl)
      | inr (row, found) ↦ elim (Bool-cases row.revoked) [
        | inl used ↦ rw (signed, free, found, used) (refl, refl, refl)
        | inr live ↦ rw (signed, free, found, live) (refl, refl, refl)
      ]
    ]

-- A token of the service that was revoked and that PyJWT still accepts is refused by the token
-- reader with the ids that the revocation blacklisted, while introspection still calls it active.
-- Conditions: PyJWT decodes the same claims with the expiry check as without it, and the id was not
-- revoked before.
pub revoked_still_introspects :
    (x : External) (keys : Keys) (now later : ℕ) (token jti exp : Text) (payload : Claims) (db : Db)
    → destroyed_jti x keys now token ≡ some (jti, exp)
    → find (has_jti jti) db.revoked_tokens ≡ none
    → decode_token x keys true later token ≡ some payload
    → decode_token x keys true later token ≡ decode_token x keys false now token
    → let s = (revoke x keys now token (open_session db)).1 in
      (read_token x keys s.blacklisted later (some token) s.saved ≡ none)
      × (introspect x keys later token ≢ inactive)
unfolding introspect
revoked_still_introspects x keys now later token jti exp payload db signed free accepted agrees =
    let listed = (revoke_blacklists x keys now token jti exp db signed free).1 in
    let s = (revoke x keys now token (open_session db)).1 in
    (
      read-destroyed x keys now later token jti exp s.blacklisted s.saved (inr agrees) signed
          (rw listed (ground arith)),
      ground arith,
    )
