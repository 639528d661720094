-- ===== src/Oauth/Grant/Codes.antt =====
-- The code grant: the lookup as it is written, and what the rest of the handler demands of a row.
use lite_iam.Prelude.{
  not_attribute, ◌⊎◌, Option-cases, inl, inr, ℕ, suc, Text, ◌≤◌, ◌≡◌, refl, Bool, true, ◌&&◌,
  Option, none, some, List, [], ◌∷◌, ◌++◌, ◌==◌, arith, sql_eq, find, update_where, ap, ◌≢◌,
}
use lite_iam.Models.{User, OauthClient, AuthorizationCode}
use lite_iam.Settings.{Settings}
use lite_iam.External.{External}
use lite_iam.Database.{Db, ok, err, http, get_session, get_user, Error}
use lite_iam.Oauth.Grant.{Fresh, TokenResponse, first_row, redeem_code, handle_code_grant}
use lite_iam.Database.Runs.{Result-cases}

find-false :
    (p q : AuthorizationCode → Bool) (rows : List AuthorizationCode)
    → find (λ c. p c && q c && not_attribute) rows ≡ none
find-false p q [] = refl
find-false p q (c ∷ rows) = ground (arith, find-false p q rows)

abbrev pub used : AuthorizationCode → AuthorizationCode
used c = record c { used = true }

-- What PKCE demands: a verifier whose digest is the stored challenge.
abbrev pub IsVerified : External → Option Text → Option Text → Type 0
IsVerified x (some verifier) (some challenge) = x.s256 verifier ≡ challenge
IsVerified x (some verifier) none = ⊥
IsVerified x none challenge = ⊥

module _ (x : External) (cfg : Settings) (write_token : User → Text) (fresh : Fresh) (now : ℕ)
    (client : OauthClient) (redirect_uri code_verifier : Option Text) where
  -- Whatever codes are stored, the code grant refuses every non-empty code with 400 and changes
  -- nothing.
  pub code_grant_refuses :
      (code : Text) (db : Db)
      → get_session
          (handle_code_grant x cfg write_token fresh now
            (some (suc code))
            redirect_uri
            code_verifier
            client)
          db
        ≡ (err (http 400 "Invalid or expired authorization code"), db)
  unfolding handle_code_grant
  code_grant_refuses code db = rw (
      find-false (λ c. sql_eq (some (suc code)) c.code) (λ c. c.client_id == client.client_id)
        db.codes)

  redeem_IsVerified :
      (auth_code : AuthorizationCode) (db : Db)
      → client.require_pkce ≡ true
      → (shown : Option Text) (reply : TokenResponse)
      → (get_session
          (redeem_code x cfg write_token fresh now client auth_code redirect_uri shown)
          db).0
        ≡ ok reply
      → IsVerified x shown auth_code.code_challenge
  unfolding redeem_code
  redeem_IsVerified auth_code db required none reply done = absurd (ground arith)
  redeem_IsVerified auth_code db required (some v) reply done =
      elim (Option-cases auth_code.code_challenge) [
        | inl missing ↦ absurd (ground arith)
        | inr (challenge, stored) ↦ rw stored (ground arith)
      ]

  -- If the part of the code grant that follows the lookup succeeds for a row whose user exists,
  -- then the code has not expired, the redirect address is the one it was issued for, the PKCE
  -- verifier fits where the client requires one, and the user is active. The row is then marked as
  -- used, and one token row is stored.
  pub redeem_sound :
      (auth_code : AuthorizationCode) (db : Db) (user : User) (reply : TokenResponse)
      → get_user auth_code.user_id db ≡ some user
      → (get_session
          (redeem_code x cfg write_token fresh now client auth_code redirect_uri code_verifier)
          db).0
        ≡ ok reply
      → let db' =
          (get_session
            (redeem_code x cfg write_token fresh now client auth_code redirect_uri code_verifier)
            db).1 in
        (now ≤ auth_code.expires_at)
        × (redirect_uri ≡ some auth_code.redirect_uri)
        × (client.require_pkce ≡ true → IsVerified x code_verifier auth_code.code_challenge)
        × (user.is_active ≡ true)
        × (db'.codes ≡ update_where (λ c. c.id == auth_code.id) used db.codes)
        × (db'.tokens
            ≡ db.tokens ++ first_row x cfg write_token fresh now client auth_code user ∷ [])
  unfolding redeem_code
  redeem_sound auth_code db user reply known done = (
    ground arith,
    ground arith,
    λ required. redeem_IsVerified auth_code db required code_verifier reply done,
    ground arith,
    ground arith,
    ground arith,
  )

  redeem_err :
      (auth_code : AuthorizationCode) (db : Db) (e : Error)
      → (get_session
          (redeem_code x cfg write_token fresh now client auth_code redirect_uri code_verifier)
          db).0
        ≡ err e
      → (get_session
          (redeem_code x cfg write_token fresh now client auth_code redirect_uri code_verifier)
          db).1
        ≡ db
  unfolding redeem_code
  redeem_err auth_code db e failed = ground arith

  redeem_unknown :
      (auth_code : AuthorizationCode) (db : Db) (reply : TokenResponse)
      → get_user auth_code.user_id db ≡ none
      → (get_session
          (redeem_code x cfg write_token fresh now client auth_code redirect_uri code_verifier)
          db).0
        ≢ ok reply
  unfolding redeem_code
  redeem_unknown auth_code db reply gone done = ground arith

  -- A code grant stores nothing, or one token row.
  pub redeem_outcome :
      (auth_code : AuthorizationCode) (db : Db)
      → let db' =
          (get_session
            (redeem_code x cfg write_token fresh now client auth_code redirect_uri code_verifier)
            db).1 in
        (db'.tokens ≡ db.tokens)
        ⊎ ((user : User) × (db'.tokens
              ≡ db.tokens ++ first_row x cfg write_token fresh now client auth_code user ∷ []))
  redeem_outcome auth_code db =
      elim (Result-cases
        (get_session
          (redeem_code x cfg write_token fresh now client auth_code redirect_uri code_verifier)
          db).0) [
            | inr (e, failed) ↦ inl (ap (λ (d : Db). d.tokens) (redeem_err auth_code db e failed))
            | inl (reply, done) ↦ elim (Option-cases (get_user auth_code.user_id db)) [
              | inl gone ↦ absurd (redeem_unknown auth_code db reply gone done)
              | inr (user, known) ↦ inr (user, (redeem_sound auth_code db user reply known done).5)
            ]
          ]
