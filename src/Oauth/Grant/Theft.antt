-- ===== src/Oauth/Grant/Theft.antt =====
-- Refresh-token rotation, and what a replay of a rotated token does.
use lite_iam.Prelude.{
  zero, ◌||◌, Bool-cases, Option-cases, inl, inr, ℕ, suc, Text, ◌≤◌, ◌≡◌, refl, Bool, true, false,
  not, ◌&&◌, some, List, [], ◌∷◌, ◌++◌, ◌==◌, arith, sql_eq, find, update_where, count_where,
  truthy,
}
use lite_iam.Models.{User, OauthClient, OauthToken}
use lite_iam.Settings.{Settings}
use lite_iam.External.{External}
use lite_iam.Database.{Db, Result, Error, ok, err, http, get_session, get_user}
use lite_iam.Oauth.Grant.{Fresh, TokenResponse, expired, next_row, handle_refresh_grant}
use lite_iam.Oauth.Grant.Families.{
  revoke, is_live, is_member, count-append, live-revoke, live-revoke_found,
}

-- The lookup of a refresh token.
abbrev pub presented : Text → OauthClient → OauthToken → Bool
presented refresh_token client r =
    sql_eq r.refresh_token refresh_token && (r.client_id == client.client_id)

abbrev pub theft : Error
theft = http 401 "Refresh token already used — possible token theft detected. Please sign in again."

module _ (x : External) (cfg : Settings) (write_token : User → Text) (client : OauthClient) where
  -- The reply and the tables of one refresh.
  abbrev pub refresh : Fresh → ℕ → Text → Db → Result TokenResponse × Db
  refresh fresh now refresh_token db =
      get_session (handle_refresh_grant x cfg write_token fresh now (some refresh_token) client) db

  -- A row that is revoked, and of a family, is presented: the reply is an error, and no row of the
  -- family is live for the client any more.
  pub replay_revokes_family :
      (fresh : Fresh) (now : ℕ) (refresh_token : Text) (db : Db) (row : OauthToken) (family : ℕ)
      → truthy refresh_token ≡ true
      → find (presented refresh_token client) db.tokens ≡ some row
      → row.revoked ≡ true
      → row.token_family_id ≡ some family
      → ((refresh fresh now refresh_token db).0 ≡ err theft)
        × ((refresh fresh now refresh_token db).1 ≡ record db {
          tokens = update_where (is_member client.client_id family) revoke db.tokens;
        })
  unfolding handle_refresh_grant
  replay_revokes_family fresh now refresh_token db row family nonempty found used member =
      ground arith

  -- If a refresh succeeds, and the presented token's row and its user are given, then the row was
  -- live, it had not expired, and the user is active; the reply carries the fresh refresh token,
  -- the row is revoked, and its replacement is stored.
  pub refresh_sound :
      (fresh : Fresh) (now : ℕ) (refresh_token : Text) (db : Db) (row : OauthToken) (user : User)
      (reply : TokenResponse)
      → find (presented refresh_token client) db.tokens ≡ some row
      → get_user row.user_id db ≡ some user
      → (refresh fresh now refresh_token db).0 ≡ ok reply
      → (row.revoked ≡ false)
        × (expired now row.refresh_token_expires_at ≡ false)
        × (user.is_active ≡ true)
        × (reply.refresh_token ≡ some fresh.refresh_token)
        × ((refresh fresh now refresh_token db).1.tokens
            ≡ update_where (λ r. r.id == row.id) revoke db.tokens
              ++ next_row x cfg write_token fresh now client row user ∷ [])
  unfolding handle_refresh_grant
  refresh_sound fresh now refresh_token db row user reply found known done = ground arith

  -- What one refresh does to the token rows: nothing, or it revokes a family, or it rotates.
  data Outcome (fresh : Fresh) (now : ℕ) (db : Db) (tokens : List OauthToken) : Type 0 where
    same : tokens ≡ db.tokens → Outcome fresh now db tokens
    revoked :
        (family : ℕ)
        → tokens ≡ update_where (is_member client.client_id family) revoke db.tokens
        → Outcome fresh now db tokens
    rotated :
        (row : OauthToken) (user : User) (refresh_token : Text)
        → find (presented refresh_token client) db.tokens ≡ some row
        → row.revoked ≡ false
        → tokens
          ≡ update_where (λ r. r.id == row.id) revoke db.tokens
            ++ next_row x cfg write_token fresh now client row user ∷ []
        → Outcome fresh now db tokens

  refresh_outcome_of_live :
      (fresh : Fresh) (now : ℕ) (refresh_token : Text) (db : Db) (row : OauthToken)
      → truthy refresh_token ≡ true
      → find (presented refresh_token client) db.tokens ≡ some row
      → row.revoked ≡ false
      → Outcome fresh now db (refresh fresh now refresh_token db).1.tokens
  unfolding handle_refresh_grant
  refresh_outcome_of_live fresh now refresh_token db row nonempty found live =
      elim (Option-cases (get_user row.user_id db)) [
        | inl gone ↦ same (ground arith)
        | inr (user, known) ↦
            elim (Bool-cases (expired now row.refresh_token_expires_at || not user.is_active)) [
              | inl refused ↦ same (ground arith)
              | inr granted ↦ rotated row user refresh_token found live (ground arith)
            ]
      ]

  refresh_outcome_of_revoked :
      (fresh : Fresh) (now : ℕ) (refresh_token : Text) (db : Db) (row : OauthToken)
      → truthy refresh_token ≡ true
      → find (presented refresh_token client) db.tokens ≡ some row
      → row.revoked ≡ true
      → Outcome fresh now db (refresh fresh now refresh_token db).1.tokens
  unfolding handle_refresh_grant
  refresh_outcome_of_revoked fresh now refresh_token db row nonempty found used =
      elim (Option-cases row.token_family_id) [
        | inl alone ↦ same (ground arith)
        | inr (family, member) ↦ revoked family (ground arith)
      ]

  refresh_outcome :
      (fresh : Fresh) (now : ℕ) (refresh_token : Text) (db : Db)
      → Outcome fresh now db (refresh fresh now refresh_token db).1.tokens
  unfolding handle_refresh_grant
  refresh_outcome fresh now zero db = same refl
  refresh_outcome fresh now (suc t) db =
      elim (Option-cases (find (presented (suc t) client) db.tokens)) [
        | inl unknown ↦ same (ground arith)
        | inr (row, found) ↦ elim (Bool-cases row.revoked) [
          | inl used ↦ refresh_outcome_of_revoked fresh now (suc t) db row refl found used
          | inr live ↦ refresh_outcome_of_live fresh now (suc t) db row refl found live
        ]
      ]

  Outcome-live :
      (fresh : Fresh) (now : ℕ) (db : Db) (tokens : List OauthToken) (family : ℕ)
      → Outcome fresh now db tokens
      → count_where (is_live family) tokens ≤ count_where (is_live family) db.tokens
  Outcome-live fresh now db tokens family (same e) = rw e (omega arith)
  Outcome-live fresh now db tokens family (revoked f e) =
      rw e (live-revoke family (is_member client.client_id f) db.tokens)
  Outcome-live fresh now db tokens family (rotated row user t found live e) =
      rw (e, count-append)
        (ground (
          arith,
          live-revoke family (λ r. r.id == row.id) db.tokens,
          live-revoke_found family (presented t client) db.tokens row found,
        ))

  -- Whatever token is presented, no family has more live rows afterwards than before.
  pub refresh-live :
      (fresh : Fresh) (now : ℕ) (refresh_token : Text) (db : Db) (family : ℕ)
      → count_where (is_live family) (refresh fresh now refresh_token db).1.tokens
        ≤ count_where (is_live family) db.tokens
  refresh-live fresh now refresh_token db family =
      Outcome-live fresh now db (refresh fresh now refresh_token db).1.tokens family
        (refresh_outcome fresh now refresh_token db)
