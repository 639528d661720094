-- ===== src/Oauth/Rotation.antt =====
-- Runs of the token endpoints: what a family of refresh tokens can come to.
use lite_iam.Prelude.{
  eq_of_==, ℕ, suc, Text, ◌≤◌, ◌≡◌, refl, Option, some, ◌==◌, ap, ◌∙◌, arith, find, update_where,
  count_where, Bool-cases, inl, inr,
}
use lite_iam.Models.{User, OauthClient, AuthorizationCode, OauthToken}
use lite_iam.Settings.{Settings}
use lite_iam.External.{External}
use lite_iam.Tokens.{Keys}
use lite_iam.Database.{Db, ok, err, get_session, get_user}
use lite_iam.Database.Runs.{find-update_other, find-append}
use lite_iam.Oauth.Grant.{Fresh, TokenResponse, redeem_code}
use lite_iam.Oauth.Grant.Families.{
  revoke, is_live, is_live_for, count-append, live-revoke, live-revoke_member,
}
use lite_iam.Oauth.Grant.Theft.{
  refresh, presented, theft, refresh_sound, replay_revokes_family, refresh-live,
}
use lite_iam.Oauth.Endpoint
use lite_iam.Oauth.Endpoint.Guards.{revoke_outcome}
use lite_iam.Oauth.Grant.Codes.{redeem_outcome}

module _ (x : External) (cfg : Settings) (write_token : User → Text) (client : OauthClient) where
  -- A non-empty refresh token of a family is rotated successfully, and is then presented by its
  -- client again, at any time. The second reply is the theft error, and afterwards no row of the
  -- family is live for the client, the replacement included.
  pub rotate_then_replay :
      (fresh fresh' : Fresh) (now later : ℕ) (t family : ℕ) (db : Db) (row : OauthToken)
      (user : User) (reply : TokenResponse)
      → find (presented (suc t) client) db.tokens ≡ some row
      → row.token_family_id ≡ some family
      → get_user row.user_id db ≡ some user
      → (refresh x cfg write_token client fresh now (suc t) db).0 ≡ ok reply
      → let db' = (refresh x cfg write_token client fresh now (suc t) db).1 in
        let (reply', db'') = refresh x cfg write_token client fresh' later (suc t) db' in
        (reply' ≡ err theft) × (count_where (is_live_for client.client_id family) db''.tokens ≡ 0)
  rotate_then_replay fresh fresh' now later t family db row user reply found member known done =
      let db' = (refresh x cfg write_token client fresh now (suc t) db).1 in
      let sound =
        refresh_sound x cfg write_token client fresh now (suc t) db row user reply found known
          done in
      let again : find (presented (suc t) client) db'.tokens ≡ some (revoke row) = rw (sound.4) (
        find-append (presented (suc t) client) (update_where (λ r. r.id == row.id) revoke db.tokens)
          _ (revoke row)
          (find-update_other (presented (suc t) client) (λ r. r.id == row.id) revoke db.tokens row
              (λ a. refl) found
            ∙ ap some (ground arith))) in
      let replay =
        replay_revokes_family x cfg write_token client fresh' later (suc t) db' (revoke row) family
          refl again refl member in
      (replay.0, rw (replay.1) (live-revoke_member client.client_id family db'.tokens))

-- A code that is redeemed for an offline token opens a family that has no live row yet, and
-- without the offline scope no family gets a row.
redeem-live :
    (x : External) (cfg : Settings) (write_token : User → Text) (fresh : Fresh) (now : ℕ)
    (client : OauthClient) (auth_code : AuthorizationCode)
    (redirect_uri code_verifier : Option Text) (db : Db) (family : ℕ)
    → count_where (is_live fresh.family_id) db.tokens ≡ 0
    → count_where (is_live family) db.tokens ≤ 1
    → count_where
        (is_live family)
        (get_session
          (redeem_code x cfg write_token fresh now client auth_code redirect_uri code_verifier)
          db).1.tokens
      ≤ 1
redeem-live x cfg write_token fresh now client auth_code redirect_uri code_verifier db family new
      one =
    elim (redeem_outcome x cfg write_token fresh now client redirect_uri code_verifier auth_code
      db) [
        | inl same ↦ rw same one
        | inr (user, stored) ↦
            rw (stored, count-append)
              (elim (Bool-cases (fresh.family_id == family)) [
                | inl here ↦ rw (← eq_of_== fresh.family_id family here) (ground (arith, new))
                | inr other ↦ ground arith
              ])
      ]

revoking-live :
    (x : External) (keys : Keys) (now : ℕ) (t : Text) (db : Db) (family : ℕ)
    → count_where (is_live family) (get_session (Endpoint.revoke x keys now t) db).1.tokens
      ≤ count_where (is_live family) db.tokens
revoking-live x keys now t db family = elim (revoke_outcome x keys now t db) [
  | inl same ↦ rw same (omega arith)
  | inr (id, cut) ↦ rw cut (live-revoke family (λ r. r.id == id) db.tokens)
]

module _ (x : External) (cfg : Settings) (keys : Keys) (write_token : User → Text) where
  -- One request to a token endpoint, of any client at any time.
  pub data Step (db : Db) : Db → Type 0 where
    refreshing :
        (client : OauthClient) (fresh : Fresh) (now : ℕ) (t : Text)
        → Step db (refresh x cfg write_token client fresh now t db).1
    redeeming :
        (client : OauthClient) (fresh : Fresh) (now : ℕ) (auth_code : AuthorizationCode)
        (redirect_uri code_verifier : Option Text)
        → count_where (is_live fresh.family_id) db.tokens ≡ 0
        → Step db
            (get_session
              (redeem_code x cfg write_token fresh now client auth_code redirect_uri code_verifier)
              db).1
    revoking : (now : ℕ) (t : Text) → Step db (get_session (Endpoint.revoke x keys now t) db).1

  pub data Reach (db : Db) : Db → Type 0 where
    here : Reach db db
    next : {b c : Db} → Reach db b → Step b c → Reach db c

  Step-live :
      (family : ℕ) {a b : Db}
      → Step a b
      → count_where (is_live family) a.tokens ≤ 1
      → count_where (is_live family) b.tokens ≤ 1
  Step-live family {a = a} (refreshing client fresh now t) one =
      omega (arith, refresh-live x cfg write_token client fresh now t a family)
  Step-live family {a = a} (redeeming client fresh now auth_code redirect_uri code_verifier new)
        one =
      redeem-live x cfg write_token fresh now client auth_code redirect_uri code_verifier a family
        new one
  Step-live family {a = a} (revoking now t) one = omega (arith, revoking-live x keys now t a family)

  -- Over any sequence of refreshes, redeemed codes and revocations, of any clients at any times, a
  -- token family that has at most one row that is not revoked keeps at most one. Condition, a part
  -- of the steps: the family id that a redeemed code draws has no live row yet.
  pub one_live_token :
      (family : ℕ) {a b : Db}
      → Reach a b
      → count_where (is_live family) a.tokens ≤ 1
      → count_where (is_live family) b.tokens ≤ 1
  one_live_token family here one = one
  one_live_token family (next r step) one = Step-live family step (one_live_token family r one)
