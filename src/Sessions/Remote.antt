-- ===== src/Sessions/Remote.antt =====
-- app/api/v1/sessions.py: what a remote sign-out reaches.
use lite_iam.Revocation.{has_jti}
use lite_iam.Prelude.{
  ℕ, Text, ◌≡◌, refl, none, some, List, [], ◌∷◌, ◌⊎◌, find, select_where, update_where, arith,
  false, ◌==◌, true,
}
use lite_iam.External.{External}
use lite_iam.Models.{OauthToken, User}
use lite_iam.Sessions.{
  revoke_session, Keys, is_own, revoke_all_sessions, is_listed, is_live_of, list_sessions,
  destroyed_jti,
}
use lite_iam.Database.{Db, Result, open_session, Session, ok, get_session}
use lite_iam.Tokens.{decode_token, read_token}
use lite_iam.Tokens.Stages.{read-destroyed}

-- The reply, and the session that the request leaves, its worker's set included.
abbrev pub revoked_by : External → Keys → User → Text → ℕ → Db → Result (Unit {0}) × Session
revoked_by x keys user session_id now db =
    revoke_session x keys user session_id now (open_session db)

-- The user's row under an id, after the row was revoked.
found_revoked :
    (user_id id : ℕ) (row : OauthToken) (rows : List OauthToken)
    → find (is_own user_id id) rows ≡ some row
    → find
        (is_own user_id id)
        (update_where (λ r. r.id == id) (λ r. record r { revoked = true }) rows)
      ≡ some (record row { revoked = true })
found_revoked user_id id row [] found = ground arith
found_revoked user_id id row (r ∷ rows) found = ground (arith, found_revoked user_id id row rows)

-- When a user revokes one of its sessions that is live, the row is revoked, and the worker reads
-- the session's access token as no user at any later time. Conditions: the id parses, the service
-- signed the access token, its id is not in the table of revoked ids yet, and PyJWT decodes it to
-- the same claims with the expiry check as without it, or refuses it.
pub revoke_session_ends :
    (x : External) (keys : Keys) (user : User) (session_id : Text) (now later id : ℕ)
    (jti exp : Text) (row : OauthToken) (db : Db)
    → x.as_uuid session_id ≡ some id
    → find (is_own user.id id) db.tokens ≡ some row
    → row.revoked ≡ false
    → find (has_jti jti) db.revoked_tokens ≡ none
    → destroyed_jti x keys now row.access_token ≡ some (jti, exp)
    → (decode_token x keys true later row.access_token ≡ none)
      ⊎ (decode_token x keys true later row.access_token
          ≡ decode_token x keys false now row.access_token)
    → let (reply, s) = revoked_by x keys user session_id now db in
      (reply ≡ ok tt)
      × (find (is_own user.id id) s.saved.tokens ≡ some (record row { revoked = true }))
      × (read_token x keys s.blacklisted later (some row.access_token) s.saved ≡ none)
unfolding revoke_session
revoke_session_ends x keys user session_id now later id jti exp row db parses found live fresh
      signed agrees =
    rw (parses, found, live, signed, fresh)
      (
        refl,
        found_revoked user.id id row db.tokens found,
        read-destroyed x keys now later row.access_token jti exp (jti ∷ []) _ agrees signed
            (ground arith),
      )

module _ (x : External) (keys : Keys) where
  none_listed :
      (user_id now : ℕ) (rows : List OauthToken) → select_where (is_listed user_id now) rows ≡ []
  none_listed user_id now [] = refl
  none_listed user_id now (r ∷ rows) = ground (arith, none_listed user_id now rows)

  none_live :
      (user_id : ℕ) (rows : List OauthToken) → select_where (is_live_of x keys user_id) rows ≡ []
  none_live user_id [] = refl
  none_live user_id (r ∷ rows) = ground (arith, none_live user_id rows)

  -- A global sign-out returns and does nothing, and the list of sessions is empty, whatever rows the
  -- user has.
  pub global_sign_out_does_nothing :
      (user : User) (now later : ℕ) (db : Db)
      → (revoke_all_sessions x keys user now (open_session db) ≡ (ok tt, open_session db))
        × (get_session (list_sessions user later) db ≡ (ok [], db))
  unfolding revoke_all_sessions list_sessions
  global_sign_out_does_nothing user now later db = (rw none_live refl, rw none_listed refl)
