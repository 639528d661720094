-- ===== src/Gdpr/Erasure.antt =====
-- app/api/v1/gdpr.py: nothing opens an erased account.
use lite_iam.Prelude.{
  ℕ, Text, ◌≡◌, ◌≢◌, refl, false, Option, none, some, List, [], ◌==◌, find, select_where, arith,
  Option-cases, Bool-cases, inl, inr, ap, ◌∙◌, sym,
}
use lite_iam.Models.{User, OauthClient, OauthToken}
use lite_iam.External.{External}
use lite_iam.Settings.{Settings}
use lite_iam.Database.{Db, ok, get_session, open_session, get_user}
use lite_iam.Database.Runs.{find_holds}
use lite_iam.Gdpr.{erase_my_account, Bool}
use lite_iam.Login.{LoginRequest, LoginResponse, Services, login}
use lite_iam.Login.Sound.{login_sound}
use lite_iam.Pat.{dispatch_pat, passed, is_owner, is_valid}
use lite_iam.Pat.Access.{current_user_or_pat, Request}
use lite_iam.Oauth.Grant.{Fresh, TokenResponse}
use lite_iam.Oauth.Grant.Theft.{refresh, presented, refresh_sound}
use lite_iam.Tokens.{Keys, read_token}
use lite_iam.Devices.{is_trusted_device}
use lite_iam.Passkey.Keys.{is_listed}
use lite_iam.Gdpr.Rows.{found_inactive, no_device, no_passkey, read_found}

-- A request without a personal access token.
abbrev pub no_pat : Option Text → Request
no_pat bearer = record { pat_user = none; pat_scopes = none; bearer = bearer }

-- The ways into an account by its id, at any time: its password, a signed access token, a personal
-- access token, and a refresh token of a client. A login's lookup by address returns the row that
-- stands under its id.
pub data Enters (x : External) (cfg : Settings) (keys : Keys) (services : Services) (db : Db)
    : ℕ → Type 0 where
  by_password :
      (request : LoginRequest) (response : LoginResponse)
      → (login x cfg services request (open_session db)).0 ≡ ok response
      → Enters x cfg keys services db response.user_id
  by_token :
      (revoked_jtis : List Text) (now : ℕ) (bearer : Option Text) (u : User)
      → (get_session (current_user_or_pat x keys revoked_jtis now (no_pat bearer)) db).0 ≡ ok u
      → Enters x cfg keys services db u.id
  by_pat :
      (now : ℕ) (value : Text) (owner : User) (scopes : List Text) (id : ℕ)
      → dispatch_pat x now value db ≡ passed owner scopes id
      → Enters x cfg keys services db owner.id
  by_refresh :
      (write_token : User → Text) (client : OauthClient) (fresh : Fresh) (now : ℕ)
      (refresh_token : Text) (row : OauthToken) (u : User) (reply : TokenResponse)
      → find (presented refresh_token client) db.tokens ≡ some row
      → get_user row.user_id db ≡ some u
      → (refresh x cfg write_token client fresh now refresh_token db).0 ≡ ok reply
      → Enters x cfg keys services db u.id

module _ (anon_email : Text) (user : User) (db : Db) where
  abbrev pub erased : Db
  erased = (get_session (erase_my_account anon_email user) db).1

  row_inactive :
      (q : User → Bool) (u : User)
      → find q erased.users ≡ some u
      → u.id ≡ user.id
      → u.is_active ≡ false
  unfolding erase_my_account
  row_inactive q u found same = found_inactive user.id anon_email q db.users u found same

  module _ (x : External) (now : ℕ) where
    -- No personal access token of the account passes.
    pub erased_pat :
        (value : Text) (owner : User) (scopes : List Text) (id : ℕ)
        → dispatch_pat x now value erased ≡ passed owner scopes id
        → owner.id ≢ user.id
    unfolding dispatch_pat
    erased_pat value owner scopes id went same =
        elim (Option-cases (find (is_valid (x.sha256 value) now) erased.pats)) [
          | inl unknown ↦ absurd (ground arith)
          | inr (pat, valid) ↦ elim (Option-cases (find (is_owner pat) erased.users)) [
            | inl unowned ↦ absurd (ground arith)
            | inr (o, found) ↦
                let own : o ≡ owner = ground arith in
                let inactive : owner.is_active ≡ false =
                  row_inactive (is_owner pat) owner (rw own at found) same in
                absurd
                  (ground (arith, find_holds (is_owner pat) erased.users owner (rw own at found)))
          ]
        ]

    -- No access token of the account passes.
    pub erased_token :
        (keys : Keys) (revoked_jtis : List Text) (bearer : Option Text) (u : User)
        → (get_session (current_user_or_pat x keys revoked_jtis now (no_pat bearer)) erased).0
          ≡ ok u
        → u.id ≢ user.id
    unfolding current_user_or_pat
    erased_token keys revoked_jtis none u entered same = absurd (ground arith)
    erased_token keys revoked_jtis (some token) u entered same =
        elim (Option-cases (read_token x keys revoked_jtis now (some token) erased)) [
          | inl unread ↦ absurd (ground arith)
          | inr (v, read) ↦
              let (id, found) = read_found x keys revoked_jtis now token v erased read in
              elim (Bool-cases v.is_active) [
                | inr inactive ↦ absurd (ground arith)
                | inl alive ↦
                    let own : v ≡ u = ground arith in
                    let dead =
                      row_inactive (λ w. w.id == id) v found (ap (λ (w : User). w.id) own ∙ same) in
                    absurd (ground arith)
              ]
        ]

    -- No password of the account passes.
    pub erased-login :
        (cfg : Settings) (services : Services) (request : LoginRequest) (response : LoginResponse)
        → ((u : User)
            → services.get_by_email request.email erased ≡ some u
            → get_user u.id erased ≡ some u)
        → (login x cfg services request (open_session erased)).0 ≡ ok response
        → response.user_id ≢ user.id
    erased-login cfg services request response keyed entered same =
        let (u, t, found, active_t, passes, (unlocked, verified, own, reply)) =
          login_sound x cfg services request erased response keyed entered in
        let inactive = row_inactive (λ w. w.id == u.id) u (keyed u found) (sym own ∙ same) in
        let (active, allowed, checked) = passes in absurd (ground arith)

    erased-refresh :
        (cfg : Settings) (write_token : User → Text) (client : OauthClient) (fresh : Fresh)
        (refresh_token : Text) (row : OauthToken) (u : User) (reply : TokenResponse)
        → find (presented refresh_token client) erased.tokens ≡ some row
        → get_user row.user_id erased ≡ some u
        → (refresh x cfg write_token client fresh now refresh_token erased).0 ≡ ok reply
        → u.id ≢ user.id
    erased-refresh cfg write_token client fresh refresh_token row u reply found known done same =
        let (live, early, active, fresh_token, rows) =
          refresh_sound x cfg write_token client fresh now refresh_token erased row u reply found
            known done in
        let inactive = row_inactive (λ w. w.id == row.user_id) u known same in absurd (ground arith)

  -- After the erasure of an account, no login, no access token, no personal access token and no
  -- refresh token of a rotation is accepted for its id. Condition: the lookup by address returns
  -- the row that stands under its id.
  pub erasure_shuts :
      (x : External) (cfg : Settings) (keys : Keys) (services : Services) {id : ℕ}
      → ((email : Text) (u : User)
          → services.get_by_email email erased ≡ some u
          → get_user u.id erased ≡ some u)
      → Enters x cfg keys services erased id
      → id ≢ user.id
  erasure_shuts x cfg keys services keyed (by_password request response entered) =
      erased-login x request.now cfg services request response (keyed request.email) entered
  erasure_shuts x cfg keys services keyed (by_token revoked_jtis now bearer u entered) =
      erased_token x now keys revoked_jtis bearer u entered
  erasure_shuts x cfg keys services keyed (by_pat now value owner scopes id went) =
      erased_pat x now value owner scopes id went
  erasure_shuts x cfg keys services keyed
        (by_refresh write_token client fresh now refresh_token row u reply found known done) =
      erased-refresh x now cfg write_token client fresh refresh_token row u reply found known done

  -- The account has no device left that skips the second factor, and lists no passkey.
  pub erasure_forgets_devices :
      (x : External) (cookie : Text) (now : ℕ)
      → (get_session (is_trusted_device x user.id cookie now) erased ≡ (ok false, erased))
        × (select_where (is_listed user.id) erased.passkeys ≡ [])
  unfolding erase_my_account is_trusted_device
  erasure_forgets_devices x cookie now = (
    rw (no_device user.id anon_email x cookie now db.devices) refl,
    no_passkey user.id anon_email db.passkeys,
  )
